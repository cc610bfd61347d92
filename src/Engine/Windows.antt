-- ===== src/Engine/Windows.antt =====
-- Reconcile windows and armings: internal/engine/reconcile.go (the window, `record`,
-- `closeWindow`, `superseded`, `clearStale`) and `armReconcile`/`takeReconcile` of scope.go.
pub mod Laws
use lib_systemplane.Prelude.{
  ℕ, ◌+◌, ◌==◌, nat_comparable, if◌then◌else◌, not, Bool, true, false, Option, none, some, List, [],
  ◌∷◌, map, has, put, del, is_some, inc64,
}
use lib_systemplane.Engine.State.{NsKey, ns_key_comparable, Window, Arming, ScopeState, Error}

-- One window's share of `record`.
unfoldable pub note : NsKey → Bool → Window → Window
note nk usable w =
    if usable
    then record w { touched = put nk tt w.touched; unusable = del nk w.unusable }
    else record w { unusable = put nk tt w.unusable }

unfoldable pub record_in : NsKey → Bool → List Window → List Window
record_in nk usable [] = []
record_in nk usable (w ∷ ws) = (if w.is_open then note nk usable w else w) ∷ record_in nk usable ws

-- `delete(sc.windows, gen)`: the object stays reachable through its arming.
unfoldable pub delete_window : ℕ → List Window → List Window
delete_window gen [] = []
delete_window gen (w ∷ ws) =
    (if w.generation == gen then record w { is_open = false } else w) ∷ delete_window gen ws

unfoldable pub find_window : ℕ → List Window → Option Window
find_window a [] = none
find_window a (w ∷ ws) = if w.address == a then some w else find_window a ws

-- `_, ok := arm.window.touched[nk]`, and the same of `unusable`.
unfoldable pub touched_in : ℕ → NsKey → List Window → Bool
touched_in a nk ws = elim (find_window a ws) [ none ↦ false | some w ↦ has nk w.touched ]

unfoldable pub unusable_in : ℕ → NsKey → List Window → Bool
unusable_in a nk ws = elim (find_window a ws) [ none ↦ false | some w ↦ has nk w.unusable ]

module _ {V : Type 0} where
  -- `scopeState.record`.
  unfoldable pub record_key : NsKey → Bool → ScopeState V → ScopeState V
  record_key nk usable sc = record sc { windows = record_in nk usable sc.windows }

  unfoldable pub close_window : Arming → ScopeState V → ScopeState V
  close_window arm sc = record sc { windows = delete_window arm.reconcile sc.windows }

  unfoldable pub superseded : Arming → ScopeState V → Bool
  superseded arm sc = not (sc.reconcile_gen == arm.reconcile)

  unfoldable pub clear_stale : Arming → ScopeState V → ScopeState V
  unfolding superseded
  clear_stale arm sc =
      if superseded arm sc
      then sc
      else if sc.disconnect_gen == arm.disconnect
      then record sc { stale = false }
      else sc

  unfoldable pub arm_reconcile : ScopeState V → ScopeState V × Option Arming
  arm_reconcile sc =
      let gen : ℕ = inc64 sc.reconcile_gen in
      let window : Window = record {
        address = sc.next_address;
        generation = gen;
        is_open = true;
        touched = [];
        unusable = [];
      } in
      let arm : Arming = record {
        reconcile = gen;
        disconnect = sc.disconnect_gen;
        window = sc.next_address;
      } in
      (
        record sc {
          stale = true;
          reconcile_gen = gen;
          windows = window ∷ delete_window gen sc.windows;
          next_address = sc.next_address + 1;
          resync_pending = some arm;
          resync_signal = true;
        },
        sc.resync_pending,
      )

  unfoldable pub take_reconcile : ScopeState V → ScopeState V × Option Arming
  take_reconcile sc =
      if is_some sc.resync_pending
      then (record sc { resync_pending = none }, sc.resync_pending)
      else (sc, none)

  -- The channel is closed and the outcome recorded once.
  unfoldable pub finish_first_reconcile : Option Error → ScopeState V → ScopeState V
  finish_first_reconcile e sc =
      if is_some sc.first_reconcile then sc else record sc { first_reconcile = some e }
