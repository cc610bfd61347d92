-- ===== src/Engine/Reconcile.antt =====
-- The reconcile of a scope against the store's snapshot: internal/engine/reconcile.go.
pub mod Quiet
pub mod Bookkeeping
pub mod Converge
pub mod Rows
pub mod Absent
use lib_systemplane.Prelude.{
  ℕ, ◌==◌, nat_comparable, if◌then◌else◌, not, ◌&&◌, ◌||◌, Bool, true, false, Option, none, some,
  List, [], ◌∷◌, get, has, is_some, Result, ok, err,
}
use lib_systemplane.Engine.State.{
  NsKey, ns_key_comparable, Env, Shared, ScopeState, StoreEntry, Arming, CacheEntry, KeyDef, Error,
  unregistered_key, first_reconcile_panicked, Publication,
}
use lib_systemplane.Engine.Windows.{
  touched_in, unusable_in, superseded, close_window, clear_stale, finish_first_reconcile,
  arm_reconcile, take_reconcile,
}
use lib_systemplane.Engine.Scope.{cached, mark_unconfirmed, mark_confirmed}
use lib_systemplane.Engine.Publish.{publish}
use lib_systemplane.Engine.Ingest.{prepare, ingest_default, lookup_key, registered_keys, key_of}

-- What `Store.List` comes to. A panic of it is one of the panics that `runOneReconcile` recovers.
pub data Listing : Type 0 where
  rows : List StoreEntry → Listing
  list_failed : Error → Listing
  list_panicked : Listing

unfoldable pub is_unregistered : Error → Bool
is_unregistered unregistered_key = true
is_unregistered _ = false

-- `seen[nk]`: the snapshot holds a row of the key.
unfoldable pub seen : NsKey → List StoreEntry → Bool
seen nk [] = false
seen nk (se ∷ ses) = key_of se == nk || seen nk ses

module _ {V Ctx : Type 0} (env : Env V Ctx) where
  -- The results are `keep` and `agreed`.
  unfoldable pub keeps_cached_value : Arming → NsKey → ScopeState V → Bool × Bool
  unfolding cached
  keeps_cached_value arm nk sc =
      if touched_in arm.window nk sc.windows then (true, false) else elim (cached nk sc) [
        | none ↦ (false, false)
        | some c ↦
            if unusable_in arm.window nk sc.windows
            then (true, false)
            else elim (lookup_key env nk) [
              | none ↦ (false, false)
              | some def ↦
                  let agreed = c.revision == 0 && env.deep_equal c.value def.default in
                  (agreed, agreed)
            ]
      ]

  -- The locked section of `applyAbsentKey`; the second result is `superseded`.
  unfoldable pub apply_absent_key : Shared → Arming → NsKey → ScopeState V → ScopeState V × Bool
  unfolding superseded keeps_cached_value mark_confirmed
  apply_absent_key g arm nk sc =
      if superseded arm sc
      then (sc, true)
      else let (keep, agreed) = keeps_cached_value arm nk sc in
        if keep
        then (if agreed then mark_confirmed nk sc else sc, false)
        else ((ingest_default env g nk false sc).0, false)

  -- The branch of `applySnapshotRow` for a row that could not be read.
  unfoldable pub apply_unusable_row : Shared → NsKey → Error → ScopeState V → ScopeState V
  unfolding is_unregistered cached
  apply_unusable_row g nk e sc =
      if is_unregistered e || is_some (cached nk sc)
      then sc
      else (ingest_default env g nk false sc).0

  -- The branch for a usable row.
  unfoldable pub apply_usable_row :
      Shared → Arming → Publication V → NsKey → ScopeState V → ScopeState V
  unfolding mark_unconfirmed
  apply_usable_row g arm p nk sc =
      let sc' = (publish env g p sc).0 in
      if unusable_in arm.window nk sc'.windows then mark_unconfirmed nk sc' else sc'

  unfoldable pub apply_prepared :
      Shared → Arming → NsKey → Result Error (Publication V) → ScopeState V → ScopeState V
  unfolding apply_usable_row apply_unusable_row
  apply_prepared g arm nk (ok p) sc = apply_usable_row g arm p nk sc
  apply_prepared g arm nk (err e) sc = apply_unusable_row g nk e sc

  unfoldable pub apply_snapshot_row :
      Shared → Arming → StoreEntry → ScopeState V → ScopeState V × Bool
  unfolding superseded apply_prepared
  apply_snapshot_row g arm se sc =
      if superseded arm sc
      then (sc, true)
      else if touched_in arm.window (key_of se) sc.windows
      then (sc, false)
      else (
        apply_prepared g arm (key_of se) (prepare env env.dispatch_context sc.scope se false) sc,
        false,
      )

  unfoldable pub apply_rows : Shared → Arming → List StoreEntry → ScopeState V → ScopeState V × Bool
  apply_rows g arm [] sc = (sc, false)
  apply_rows g arm (se ∷ ses) sc =
      let (sc', superseded') = apply_snapshot_row g arm se sc in
      let rest = apply_rows g arm ses sc' in if superseded' then (sc', true) else rest

  unfoldable pub apply_absent :
      Shared → Arming → List StoreEntry → List NsKey → ScopeState V → ScopeState V × Bool
  unfolding seen
  apply_absent g arm ses [] sc = (sc, false)
  apply_absent g arm ses (nk ∷ nks) sc =
      let (sc', superseded') =
        (if seen nk ses then (sc, false) else apply_absent_key g arm nk sc) in
      let rest = apply_absent g arm ses nks sc' in if superseded' then (sc', true) else rest

  -- `applyScope` where no other section runs between two of its own. `live` says that the engine
  -- still tracks this very state. The results are `superseded` and the error.
  unfoldable pub apply_scope :
      Shared → Arming → Bool → Listing → ScopeState V → ScopeState V × Bool × Option Error
  apply_scope g arm false listing sc = (sc, true, none)
  apply_scope g arm true (list_failed e) sc = (sc, false, some e)
  apply_scope g arm true list_panicked sc = (sc, false, some first_reconcile_panicked)
  apply_scope g arm true (rows ses) sc =
      if superseded arm sc
      then (sc, true, none)
      else let (sc1, over1) = apply_rows g arm ses sc in
        if over1
        then (sc1, true, none)
        else let (sc2, over2) = apply_absent g arm ses (registered_keys env) sc1 in
          if over2 then (sc2, true, none) else (clear_stale arm sc2, false, none)

  -- `runOneReconcile` around `reconcileScope`: the window is closed on every path, the outcome of
  -- the first reconcile recorded on every path but the superseded ones.
  unfoldable pub run_one_reconcile : Shared → Arming → Bool → Listing → ScopeState V → ScopeState V
  run_one_reconcile g arm live listing sc =
      if superseded arm sc
      then close_window arm sc
      else let (sc', over, e) = apply_scope g arm live listing sc in
        if over then close_window arm sc' else finish_first_reconcile e (close_window arm sc')

  -- One round of `runReconcileWorker`, for a signal that was sent: the arming is taken, and
  -- reconciled if it is still there.
  unfoldable pub reconcile_round : Shared → Bool → Listing → ScopeState V → ScopeState V
  unfolding take_reconcile
  reconcile_round g live listing sc =
      let (sc', pending) = take_reconcile (record sc { resync_signal = false }) in
      elim pending [ none ↦ sc' | some arm ↦ run_one_reconcile g arm live listing sc' ]

module _ {V : Type 0} where
  unfoldable pub displace : ScopeState V × Option Arming → ScopeState V
  displace (sc, none) = sc
  displace (sc, some arm) = close_window arm sc

  -- `onResync` on a tracked scope: arm, close a displaced window, and start the scope's one
  -- reconcile goroutine, or give the arming back when the engine is shutting down.
  unfoldable pub on_resync : Shared → ScopeState V → ScopeState V
  unfolding displace arm_reconcile take_reconcile close_window
  on_resync g sc =
      let armed = displace (arm_reconcile sc) in
      if g.workers_closed
      then displace (take_reconcile armed)
      else record armed { worker_started = true }
