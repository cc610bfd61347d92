-- ===== src/Engine/Lifecycle.antt =====
-- Bring-up, teardown and shutdown: `New`, `Start`, `scopeFor`, `bringUpScope`, `retryFailedScope`,
-- `dropScope` and `Close` of internal/engine/{publish,engine}.go. A bring-up is split at the
-- store's Subscribe, and `Start` at its wait.
pub mod Restart
use lib_systemplane.Prelude.{
  ℕ, nat_comparable, ◌+◌, if◌then◌else◌, Bool, true, false, Option, none, some, List, [], ◌∷◌, ◌++◌,
  GoMap, get, put, del, is_some, get_or, not, Result, ok, err,
}
use lib_systemplane.Engine.State.{
  Scope, scope_comparable, ScopeState, Env, Error, store_closed, nil_backend, nil_registry,
  context_done,
}
use lib_systemplane.Engine.Scope.{new_scope_state, stop_reconcile_worker}
use lib_systemplane.Engine.Ingest.{zero_scope}
use lib_systemplane.Engine.Dispatch.{stop_scope_workers}
use lib_systemplane.Engine.Core.{Engine, tracked_scope, state_at}

listed : Option ℕ → List ℕ
listed none = []
listed (some h) = h ∷ []

-- What a bring-up has come to before the Subscribe.
pub data BringUp : Type 0 where
  refused : BringUp
  already_subscribed must_subscribe : ℕ → BringUp

-- What ends the wait of `Start`.
pub data Awaited : Type 0 where
  first_reconcile_done engine_done caller_done : Awaited

first_reconcile_failed : Option (Option Error) → Bool
first_reconcile_failed none = false
first_reconcile_failed (some none) = false
first_reconcile_failed (some (some e)) = true

module _ {V : Type 0} where
  unfoldable pub scope_for : Scope → Engine V → Engine V × Option ℕ
  unfolding tracked_scope new_scope_state
  scope_for scope e = elim (tracked_scope scope e) [
    | some p ↦ (e, some p)
    | none ↦ if e.shared.closed then (e, none) else (
      record e {
        scopes = put scope e.next_pointer e.scopes;
        heap = put e.next_pointer (new_scope_state scope) e.heap;
        next_pointer = e.next_pointer + 1;
      },
      some e.next_pointer,
    )
  ]

  torn_down : ScopeState V → ScopeState V
  unfolding stop_reconcile_worker stop_scope_workers
  torn_down sc = (stop_scope_workers (stop_reconcile_worker (record sc { unsubscribe = none }))).0

  -- `dropScope`; the second result is the subscription that this call released.
  unfoldable pub drop_scope : Scope → Engine V → Engine V × Option ℕ
  unfolding tracked_scope torn_down
  drop_scope scope e = elim (tracked_scope scope e) [
    | none ↦ (record e { scopes = del scope e.scopes }, none)
    | some p ↦ elim (get p e.heap) [
      | none ↦ (record e { scopes = del scope e.scopes }, none)
      | some sc ↦ (
        record e { scopes = del scope e.scopes; heap = put p (torn_down sc) e.heap },
        sc.unsubscribe,
      )
    ]
  ]

  -- `retryFailedScope`.
  unfoldable pub retry_failed_scope : Scope → Engine V → Engine V × Option ℕ
  unfolding first_reconcile_failed tracked_scope state_at drop_scope
  retry_failed_scope scope e = elim (state_at (tracked_scope scope e) e) [
    | none ↦ (e, none)
    | some sc ↦ if first_reconcile_failed sc.first_reconcile then drop_scope scope e else (e, none)
  ]

  unfoldable pub bring_up_begin : Scope → Engine V → Engine V × BringUp
  unfolding scope_for
  bring_up_begin scope e =
      let (e', pointer) = scope_for scope e in
      elim pointer [
        | none ↦ (e', refused)
        | some p ↦ elim (get p e'.heap) [
          | none ↦ (e', refused)
          | some sc ↦
              (e', if is_some sc.unsubscribe then already_subscribed p else must_subscribe p)
        ]
      ]

  -- The rest of the bring-up of the state at `p`, from what Subscribe returned. The third result
  -- is the subscriptions that it released.
  unfoldable pub bring_up_end :
      Scope → ℕ → Result Error ℕ → Engine V → Engine V × Option Error × List ℕ
  unfolding drop_scope listed
  bring_up_end scope p (err f) e =
      let (e', released) = drop_scope scope e in (e', some f, listed released)
  bring_up_end scope p (ok handle) e =
      if e.shared.closed
      then (let (e', released) = drop_scope scope e in
          (e', some store_closed, handle ∷ listed released))
      else elim (get p e.heap) [
        | none ↦ (e, none, [])
        | some sc ↦
            (record e { heap = put p (record sc { unsubscribe = some handle }) e.heap }, none, [])
      ]

  -- `trackedScopes`.
  unfoldable pub tracked_scopes : GoMap Scope ℕ → Engine V → List (ScopeState V)
  unfolding state_at
  tracked_scopes [] e = []
  tracked_scopes ((scope, p) ∷ m) e = elim (state_at (some p) e) [
    | none ↦ tracked_scopes m e
    | some sc ↦ sc ∷ tracked_scopes m e
  ]

  handles : List (ScopeState V) → List ℕ
  unfolding listed
  handles [] = []
  handles (sc ∷ scs) = listed sc.unsubscribe ++ handles scs

  -- `Close` up to the drain: nothing new is taken, every tracked scope's subscription is released.
  unfoldable pub close_begin : Engine V → Engine V × List ℕ
  unfolding handles tracked_scopes
  close_begin e = (
    record e { shared = record (e.shared) { closed = true } },
    handles (tracked_scopes e.scopes e),
  )

  unfoldable pub close_workers : Engine V → Engine V
  close_workers e = record e { shared = record (e.shared) { workers_closed = true } }

  -- `New`: the engine tracks nothing and has no subscriber.
  unfoldable pub new_engine : Engine V
  new_engine = record {
    shared = record { closed = false; workers_closed = false; subscribers = []; next_sub_id = 0 };
    scopes = [];
    heap = [];
    next_pointer = 0;
  }

module _ {V Ctx : Type 0} (env : Env V Ctx) where
  -- `Start` up to the Subscribe of its bring-up; `backed` says that the engine has a store. The
  -- third result is the subscription that the retry of a failed scope released.
  unfoldable pub start_begin : Bool → Engine V → Engine V × Result Error BringUp × Option ℕ
  unfolding retry_failed_scope bring_up_begin
  start_begin backed e =
      if e.shared.closed
      then (e, err store_closed, none)
      else if not backed
      then (e, err nil_backend, none)
      else if not (is_some env.registry)
      then (e, err nil_registry, none)
      else let (e1, released) = retry_failed_scope zero_scope e in
        let (e2, begun) = bring_up_begin zero_scope e1 in (e2, ok begun, released)

module _ {V : Type 0} where
  -- `Start` after its wait.
  unfoldable pub start_end : Awaited → ScopeState V → Option Error
  start_end first_reconcile_done sc = get_or sc.first_reconcile none
  start_end engine_done sc = some store_closed
  start_end caller_done sc = some context_done
