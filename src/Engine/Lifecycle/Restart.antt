-- ===== src/Engine/Lifecycle/Restart.antt =====
-- `Start` after a failed first reconcile: `retryFailedScope` and `bringUpScope` of
-- internal/engine/engine.go.
use lib_systemplane.Prelude.{
  nat_comparable, ◌≡◌, ap, ◌∙◌, true, false, none, some, get, get-put_self, get-del_self, arith,
  is_some, ok,
}
use lib_systemplane.Engine.State.{scope_comparable, Env, ScopeState, Error}
use lib_systemplane.Engine.Scope.{new_scope_state}
use lib_systemplane.Engine.Ingest.{zero_scope}
use lib_systemplane.Engine.Core.{Engine, tracked_scope, state_at, tracked_state}
use lib_systemplane.Engine.Lifecycle.{
  must_subscribe, scope_for, drop_scope, retry_failed_scope, bring_up_begin, start_begin,
}

module _ {V : Type 0} where
  retried :
      (e : Engine V) (sc : ScopeState V) {x : Error}
      → tracked_state zero_scope e ≡ some sc
      → sc.first_reconcile ≡ some (some x)
      → ((retry_failed_scope zero_scope e).1 ≡ sc.unsubscribe)
        × (get zero_scope (retry_failed_scope zero_scope e).0.scopes ≡ none)
        × ((retry_failed_scope zero_scope e).0.shared ≡ e.shared)
        × ((retry_failed_scope zero_scope e).0.next_pointer ≡ e.next_pointer)
  unfolding retry_failed_scope drop_scope tracked_state tracked_scope state_at
  retried e sc h f = ground (arith, get-del_self zero_scope e.scopes)

  begun :
      (e : Engine V)
      → e.shared.closed ≡ false
      → get zero_scope e.scopes ≡ none
      → ((bring_up_begin zero_scope e).1 ≡ must_subscribe e.next_pointer)
        × (tracked_state zero_scope (bring_up_begin zero_scope e).0
            ≡ some (new_scope_state zero_scope))
  unfolding bring_up_begin scope_for tracked_state tracked_scope state_at new_scope_state
  begun e up h = ground (
    arith,
    get-put_self e.next_pointer (new_scope_state {V = V} zero_scope) e.heap,
    get-put_self zero_scope e.next_pointer e.scopes,
  )

module _ {V Ctx : Type 0} (env : Env V Ctx) where
  start_goes_on :
      (e : Engine V)
      → e.shared.closed ≡ false
      → is_some env.registry ≡ true
      → start_begin env true e ≡ (
        (bring_up_begin zero_scope (retry_failed_scope zero_scope e).0).0,
        ok (bring_up_begin zero_scope (retry_failed_scope zero_scope e).0).1,
        (retry_failed_scope zero_scope e).1,
      )
  unfolding start_begin
  start_goes_on e up reg = ground arith

  -- A `Start` that finds its scope's first reconcile failed, on an open engine that has a store and
  -- a registry: it releases the failed scope's subscription, and goes on to subscribe a new state
  -- of the scope, which is the one tracked from there.
  pub failed_start_retried :
      (e : Engine V) (sc : ScopeState V) {x : Error}
      → e.shared.closed ≡ false
      → is_some env.registry ≡ true
      → tracked_state zero_scope e ≡ some sc
      → sc.first_reconcile ≡ some (some x)
      → ((start_begin env true e).1 ≡ ok (must_subscribe e.next_pointer))
        × ((start_begin env true e).2 ≡ sc.unsubscribe)
        × (tracked_state zero_scope (start_begin env true e).0 ≡ some (new_scope_state zero_scope))
  failed_start_retried e sc up reg h f =
      let (released, gone, same, fresh) = retried e sc h f in
      let e1 = (retry_failed_scope zero_scope e).0 in
      let (subscribes, new) = begun e1 (ap (λ g. g.closed) same ∙ up) gone in
      rw (start_goes_on e up reg) (ap ok (subscribes ∙ ap must_subscribe fresh), released, new)
