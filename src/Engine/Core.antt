-- ===== src/Engine/Core.antt =====
-- The engine's entry points: `Publish`, `PublishDelete`, `Lookup` and `onEvent` of
-- internal/engine/{engine,publish,feed}.go. A scope's state has an address on the heap, since the
-- code compares `*scopeState` pointers.
pub mod Serves
pub mod Deletes
use lib_systemplane.Prelude.{
  ℕ, nat_comparable, ◌==◌, if◌then◌else◌, not, ◌&&◌, ◌||◌, Bool, true, false, Option, none, some,
  GoMap, get, put, has, is_some,
}
use lib_systemplane.Engine.State.{
  Scope, NsKey, scope_comparable, ns_key_comparable, Env, Shared, ScopeState, StoreEntry,
  CacheEntry, Published, Error, closed, scope_not_tracked, Event, Op, upsert, delete, resync,
  disconnect,
}
use lib_systemplane.Engine.Scope.{no_fence, mark_stale, cached, begin_refresh}
use lib_systemplane.Engine.Ingest.{ingest, lookup_key}
use lib_systemplane.Engine.Reconcile.{on_resync}
use lib_systemplane.Engine.Feed.{record_feed_delete, publish_delete_in}

pub record Engine (V : Type 0) : Type 0 where
  pub shared : Shared
  pub scopes : GoMap Scope ℕ
  pub heap : GoMap ℕ (ScopeState V)
  pub next_pointer : ℕ

module _ {V : Type 0} where
  -- `trackedScope`: the pointer of the scope's state.
  unfoldable pub tracked_scope : Scope → Engine V → Option ℕ
  tracked_scope scope e = get scope e.scopes

  -- `scopeForEvent`, which also logs a scope that is not tracked.
  unfoldable pub scope_for_event : Scope → Engine V → Option ℕ
  unfolding tracked_scope
  scope_for_event scope e = tracked_scope scope e

  unfoldable pub state_at : Option ℕ → Engine V → Option (ScopeState V)
  state_at none e = none
  state_at (some p) e = get p e.heap

  unfoldable pub tracked_state : Scope → Engine V → Option (ScopeState V)
  unfolding tracked_scope state_at
  tracked_state scope e = state_at (tracked_scope scope e) e

  -- A write through the pointer of the scope's state.
  unfoldable pub write_state : Option ℕ → ScopeState V → Engine V → Engine V
  write_state none sc e = e
  write_state (some p) sc e = record e { heap = put p sc e.heap }

  unfoldable pub update_tracked : Scope → ScopeState V → Engine V → Engine V
  unfolding write_state tracked_scope
  update_tracked scope sc e = write_state (tracked_scope scope e) sc e

  unfoldable pub published_of : Bool → CacheEntry V → Published V
  published_of stale c = record {
    value = c.value;
    revision = c.revision;
    updated_at = c.updated_at;
    updated_by = c.updated_by;
    stale = stale;
  }

  unfoldable pub is_stale : NsKey → ScopeState V → Bool
  is_stale nk sc = sc.stale || has nk sc.unconfirmed

  -- `Lookup`: the stale flag, which a miss reports too, and the entry.
  unfoldable pub lookup : Scope → NsKey → Engine V → Bool × Option (Published V)
  unfolding tracked_state published_of cached is_stale
  lookup scope nk e = elim (tracked_state scope e) [
    | none ↦ (false, none)
    | some sc ↦ elim (cached nk sc) [
      | none ↦ (is_stale nk sc, none)
      | some c ↦ (is_stale nk sc, some (published_of (is_stale nk sc) c))
    ]
  ]

module _ {V : Type 0} where
  -- `beginWork`: no work starts once `Close` has closed the door.
  unfoldable pub begin_work : Engine V → Bool
  begin_work e = not e.shared.workers_closed

  -- `trackedRefresh` up to its first read; the second result is whether it reads.
  unfoldable pub tracked_refresh_begin : Scope → NsKey → Bool → Engine V → Engine V × Bool
  unfolding begin_work begin_refresh state_at scope_for_event write_state
  tracked_refresh_begin scope nk deleted e =
      if not (begin_work e)
      then (e, false)
      else let pointer = scope_for_event scope e in
        elim (state_at pointer e) [
          | none ↦ (e, false)
          | some sc ↦
              let (sc', begun) = begin_refresh nk deleted sc in (write_state pointer sc' e, begun)
        ]

module _ {V Ctx : Type 0} (env : Env V Ctx) where
  -- `Publish`.
  unfoldable pub publish_entry : Ctx → Scope → StoreEntry → Engine V → Engine V × Option Error
  publish_entry ctx scope se e =
      if e.shared.closed then (e, some closed) else elim (tracked_state scope e) [
        | none ↦ (e, some scope_not_tracked)
        | some sc ↦
            let (sc', failure) = ingest env e.shared ctx se no_fence true sc in
            (update_tracked scope sc' e, failure)
      ]

  -- `PublishDelete`.
  unfoldable pub publish_delete : Scope → NsKey → Engine V → Engine V × Option Error
  publish_delete scope nk e =
      if e.shared.closed then (e, some closed) else elim (tracked_state scope e) [
        | none ↦ (e, some scope_not_tracked)
        | some sc ↦
            let (sc', failure) = publish_delete_in env e.shared nk sc in
            (update_tracked scope sc' e, failure)
      ]

  key_event : Bool → Scope → NsKey → Engine V → Engine V × Option (NsKey × Bool)
  key_event deleted scope nk e =
      if is_some (lookup_key env nk)
      then (
        (if deleted
            then elim (tracked_state scope e) [
              | none ↦ e
              | some sc ↦ update_tracked scope (record_feed_delete nk sc) e
            ]
            else e),
        some (nk, deleted),
      )
      else (e, none)

  -- `onEvent`; the second result is the re-read handed to the debouncer.
  dispatch_event : Op → Event → Engine V → Engine V × Option (NsKey × Bool)
  unfolding key_event
  dispatch_event disconnect evt e = elim (tracked_state evt.scope e) [
    | none ↦ (e, none)
    | some sc ↦ (update_tracked evt.scope (mark_stale sc) e, none)
  ]
  dispatch_event resync evt e = elim (tracked_state evt.scope e) [
    | none ↦ (e, none)
    | some sc ↦ (update_tracked evt.scope (on_resync e.shared sc) e, none)
  ]
  dispatch_event delete evt e =
      key_event true evt.scope (record { namespace = evt.namespace; key = evt.key }) e
  dispatch_event upsert evt e =
      key_event false evt.scope (record { namespace = evt.namespace; key = evt.key }) e

  unfoldable pub on_event : Event → Engine V → Engine V × Option (NsKey × Bool)
  unfolding dispatch_event
  on_event evt e = if e.shared.closed then (e, none) else dispatch_event evt.op evt e
