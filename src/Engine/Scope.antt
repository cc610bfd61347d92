-- ===== src/Engine/Scope.antt =====
-- The operations of one scope's state: internal/engine/scope.go, and `markStale`, `cached`.
use lib_systemplane.Prelude.{
  ◌==◌, nat_comparable, if◌then◌else◌, not, ◌&&◌, ◌||◌, Bool, true, false, Option, none, some, [],
  get, has, put, del, get_or, inc64,
}
use lib_systemplane.Engine.State.{
  Scope, NsKey, RetryKey, ns_key_comparable, retry_key_comparable, KeyFence, FeedFence, ScopeState,
  CacheEntry,
}

abbrev pub zero_fence : KeyFence
zero_fence = record { deletes = 0; publications = 0 }

abbrev pub no_fence : FeedFence
no_fence = record { fence = zero_fence; armed = false }

unfoldable pub fence_equal : KeyFence → KeyFence → Bool
fence_equal a b = a.deletes == b.deletes && a.publications == b.publications

module _ {V : Type 0} where
  unfoldable pub new_scope_state : Scope → ScopeState V
  new_scope_state scope = record {
    scope = scope;
    entries = [];
    fences = [];
    stale = true;
    unconfirmed = [];
    retrying = [];
    inflight = [];
    again = [];
    disconnect_gen = 0;
    first_reconcile = none;
    resync_pending = none;
    resync_signal = false;
    reconcile_stop = false;
    workers = [];
    worker_started = false;
    workers_dropped = false;
    reconcile_gen = 0;
    windows = [];
    next_address = 0;
    unsubscribe = none;
  }

  unfoldable pub cached : NsKey → ScopeState V → Option (CacheEntry V)
  cached nk sc = get nk sc.entries

  -- `sc.fences[nk]`, the zero fence where the key has none.
  unfoldable pub key_fence : NsKey → ScopeState V → KeyFence
  key_fence nk sc = get_or (get nk sc.fences) zero_fence

  unfoldable pub fence_for : NsKey → ScopeState V → FeedFence
  unfolding key_fence
  fence_for nk sc = record { fence = key_fence nk sc; armed = true }

  unfoldable pub superseded_by_delete : NsKey → FeedFence → ScopeState V → Bool
  unfolding key_fence
  superseded_by_delete nk f sc =
      if not f.armed then false else not ((key_fence nk sc).deletes == f.fence.deletes)

  unfoldable pub superseded_by_publication : NsKey → FeedFence → ScopeState V → Bool
  unfolding key_fence fence_equal
  superseded_by_publication nk f sc =
      if not f.armed then false else not (fence_equal (key_fence nk sc) f.fence)

  unfoldable pub bump_deletes : NsKey → ScopeState V → ScopeState V
  unfolding key_fence
  bump_deletes nk sc =
      let fence = key_fence nk sc in
      record sc { fences = put nk (record fence { deletes = inc64 fence.deletes }) sc.fences }

  unfoldable pub mark_unconfirmed : NsKey → ScopeState V → ScopeState V
  mark_unconfirmed nk sc = record sc { unconfirmed = put nk tt sc.unconfirmed }

  unfoldable pub mark_confirmed : NsKey → ScopeState V → ScopeState V
  mark_confirmed nk sc = record sc { unconfirmed = del nk sc.unconfirmed }

  unfoldable pub record_unconfirmed : NsKey → FeedFence → ScopeState V → ScopeState V
  unfolding superseded_by_publication mark_unconfirmed
  record_unconfirmed nk f sc =
      if superseded_by_publication nk f sc then sc else mark_unconfirmed nk sc

  unfoldable pub begin_retry : RetryKey → ScopeState V → ScopeState V × Bool
  begin_retry rk sc =
      if has rk sc.retrying
      then (sc, false)
      else (record sc { retrying = put rk tt sc.retrying }, true)

  unfoldable pub end_retry : RetryKey → ScopeState V → ScopeState V
  end_retry rk sc = record sc { retrying = del rk sc.retrying }

  unfoldable pub begin_refresh : NsKey → Bool → ScopeState V → ScopeState V × Bool
  begin_refresh nk deleted sc =
      if has nk sc.inflight
      then (
        record sc { again = put nk (get_or (get nk sc.again) false || deleted) sc.again },
        false,
      )
      else (record sc { inflight = put nk tt sc.inflight }, true)

  -- The results are `again` and `deleted`.
  unfoldable pub end_refresh : NsKey → ScopeState V → ScopeState V × Bool × Bool
  end_refresh nk sc = elim (get nk sc.again) [
    | some deleted ↦ (record sc { again = del nk sc.again }, true, deleted)
    | none ↦ (record sc { inflight = del nk sc.inflight }, false, false)
  ]

  unfoldable pub stop_reconcile_worker : ScopeState V → ScopeState V
  stop_reconcile_worker sc = record sc { reconcile_stop = true }

  -- The locked part of `Engine.markStale`.
  unfoldable pub mark_stale : ScopeState V → ScopeState V
  mark_stale sc = record sc { stale = true; disconnect_gen = inc64 sc.disconnect_gen }
