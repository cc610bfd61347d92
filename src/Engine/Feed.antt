-- ===== src/Engine/Feed.antt =====
-- The changefeed: internal/engine/feed.go. A re-read is split at the store call: `refresh_begin`
-- captures the fence, `refresh_end` takes the store's answer.
use lib_systemplane.Prelude.{
  if◌then◌else◌, not, Bool, true, false, Option, none, some, Result, ok, err,
}
use lib_systemplane.Engine.State.{
  NsKey, RetryKey, Env, Shared, ScopeState, StoreEntry, FeedFence, Error,
}
use lib_systemplane.Engine.Windows.{record_key}
use lib_systemplane.Engine.Scope.{
  fence_for, bump_deletes, superseded_by_publication, record_unconfirmed, begin_retry, end_retry,
}
use lib_systemplane.Engine.Ingest.{ingest, ingest_default}

-- What `getRow` comes to. `failed true` is a cancellation while the engine shuts down.
pub data Row : Type 0 where
  found : StoreEntry → Row
  absent panicked : Row
  failed : Bool → Row

module _ {V : Type 0} where
  -- The locked section of `recordFeedDelete`.
  unfoldable pub record_feed_delete : NsKey → ScopeState V → ScopeState V
  unfolding record_key bump_deletes
  record_feed_delete nk sc = bump_deletes nk (record_key nk true sc)

  -- `recordFeedOutcome`; `live` says that the engine still tracks this very state.
  unfoldable pub record_feed_outcome : Bool → NsKey → Bool → ScopeState V → ScopeState V
  unfolding record_key
  record_feed_outcome live nk usable sc = if live then record_key nk usable sc else sc

  -- `retryRefresh`; the second result is the retry that this started.
  unfoldable pub retry_refresh :
      Bool
      → Shared
      → NsKey
      → FeedFence
      → Bool
      → Bool
      → ScopeState V
      → ScopeState V × Option RetryKey
  unfolding record_unconfirmed begin_retry end_retry
  retry_refresh live g nk fence deleted retried sc =
      if not live
      then (sc, none)
      else if retried
      then (record_unconfirmed nk fence sc, none)
      else let rk : RetryKey = record { ns_key = nk; deleted = deleted } in
        let (sc', begun) = begin_retry rk sc in
        if not begun
        then (sc, none)
        else if g.workers_closed
        then (end_retry rk sc', none)
        else (sc', some rk)

  -- `recoverRefresh` on a panic, with the scope's state and the origin at hand.
  unfoldable pub recover_refresh :
      Bool
      → Shared
      → NsKey
      → FeedFence
      → Bool
      → Bool
      → ScopeState V
      → ScopeState V × Option RetryKey
  unfolding record_feed_outcome retry_refresh
  recover_refresh live g nk origin deleted retried sc =
      retry_refresh live g nk origin deleted retried (record_feed_outcome live nk false sc)

  -- `fence` and `origin`, captured before the read.
  unfoldable pub refresh_begin : NsKey → FeedFence → ScopeState V → FeedFence × FeedFence
  unfolding fence_for
  refresh_begin nk origin sc =
      let fence = fence_for nk sc in (fence, if origin.armed then origin else fence)

module _ {V : Type 0} where
  -- `if notify { sc.record(nk, true) }`.
  unfoldable pub record_notified : NsKey → ScopeState V × Result Error Bool → ScopeState V
  unfolding record_key
  record_notified nk (sc, ok true) = record_key nk true sc
  record_notified nk (sc, ok false) = sc
  record_notified nk (sc, err e) = sc

  unfoldable pub delete_result :
      NsKey → ScopeState V × Result Error Bool → ScopeState V × Option Error
  unfolding record_key
  delete_result nk (sc, ok true) = (record_key nk true sc, none)
  delete_result nk (sc, ok false) = (sc, none)
  delete_result nk (sc, err e) = (sc, some e)

module _ {V Ctx : Type 0} (env : Env V Ctx) where
  unfoldable pub publish_absent_delete : Shared → NsKey → FeedFence → ScopeState V → ScopeState V
  unfolding record_notified superseded_by_publication
  publish_absent_delete g nk fence sc =
      if superseded_by_publication nk fence sc
      then sc
      else record_notified nk (ingest_default env g nk false sc)

  -- The locked section of `PublishDelete`.
  unfoldable pub publish_delete_in : Shared → NsKey → ScopeState V → ScopeState V × Option Error
  unfolding delete_result
  publish_delete_in g nk sc = delete_result nk (ingest_default env g nk true sc)

  -- `refreshKey` from the store's answer on. `live` says that the engine still tracks this state.
  unfoldable pub refresh_end :
      Bool
      → Shared
      → NsKey
      → FeedFence
      → FeedFence
      → Bool
      → Bool
      → Row
      → ScopeState V
      → ScopeState V × Option RetryKey
  unfolding record_feed_outcome retry_refresh recover_refresh publish_absent_delete
      record_unconfirmed
  refresh_end live g nk fence origin deleted retried (failed true) sc =
      (record_feed_outcome live nk false sc, none)
  refresh_end live g nk fence origin deleted retried (failed false) sc =
      retry_refresh live g nk origin deleted retried (record_feed_outcome live nk false sc)
  refresh_end live g nk fence origin deleted retried panicked sc =
      recover_refresh live g nk origin deleted retried sc
  refresh_end live g nk fence origin deleted retried absent sc =
      if not live
      then (sc, none)
      else if deleted
      then (publish_absent_delete g nk fence sc, none)
      else (if retried then record_unconfirmed nk origin sc else sc, none)
  refresh_end live g nk fence origin deleted retried (found se) sc =
      if not live
      then (sc, none)
      else ((ingest env g env.dispatch_context se fence false sc).0, none)
