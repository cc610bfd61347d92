-- ===== src/Engine/Steps.antt =====
-- The scope's state under concurrency. Every section that the code runs under the scope's locks is
-- one step, whichever goroutine runs it: a local write, a re-read, the reconcile, the changefeed.
-- What a goroutine captured earlier (a fence, an arming, a prepared value) is arbitrary here, so
-- the steps include every interleaving.
pub mod Frames
pub mod Stable
pub mod Windows
pub mod Fences
pub mod Cache
pub mod Freshness
pub mod Overtaken
use lib_systemplane.Prelude.{Bool, false, Option}
use lib_systemplane.Engine.State.{
  NsKey, RetryKey, Env, Shared, ScopeState, StoreEntry, FeedFence, Arming, Error,
}
use lib_systemplane.Engine.Windows.{
  close_window, clear_stale, take_reconcile, finish_first_reconcile,
}
use lib_systemplane.Engine.Scope.{
  record_unconfirmed, begin_retry, end_retry, begin_refresh, end_refresh, stop_reconcile_worker,
  mark_stale,
}
use lib_systemplane.Engine.Dispatch.{stop_scope_workers}
use lib_systemplane.Engine.Ingest.{ingest_begin, ingest_commit, prepare, key_of}
use lib_systemplane.Engine.Reconcile.{apply_snapshot_row, apply_absent_key, on_resync}
use lib_systemplane.Engine.Feed.{
  record_feed_delete, record_feed_outcome, publish_absent_delete, publish_delete_in,
}

module _ {V Ctx : Type 0} (env : Env V Ctx) where
  pub data Step : ScopeState V → ScopeState V → Type 0 where
    fenced : (nk : NsKey) (sc : ScopeState V) → Step sc (ingest_begin nk sc)
    committed :
        (g : Shared) (ctx : Ctx) (se : StoreEntry) (fence : FeedFence) (pregraded : Bool)
        (sc : ScopeState V)
        → Step sc
            (ingest_commit env g
              (key_of se)
              (prepare env ctx sc.scope se pregraded)
              fence
              pregraded
              sc).0
    deleted_locally :
        (g : Shared) (nk : NsKey) (sc : ScopeState V) → Step sc (publish_delete_in env g nk sc).0
    deleted_by_feed : (nk : NsKey) (sc : ScopeState V) → Step sc (record_feed_delete nk sc)
    found_absent :
        (g : Shared) (nk : NsKey) (fence : FeedFence) (sc : ScopeState V)
        → Step sc (publish_absent_delete env g nk fence sc)
    read_failed :
        (live : Bool) (nk : NsKey) (sc : ScopeState V)
        → Step sc (record_feed_outcome live nk false sc)
    gave_up :
        (nk : NsKey) (fence : FeedFence) (sc : ScopeState V)
        → Step sc (record_unconfirmed nk fence sc)
    row_applied :
        (g : Shared) (arm : Arming) (se : StoreEntry) (sc : ScopeState V)
        → Step sc (apply_snapshot_row env g arm se sc).0
    absence_applied :
        (g : Shared) (arm : Arming) (nk : NsKey) (sc : ScopeState V)
        → Step sc (apply_absent_key env g arm nk sc).0
    cleared : (arm : Arming) (sc : ScopeState V) → Step sc (clear_stale arm sc)
    window_closed : (arm : Arming) (sc : ScopeState V) → Step sc (close_window arm sc)
    resynced : (g : Shared) (sc : ScopeState V) → Step sc (on_resync g sc)
    reconcile_taken : (sc : ScopeState V) → Step sc (take_reconcile sc).0
    first_finished : (e : Option Error) (sc : ScopeState V) → Step sc (finish_first_reconcile e sc)
    disconnected : (sc : ScopeState V) → Step sc (mark_stale sc)
    retry_begun : (rk : RetryKey) (sc : ScopeState V) → Step sc (begin_retry rk sc).0
    retry_ended : (rk : RetryKey) (sc : ScopeState V) → Step sc (end_retry rk sc)
    refresh_begun :
        (nk : NsKey) (deleted : Bool) (sc : ScopeState V) → Step sc (begin_refresh nk deleted sc).0
    refresh_ended : (nk : NsKey) (sc : ScopeState V) → Step sc (end_refresh nk sc).0
    reconcile_stopped : (sc : ScopeState V) → Step sc (stop_reconcile_worker sc)
    workers_stopped : (sc : ScopeState V) → Step sc (stop_scope_workers sc).0

  pub data Steps (s : ScopeState V) : ScopeState V → Type 0 where
    here : Steps s s
    next : {t u : ScopeState V} → Steps s t → Step t u → Steps s u

-- The steps that move the generations and the stale flag.
pub data Kind : Type 0 where
  disconnecting resyncing clearing other : Kind

module _ {V Ctx : Type 0} {env : Env V Ctx} where
  unfoldable pub kind : {s t : ScopeState V} → Step env s t → Kind
  kind (disconnected sc) = disconnecting
  kind (resynced g sc) = resyncing
  kind (cleared arm sc) = clearing
  kind _ = other
