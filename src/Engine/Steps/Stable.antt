-- ===== src/Engine/Steps/Stable.antt =====
-- Induction over the steps: a predicate that the primitive operations keep is kept by every
-- section, and so by every interleaving.
use lib_systemplane.Prelude.{
  ◌≡◌, refl, inl, inr, nat_comparable, string_comparable, Bool, true, false, ◌||◌, Option, none,
  some, arith, Result, ok, err, Option-cases, Bool-cases, is_some,
}
use lib_systemplane.Engine.State.{
  NsKey, RetryKey, Scope, Env, Shared, ScopeState, StoreEntry, FeedFence, Arming, Error,
  Publication,
}
use lib_systemplane.Engine.Windows.{
  record_key, superseded, close_window, clear_stale, arm_reconcile, take_reconcile,
  finish_first_reconcile, touched_in, unusable_in,
}
use lib_systemplane.Engine.Scope.{
  record_unconfirmed, begin_retry, end_retry, begin_refresh, end_refresh, stop_reconcile_worker,
  mark_stale, mark_unconfirmed, mark_confirmed, bump_deletes, superseded_by_delete,
  superseded_by_publication, cached,
}
use lib_systemplane.Engine.Dispatch.{stop_scope_workers}
use lib_systemplane.Engine.Publish.{publish}
use lib_systemplane.Engine.Publish.Serves.{Coherent}
use lib_systemplane.Engine.Ingest.{
  ingest_begin, ingest_commit, conclude, prepare, key_of, ingest_default, lookup_key,
}
use lib_systemplane.Engine.Reconcile.{
  apply_snapshot_row, apply_absent_key, apply_prepared, apply_usable_row, apply_unusable_row,
  keeps_cached_value, is_unregistered, on_resync, displace,
}
use lib_systemplane.Engine.Feed.{
  record_feed_delete, record_feed_outcome, publish_absent_delete, publish_delete_in,
  record_notified, delete_result,
}
use lib_systemplane.Engine.Steps.{
  Step, Steps, Kind, disconnecting, resyncing, clearing, kind, here, next, fenced, committed,
  deleted_locally, deleted_by_feed, found_absent, read_failed, gave_up, row_applied,
  absence_applied, cleared, window_closed, resynced, reconcile_taken, first_finished, disconnected,
  retry_begun, retry_ended, refresh_begun, refresh_ended, reconcile_stopped, workers_stopped,
}

module _ {V Ctx : Type 0} (env : Env V Ctx) where
  -- A publication as the ingress makes one: its value is decoded from its bytes, or it has none.
  pub prepare-Coherent :
      (ctx : Ctx) (scope : Scope) (se : StoreEntry) (pregraded : Bool) (p : Publication V)
      → prepare env ctx scope se pregraded ≡ ok p
      → Coherent env p.raw p.value
  unfolding prepare
  prepare-Coherent ctx scope se pregraded p h = ground arith

  -- `allowed` says which of the marked steps the predicate has to survive.
  pub record Stable (allowed : Kind → Bool) (P : ScopeState V → Type 0) : Type 0 where
    pub recorded :
        (nk : NsKey) (usable : Bool) (sc : ScopeState V) → P sc → P (record_key nk usable sc)
    pub published :
        (g : Shared) (p : Publication V) (sc : ScopeState V)
        → Coherent env p.raw p.value
        → P sc
        → P (publish env g p sc).0
    pub bumped : (nk : NsKey) (sc : ScopeState V) → P sc → P (bump_deletes nk sc)
    pub unconfirmed : (nk : NsKey) (sc : ScopeState V) → P sc → P (mark_unconfirmed nk sc)
    pub confirmed : (nk : NsKey) (sc : ScopeState V) → P sc → P (mark_confirmed nk sc)
    pub stale_cleared :
        allowed clearing ≡ true → (arm : Arming) (sc : ScopeState V) → P sc → P (clear_stale arm sc)
    pub closed : (arm : Arming) (sc : ScopeState V) → P sc → P (close_window arm sc)
    pub armed : allowed resyncing ≡ true → (sc : ScopeState V) → P sc → P (arm_reconcile sc).0
    pub taken : (sc : ScopeState V) → P sc → P (take_reconcile sc).0
    pub started : (sc : ScopeState V) → P sc → P (record sc { worker_started = true })
    pub finished : (e : Option Error) (sc : ScopeState V) → P sc → P (finish_first_reconcile e sc)
    pub went_stale : allowed disconnecting ≡ true → (sc : ScopeState V) → P sc → P (mark_stale sc)
    pub retry_opened : (rk : RetryKey) (sc : ScopeState V) → P sc → P (begin_retry rk sc).0
    pub retry_closed : (rk : RetryKey) (sc : ScopeState V) → P sc → P (end_retry rk sc)
    pub refresh_opened :
        (nk : NsKey) (deleted : Bool) (sc : ScopeState V) → P sc → P (begin_refresh nk deleted sc).0
    pub refresh_closed : (nk : NsKey) (sc : ScopeState V) → P sc → P (end_refresh nk sc).0
    pub stopped : (sc : ScopeState V) → P sc → P (stop_reconcile_worker sc)
    pub swept : (sc : ScopeState V) → P sc → P (stop_scope_workers sc).0

  module _ {allowed : Kind → Bool} {P : ScopeState V → Type 0} (st : Stable allowed P) where
    conclude_stable :
        (nk : NsKey) (pregraded : Bool) (r : ScopeState V × Result Error Bool)
        → P r.0
        → P (conclude nk pregraded r).0
    unfolding conclude
    conclude_stable nk pregraded (sc, ok n) h = st.recorded nk true sc h
    conclude_stable nk pregraded (sc, err e) h = st.recorded nk false sc h

    commit_stable :
        (g : Shared) (nk : NsKey) (r : Result Error (Publication V)) (fence : FeedFence)
        (pregraded : Bool) (sc : ScopeState V)
        → ((p : Publication V) → r ≡ ok p → Coherent env p.raw p.value)
        → P sc
        → P (ingest_commit env g nk r fence pregraded sc).0
    unfolding ingest_commit
    commit_stable g nk (err e) fence pregraded sc c h = st.recorded nk false sc h
    commit_stable g nk (ok p) fence pregraded sc c h =
        elim (Bool-cases (superseded_by_delete nk fence sc)) [
          | inl over ↦ rw over (st.recorded nk false sc h)
          | inr free ↦ rw free (conclude_stable nk pregraded _ (st.published g p sc (c p refl) h))
        ]

    pub default_stable :
        (g : Shared) (nk : NsKey) (deleted : Bool) (sc : ScopeState V)
        → P sc
        → P (ingest_default env g nk deleted sc).0
    unfolding ingest_default
    default_stable g nk deleted sc h = elim (Option-cases (lookup_key env nk)) [
      | inl e ↦ rw (e, ingest_default) h
      | inr (def, e) ↦ rw (e, ingest_default) (st.published g _ sc (λ h. cc) h)
    ]

    notified_stable :
        (nk : NsKey) (r : ScopeState V × Result Error Bool) → P r.0 → P (record_notified nk r)
    unfolding record_notified
    notified_stable nk (sc, ok true) h = st.recorded nk true sc h
    notified_stable nk (sc, ok false) h = h
    notified_stable nk (sc, err e) h = h

    deleted_stable :
        (nk : NsKey) (r : ScopeState V × Result Error Bool) → P r.0 → P (delete_result nk r).0
    unfolding delete_result
    deleted_stable nk (sc, ok true) h = st.recorded nk true sc h
    deleted_stable nk (sc, ok false) h = h
    deleted_stable nk (sc, err e) h = h

    absent_stable :
        (g : Shared) (nk : NsKey) (fence : FeedFence) (sc : ScopeState V)
        → P sc
        → P (publish_absent_delete env g nk fence sc)
    unfolding publish_absent_delete
    absent_stable g nk fence sc h = elim (Bool-cases (superseded_by_publication nk fence sc)) [
      | inl over ↦ rw over h
      | inr free ↦ rw free (notified_stable nk _ (default_stable g nk false sc h))
    ]

    unusable_stable :
        (g : Shared) (nk : NsKey) (e : Error) (sc : ScopeState V)
        → P sc
        → P (apply_unusable_row env g nk e sc)
    unfolding apply_unusable_row
    unusable_stable g nk e sc h = elim (Bool-cases (is_unregistered e || is_some (cached nk sc))) [
      | inl keep ↦ rw keep h
      | inr lost ↦ rw lost (default_stable g nk false sc h)
    ]

    usable_stable :
        (g : Shared) (arm : Arming) (p : Publication V) (nk : NsKey) (sc : ScopeState V)
        → Coherent env p.raw p.value
        → P sc
        → P (apply_usable_row env g arm p nk sc)
    unfolding apply_usable_row
    usable_stable g arm p nk sc c h =
        elim (Bool-cases (unusable_in arm.window nk (publish env g p sc).0.windows)) [
          | inl u ↦ rw u (st.unconfirmed nk _ (st.published g p sc c h))
          | inr u ↦ rw u (st.published g p sc c h)
        ]

    prepared_stable :
        (g : Shared) (arm : Arming) (nk : NsKey) (r : Result Error (Publication V))
        (sc : ScopeState V)
        → ((p : Publication V) → r ≡ ok p → Coherent env p.raw p.value)
        → P sc
        → P (apply_prepared env g arm nk r sc)
    unfolding apply_prepared
    prepared_stable g arm nk (ok p) sc c h = usable_stable g arm p nk sc (c p refl) h
    prepared_stable g arm nk (err e) sc c h = unusable_stable g nk e sc h

    row_stable :
        (g : Shared) (arm : Arming) (se : StoreEntry) (sc : ScopeState V)
        → P sc
        → P (apply_snapshot_row env g arm se sc).0
    unfolding apply_snapshot_row
    row_stable g arm se sc h = elim (Bool-cases (superseded arm sc)) [
      | inl over ↦ rw over h
      | inr live ↦ rw live (elim (Bool-cases (touched_in arm.window (key_of se) sc.windows)) [
        | inl t ↦ rw t h
        | inr t ↦ rw t (prepared_stable g arm (key_of se) _ sc (prepare-Coherent _ _ se false) h)
      ])
    ]

    absence_stable :
        (g : Shared) (arm : Arming) (nk : NsKey) (sc : ScopeState V)
        → P sc
        → P (apply_absent_key env g arm nk sc).0
    unfolding apply_absent_key
    absence_stable g arm nk sc h = elim (Bool-cases (superseded arm sc)) [
      | inl over ↦ rw over h
      | inr live ↦ rw live (elim (Bool-cases (keeps_cached_value env arm nk sc).0) [
        | inl keep ↦ rw keep (elim (Bool-cases (keeps_cached_value env arm nk sc).1) [
          | inl agreed ↦ rw agreed (st.confirmed nk sc h)
          | inr differs ↦ rw differs h
        ])
        | inr lost ↦ rw lost (default_stable g nk false sc h)
      ])
    ]

    displace_stable : (r : ScopeState V × Option Arming) → P r.0 → P (displace r)
    unfolding displace
    displace_stable (sc, none) h = h
    displace_stable (sc, some arm) h = st.closed arm sc h

    resync_stable :
        allowed resyncing ≡ true → (g : Shared) (sc : ScopeState V) → P sc → P (on_resync g sc)
    unfolding on_resync
    resync_stable a g sc h = elim (Bool-cases g.workers_closed) [
      | inl down ↦ rw down (displace_stable _ (st.taken _ (displace_stable _ (st.armed a sc h))))
      | inr up ↦ rw up (st.started _ (displace_stable _ (st.armed a sc h)))
    ]

    give_up_stable :
        (nk : NsKey) (fence : FeedFence) (sc : ScopeState V)
        → P sc
        → P (record_unconfirmed nk fence sc)
    unfolding record_unconfirmed
    give_up_stable nk fence sc h = elim (Bool-cases (superseded_by_publication nk fence sc)) [
      | inl over ↦ rw over h
      | inr free ↦ rw free (st.unconfirmed nk sc h)
    ]

    -- Every step keeps a stable predicate.
    pub Step-Stable : {s t : ScopeState V} (x : Step env s t) → allowed (kind x) ≡ true → P s → P t
    unfolding kind ingest_begin record_feed_delete record_feed_outcome publish_delete_in
    Step-Stable (fenced nk sc) a h = st.recorded nk false sc h
    Step-Stable (committed g ctx se fence pregraded sc) a h =
        commit_stable g (key_of se) _ fence pregraded sc
          (prepare-Coherent ctx sc.scope se pregraded) h
    Step-Stable (deleted_locally g nk sc) a h = deleted_stable nk _ (default_stable g nk true sc h)
    Step-Stable (deleted_by_feed nk sc) a h = st.bumped nk _ (st.recorded nk true sc h)
    Step-Stable (found_absent g nk fence sc) a h = absent_stable g nk fence sc h
    Step-Stable (read_failed true nk sc) a h = st.recorded nk false sc h
    Step-Stable (read_failed false nk sc) a h = h
    Step-Stable (gave_up nk fence sc) a h = give_up_stable nk fence sc h
    Step-Stable (row_applied g arm se sc) a h = row_stable g arm se sc h
    Step-Stable (absence_applied g arm nk sc) a h = absence_stable g arm nk sc h
    Step-Stable (cleared arm sc) a h = st.stale_cleared a arm sc h
    Step-Stable (window_closed arm sc) a h = st.closed arm sc h
    Step-Stable (resynced g sc) a h = resync_stable a g sc h
    Step-Stable (reconcile_taken sc) a h = st.taken sc h
    Step-Stable (first_finished e sc) a h = st.finished e sc h
    Step-Stable (disconnected sc) a h = st.went_stale a sc h
    Step-Stable (retry_begun rk sc) a h = st.retry_opened rk sc h
    Step-Stable (retry_ended rk sc) a h = st.retry_closed rk sc h
    Step-Stable (refresh_begun nk deleted sc) a h = st.refresh_opened nk deleted sc h
    Step-Stable (refresh_ended nk sc) a h = st.refresh_closed nk sc h
    Step-Stable (reconcile_stopped sc) a h = st.stopped sc h
    Step-Stable (workers_stopped sc) a h = st.swept sc h

    -- So does a run of steps, where the predicate survives all kinds.
    pub Steps-Stable :
        ((k : Kind) → allowed k ≡ true) → {s t : ScopeState V} → Steps env s t → P s → P t
    Steps-Stable all here h = h
    Steps-Stable all (next r x) h = Step-Stable x (all (kind x)) (Steps-Stable all r h)
