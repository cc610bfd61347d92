-- ===== src/Engine/Steps/Freshness.antt =====
-- The generations: a reconcile that a later disconnect or resync has overtaken.
use lib_systemplane.Prelude.{
  ℕ, ◌≡◌, refl, ap, ◌∙◌, nat_comparable, string_comparable, Bool, true, false, arith,
}
use lib_systemplane.Engine.State.{Env, ScopeState}
use lib_systemplane.Engine.Windows.{
  record_key, close_window, clear_stale, arm_reconcile, take_reconcile, finish_first_reconcile,
}
use lib_systemplane.Engine.Scope.{
  begin_retry, end_retry, begin_refresh, end_refresh, stop_reconcile_worker, mark_stale,
  mark_unconfirmed, mark_confirmed, bump_deletes,
}
use lib_systemplane.Engine.Dispatch.{stop_scope_workers}
use lib_systemplane.Engine.Publish.Echo.{publish-frame}
use lib_systemplane.Engine.Steps.{Kind, disconnecting, resyncing, clearing}
use lib_systemplane.Engine.Steps.Stable.{Stable}

abbrev pub not_disconnecting : Kind → Bool
not_disconnecting disconnecting = false
not_disconnecting _ = true

abbrev pub not_resyncing : Kind → Bool
not_resyncing resyncing = false
not_resyncing _ = true

abbrev pub not_clearing : Kind → Bool
not_clearing clearing = false
not_clearing _ = true

module _ {V Ctx : Type 0} (env : Env V Ctx) where
  pub disconnect_gen_stable :
      (n : ℕ) → Stable env not_disconnecting (λ (sc : ScopeState V). sc.disconnect_gen ≡ n)
  unfolding record_key bump_deletes mark_unconfirmed mark_confirmed clear_stale close_window
      arm_reconcile take_reconcile finish_first_reconcile begin_retry end_retry begin_refresh
      end_refresh stop_reconcile_worker stop_scope_workers
  disconnect_gen_stable n = record {
    recorded = λ nk u sc h. h;
    published = λ g p sc c h. ap (λ s. s.disconnect_gen) (publish-frame env g p sc) ∙ h;
    bumped = λ nk sc h. h;
    unconfirmed = λ nk sc h. h;
    confirmed = λ nk sc h. h;
    stale_cleared = λ a arm sc h. ground arith;
    closed = λ arm sc h. h;
    armed = λ a sc h. h;
    taken = λ sc h. ground arith;
    started = λ sc h. h;
    finished = λ e sc h. ground arith;
    went_stale = λ a sc h. cc;
    retry_opened = λ rk sc h. ground arith;
    retry_closed = λ rk sc h. h;
    refresh_opened = λ nk d sc h. ground arith;
    refresh_closed = λ nk sc h. ground arith;
    stopped = λ sc h. h;
    swept = λ sc h. h;
  }

  pub reconcile_gen_stable :
      (n : ℕ) → Stable env not_resyncing (λ (sc : ScopeState V). sc.reconcile_gen ≡ n)
  unfolding record_key bump_deletes mark_unconfirmed mark_confirmed clear_stale close_window
      take_reconcile finish_first_reconcile mark_stale begin_retry end_retry begin_refresh
      end_refresh stop_reconcile_worker stop_scope_workers
  reconcile_gen_stable n = record {
    recorded = λ nk u sc h. h;
    published = λ g p sc c h. ap (λ s. s.reconcile_gen) (publish-frame env g p sc) ∙ h;
    bumped = λ nk sc h. h;
    unconfirmed = λ nk sc h. h;
    confirmed = λ nk sc h. h;
    stale_cleared = λ a arm sc h. ground arith;
    closed = λ arm sc h. h;
    armed = λ a sc h. cc;
    taken = λ sc h. ground arith;
    started = λ sc h. h;
    finished = λ e sc h. ground arith;
    went_stale = λ a sc h. h;
    retry_opened = λ rk sc h. ground arith;
    retry_closed = λ rk sc h. h;
    refresh_opened = λ nk d sc h. ground arith;
    refresh_closed = λ nk sc h. ground arith;
    stopped = λ sc h. h;
    swept = λ sc h. h;
  }

  pub stale_stable : Stable env not_clearing (λ (sc : ScopeState V). sc.stale ≡ true)
  unfolding record_key bump_deletes mark_unconfirmed mark_confirmed close_window arm_reconcile
      take_reconcile finish_first_reconcile mark_stale begin_retry end_retry begin_refresh
      end_refresh stop_reconcile_worker stop_scope_workers
  stale_stable = record {
    recorded = λ nk u sc h. h;
    published = λ g p sc c h. ap (λ s. s.stale) (publish-frame env g p sc) ∙ h;
    bumped = λ nk sc h. h;
    unconfirmed = λ nk sc h. h;
    confirmed = λ nk sc h. h;
    stale_cleared = λ a arm sc h. cc;
    closed = λ arm sc h. h;
    armed = λ a sc h. refl;
    taken = λ sc h. ground arith;
    started = λ sc h. h;
    finished = λ e sc h. ground arith;
    went_stale = λ a sc h. refl;
    retry_opened = λ rk sc h. ground arith;
    retry_closed = λ rk sc h. h;
    refresh_opened = λ nk d sc h. ground arith;
    refresh_closed = λ nk sc h. ground arith;
    stopped = λ sc h. h;
    swept = λ sc h. h;
  }
