-- ===== src/Group/Coordinator/Publications.antt =====
-- Calls, removals, publications and registrations keep the invariant of every scope's slice.
use lib_systemplane.Prelude.{
  ℕ, ◌+◌, ◌^◌, ◌<◌, ◌≡◌, refl, ◌==◌, nat_comparable, string_comparable, inc64, true, false, ◌||◌,
  ◌&&◌, not, Option, none, some, List, [], ◌∷◌, ◌++◌, String, get, get-put, get-put_self, eq→≡,
  arith, eq_refl, ap, subst, Bool-cases, inl, inr,
}
use lib_systemplane.Group.Coordinator.{
  Failure, Publication, Delivery, Outcome, Coordinator, Codec, scope_of, put_scope, has_applier,
  drop_applier, commit_scope, commit, remove, deliver, stamp,
}
use lib_systemplane.Group.Coordinator.Runs.{
  Batch, System, at_key, stamp_step, call_step, remove_step, commit_step,
}
use lib_systemplane.Group.Coordinator.Slices.{Inv}
use lib_systemplane.Group.Coordinator.Steps.{stamped_on, commit_slice, commit-Inv, disarmed}
use lib_systemplane.Group.Coordinator.Outcomes.{clear_rows, drop_row, remove-Inv, inc64_small}
use lib_systemplane.Group.Coordinator.Calls.{call-Inv}
use lib_systemplane.Group.Coordinator.Views.{
  rows_of, slice_of, scope_of-put_scope, rows-drop_applier, get-clear_all,
}
use lib_systemplane.Group.Coordinator.Sections.{everywhere}

pub old_key : (n v k : ℕ) (log : ℕ → ℕ) → k < n → at_key n v log k ≡ log k
unfolding at_key
old_key n v k log h = ground arith

module _ {D : Type 0} where
  deliver_outcome :
      (d : Delivery D) (f : Option Failure) (c : Coordinator D)
      → deliver d f c ≡ (d, (deliver d f c).1)
  unfolding deliver
  deliver_outcome d none c = refl
  deliver_outcome d (some f) c = refl

  called_slice :
      (t : String) (b : Batch D) (d : Delivery D) (rest : List (Delivery D)) (f : Option Failure)
      (s : System D)
      → slice_of t (call_step t b d rest f s) ≡ record (slice_of t s) {
        batch =
            some (record b {
              todo = rest;
              finished = b.finished ++ (d, (deliver d f s.state).1) ∷ [];
            });
      }
  unfolding slice_of call_step
  called_slice t b d rest f s =
      rw
        (get-put_self t
          (record b { todo = rest; finished = b.finished ++ deliver d f s.state ∷ [] }) s.batches)
        (ap
          (λ (x : Delivery D × Outcome). record (slice_of t s) {
            batch = some (record b { todo = rest; finished = b.finished ++ x ∷ [] });
          })
          (deliver_outcome d f s.state))

  pub calls-Inv :
      (t : String) (b : Batch D) (d : Delivery D) (rest : List (Delivery D)) (f : Option Failure)
      (s : System D)
      → get t s.batches ≡ some b
      → b.todo ≡ d ∷ rest
      → ((u : String) → Inv (slice_of u s))
      → (u : String) → Inv (slice_of u (call_step t b d rest f s))
  calls-Inv t b d rest f s q e all =
      everywhere t s (call_step t b d rest f s)
        (λ u h.
          unfold slice_of call_step in
          rw
            (
              get-put t u
                  (record b { todo = rest; finished = b.finished ++ deliver d f s.state ∷ [] })
                  s.batches,
              h,
            )
            refl)
        (rw (called_slice t b d rest f s) (
          call-Inv (slice_of t s) b d rest (deliver d f s.state).1 (unfold slice_of in q) e
            (all t)))
        all

  removed_slice :
      (t : String) (id : ℕ) (s : System D)
      → has_applier id s.state.appliers ≡ true
      → slice_of t (remove_step id s) ≡ record (slice_of t s) {
        scope = clear_rows (drop_row id (rows_of t s.state.appliers)) (scope_of t s.state);
        rows = drop_row id (rows_of t s.state.appliers);
      }
  unfolding slice_of remove_step remove scope_of
  removed_slice t id s h =
      rw
        (
          h,
          rows-drop_applier t id s.state.appliers,
          get-clear_all t (drop_applier id s.state.appliers) s.state.scopes,
        )
        (rw (rows-drop_applier t id s.state.appliers) refl)

  removed_none :
      (id : ℕ) (s : System D) → has_applier id s.state.appliers ≡ false → remove_step id s ≡ s
  unfolding remove_step remove
  removed_none id s h = rw h refl

  pub removes-Inv :
      (id : ℕ) (s : System D)
      → ((u : String) → Inv (slice_of u s))
      → (u : String) → Inv (slice_of u (remove_step id s))
  removes-Inv id s all u = elim (Bool-cases (has_applier id s.state.appliers)) [
    | inl there ↦
        rw (removed_slice u id s there) (unfold slice_of in (remove-Inv id (slice_of u s) (all u)))
    | inr gone ↦ rw (removed_none id s gone) (all u)
  ]

  pub stamps-Inv :
      (revision : ℕ) (s : System D)
      → s.state.seq + 2 < 2 ^ 64
      → ((u : String) → Inv (slice_of u s))
      → (u : String) → Inv (slice_of u (stamp_step revision s))
  unfolding slice_of stamp_step stamp
  stamps-Inv revision s room all u =
      let more = inc64_small s.state.seq room in
      let n = inc64 s.state.seq in
      let c = (all u).core in
      stamped_on (slice_of u s) n (at_key n revision s.revision_at) (λ k. k == n || s.stamped k)
        (omega (arith, more)) (omega (arith, more))
        (λ k le. old_key n revision k s.revision_at (omega (arith, more)))
        (λ k h. ground (arith, more, c.in_flight k)) (ground (arith, more, c.spent, c.latest))
        (all u)

module _ {V D : Type 0} (codec : Codec V D) where
  committed_slice :
      (p : Publication V) (n : ℕ) (s : System D)
      → slice_of p.tenant (commit_step codec p n s) ≡ commit_slice codec p n (slice_of p.tenant s)
  unfolding slice_of commit_step commit commit_slice put_scope
  committed_slice p n s =
      rw
        (
          scope_of-put_scope p.tenant p.tenant
              (commit_scope codec p n (scope_of p.tenant s.state)).0 s.state,
          eq_refl p.tenant,
        )
        refl

  committed_other :
      (p : Publication V) (n : ℕ) (u : String) (s : System D)
      → (p.tenant == u) ≡ false
      → slice_of u (commit_step codec p n s)
        ≡ record (slice_of u s) { stamped = λ k. not (k == n) && s.stamped k }
  unfolding slice_of commit_step commit put_scope
  committed_other p n u s h =
      let turned : (u == p.tenant) ≡ false =
        ground
          (arith, string_comparable.equal_iff p.tenant u, string_comparable.equal_iff u p.tenant) in
      rw
        (
          scope_of-put_scope p.tenant u (commit_scope codec p n (scope_of p.tenant s.state)).0
              s.state,
          h,
          turned,
        )
        refl

  pub commits-Inv :
      (p : Publication V) (n : ℕ) (s : System D)
      → s.stamped n ≡ true
      → s.revision_at n ≡ p.revision
      → ((u : String) → Inv (slice_of u s))
      → (u : String) → Inv (slice_of u (commit_step codec p n s))
  commits-Inv p n s flying rev all u = elim (Bool-cases (p.tenant == u)) [
    | inl same ↦
        subst (λ k. Inv (slice_of k (commit_step codec p n s))) (eq→≡ p.tenant u same)
          (rw (committed_slice p n s) (
            commit-Inv codec p n (slice_of p.tenant s) (unfold slice_of in flying)
              (unfold slice_of in rev) (all p.tenant)))
    | inr other ↦ rw (committed_other p n u s other) (
        disarmed (slice_of u s) (slice_of u s).scope.seed_armed (λ k. not (k == n) && s.stamped k)
          (λ k h. unfold slice_of in (ground arith))
          (let spent = (all u).core.spent in unfold slice_of in (ground (arith, spent))) (all u))
  ]
