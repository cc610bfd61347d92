-- ===== src/Group/Coordinator/Sections.antt =====
-- Every step of a run keeps the invariant of every scope's slice.
use lib_systemplane.Prelude.{
  ℕ, ◌≡◌, refl, ◌==◌, nat_comparable, string_comparable, if◌then◌else◌, Bool, true, false, ◌&&◌,
  not, some, List, [], ◌∷◌, String, GoMap, get, put, del, is_empty, get-put, get-put_self, get-del,
  get-del_self, eq→≡, arith, eq_refl, ◌∙◌, subst, Bool-cases, inl, inr,
}
use lib_systemplane.Group.Coordinator.{
  Delivery, scope_of, put_scope, pending, record_each, clear_err_if_converged, next_round, drain,
  drain_on, record_locked,
}
use lib_systemplane.Group.Coordinator.Runs.{Batch, System, begin_round, drain_step, record_step}
use lib_systemplane.Group.Coordinator.Slices.{Slice, record_rows, Inv}
use lib_systemplane.Group.Coordinator.Outcomes.{clear_rows}
use lib_systemplane.Group.Coordinator.Rounds.{
  round_slice, round_batch, round-Inv, record-Inv, call_rows,
}
use lib_systemplane.Group.Coordinator.Calls.{settled}
use lib_systemplane.Group.Coordinator.Views.{
  rows_of, slice_of, scope_of-put_scope, rows-pending, rows-pending_other, calls-pending, err_after,
  scope-record_each, rows-record_each, rows-record_each_other, clear-rows,
}

module _ {D : Type 0} where
  unrelated :
      (t : String) (s u : System D)
      → slice_of t u ≡ slice_of t s
      → Inv (slice_of t s)
      → Inv (slice_of t u)
  unrelated t s u e v = rw e v

  round_of :
      (seen limit : ℕ) (t : String) (ds : List (Delivery D)) (m : GoMap String (Batch D))
      → get t (
          if is_empty ds
          then del t m
          else put t (record { seen = seen; limit = limit; todo = ds; finished = [] }) m)
        ≡ round_batch seen limit ds
  unfolding round_batch
  round_of seen limit t [] m = get-del_self t m
  round_of seen limit t (d ∷ ds) m = get-put_self t _ m

  round_other :
      (seen limit : ℕ) (t u : String) (ds : List (Delivery D)) (m : GoMap String (Batch D))
      → (t == u) ≡ false
      → get u (
          if is_empty ds
          then del t m
          else put t (record { seen = seen; limit = limit; todo = ds; finished = [] }) m)
        ≡ get u m
  round_other seen limit t u [] m h = get-del t u m ∙ rw h refl
  round_other seen limit t u (d ∷ ds) m h = get-put t u _ m ∙ rw h refl

  -- The slice of the scope whose round begins, and of the others.
  slice-round :
      (t : String) (s : System D)
      → slice_of t (begin_round t (next_round t s.state) s) ≡ round_slice (slice_of t s)
  unfolding slice_of begin_round next_round round_slice
  slice-round t s =
      let sc = scope_of t s.state in
      let ds = (pending t sc.current s.state.appliers).1 in
      let sc' = record sc { delivering = not (is_empty ds) } in
      let c = record (s.state) { appliers = (pending t sc.current s.state.appliers).0 } in
      rw
        (
          scope_of-put_scope t t sc' c,
          eq_refl t,
          rows-pending t sc.current s.state.appliers,
          calls-pending t sc.current s.state.appliers,
          round_of sc.current.seq s.state.next_id t
              (call_rows sc.current (rows_of t s.state.appliers)) s.batches,
        )
        refl

  slice-round_other :
      (t u : String) (s : System D)
      → (t == u) ≡ false
      → slice_of u (begin_round t (next_round t s.state) s) ≡ slice_of u s
  unfolding slice_of begin_round next_round
  slice-round_other t u s h =
      let sc = scope_of t s.state in
      let ds = (pending t sc.current s.state.appliers).1 in
      let sc' = record sc { delivering = not (is_empty ds) } in
      let c = record (s.state) { appliers = (pending t sc.current s.state.appliers).0 } in
      rw
        (
          scope_of-put_scope t u sc' c,
          h,
          rows-pending_other t u sc.current s.state.appliers h,
          round_other (scope_of t (put_scope t sc' c)).current.seq s.state.next_id t u ds s.batches
              h,
        )
        refl

  -- A step of the scope `t` keeps the invariant everywhere if it does so there, and moves nothing
  -- elsewhere.
  pub everywhere :
      (t : String) (s x : System D)
      → ((u : String) → (t == u) ≡ false → slice_of u x ≡ slice_of u s)
      → Inv (slice_of t x)
      → ((u : String) → Inv (slice_of u s))
      → (u : String) → Inv (slice_of u x)
  everywhere t s x frame here all u = elim (Bool-cases (t == u)) [
    | inl same ↦ subst (λ k. Inv (slice_of k x)) (eq→≡ t u same) here
    | inr other ↦ rw (frame u other) (all u)
  ]

  drained_there :
      (t u : String) (s : System D) → (t == u) ≡ false → (not (u == t) && s.owed u) ≡ s.owed u
  drained_there t u s h =
      ground (arith, string_comparable.equal_iff t u, string_comparable.equal_iff u t)

  abbrev settled_system : String → System D → System D
  settled_system t s = record s { owed = λ u. not (u == t) && s.owed u }

  slice-settled :
      (t : String) (s : System D)
      → slice_of t (settled_system t s) ≡ record (slice_of t s) { owed = false }
  unfolding slice_of
  slice-settled t s = rw (eq_refl t) refl

  slice-settled_other :
      (t u : String) (s : System D)
      → (t == u) ≡ false
      → slice_of u (settled_system t s) ≡ slice_of u s
  unfolding slice_of
  slice-settled_other t u s h = rw (drained_there t u s h) refl

  drain_busy :
      (t : String) (s : System D)
      → (scope_of t s.state).delivering ≡ true
      → drain_step t s ≡ settled_system t s
  unfolding drain_step
  drain_busy t s on = ground arith

  drain_free :
      (t : String) (s : System D)
      → (scope_of t s.state).delivering ≡ false
      → drain_step t s ≡ begin_round t (next_round t s.state) (settled_system t s)
  unfolding drain_step drain
  drain_free t s off = ground arith

  round_owed :
      (s : Slice D) (w : Bool)
      → round_slice (record s { owed = w }) ≡ record (round_slice s) { owed = w }
  unfolding round_slice
  round_owed s w = refl

  pub drains-Inv :
      (t : String) (s : System D)
      → ((u : String) → Inv (slice_of u s))
      → (u : String) → Inv (slice_of u (drain_step t s))
  drains-Inv t s all = elim (Bool-cases (scope_of t s.state).delivering) [
    | inl on ↦ rw (drain_busy t s on) (
        everywhere t s (settled_system t s) (λ u h. slice-settled_other t u s h)
          (rw (slice-settled t s) (settled (slice_of t s) (unfold slice_of in on) (all t))) all)
    | inr off ↦ rw (drain_free t s off) (
        everywhere t s (begin_round t (next_round t s.state) (settled_system t s))
          (λ u h. slice-round_other t u (settled_system t s) h ∙ slice-settled_other t u s h)
          (rw
            (slice-round t (settled_system t s), slice-settled t s, round_owed (slice_of t s) false)
            (round-Inv false (slice_of t s) (all t)))
          all)
  ]

  abbrev recorded_system : String → Batch D → System D → System D
  recorded_system t b s = record s { state = record_locked t b.finished s.state }

  slice-recorded :
      (t : String) (b : Batch D) (s : System D)
      → slice_of t (recorded_system t b s) ≡ record (slice_of t s) {
        scope =
            clear_rows
              (record_rows b.finished (rows_of t s.state.appliers))
              (record (scope_of t s.state) {
                last_err = err_after b.finished (scope_of t s.state).last_err;
              });
        rows = record_rows b.finished (rows_of t s.state.appliers);
      }
  unfolding slice_of record_locked
  slice-recorded t b s =
      let sc = scope_of t s.state in
      let l = (record_each t b.finished (s.state.appliers, sc)).0 in
      let sc' = (record_each t b.finished (s.state.appliers, sc)).1 in
      rw
        (
          scope_of-put_scope t t (clear_err_if_converged t l sc')
              (record (s.state) { appliers = l }),
          eq_refl t,
          clear-rows t l sc',
          rows-record_each t b.finished s.state.appliers sc,
          scope-record_each t b.finished s.state.appliers sc,
        )
        refl

  slice-recorded_other :
      (t u : String) (b : Batch D) (s : System D)
      → (t == u) ≡ false
      → slice_of u (recorded_system t b s) ≡ slice_of u s
  unfolding slice_of record_locked
  slice-recorded_other t u b s h =
      let sc = scope_of t s.state in
      let l = (record_each t b.finished (s.state.appliers, sc)).0 in
      let sc' = (record_each t b.finished (s.state.appliers, sc)).1 in
      rw
        (
          scope_of-put_scope t u (clear_err_if_converged t l sc')
              (record (s.state) { appliers = l }),
          h,
          rows-record_each_other t u b.finished s.state.appliers sc h,
        )
        refl

  record_then_round :
      (t : String) (b : Batch D) (s : System D)
      → record_step t b s
        ≡ begin_round t (next_round t (recorded_system t b s).state) (recorded_system t b s)
  unfolding record_step drain_on begin_round
  record_then_round t b s = refl

  pub records-Inv :
      (t : String) (b : Batch D) (s : System D)
      → get t s.batches ≡ some b
      → ((u : String) → Inv (slice_of u s))
      → (u : String) → Inv (slice_of u (record_step t b s))
  records-Inv t b s q all = rw (record_then_round t b s) (
      everywhere t s _
        (λ u h. slice-round_other t u (recorded_system t b s) h ∙ slice-recorded_other t u b s h)
        (rw (slice-round t (recorded_system t b s), slice-recorded t b s)
          (unfold slice_of in
            (record-Inv (slice_of t s) b (err_after b.finished (scope_of t s.state).last_err) q
              (all t))))
        all)
