-- ===== src/Group/Coordinator/Converged.antt =====
-- What a run of the coordinator comes to.
use lib_systemplane.Prelude.{
  ℕ, ◌-◌, ◌^◌, ◌<◌, ◌≤◌, ◌≡◌, refl, nat_comparable, string_comparable, ltb, if◌then◌else◌, Bool,
  true, false, none, some, List, [], ◌∷◌, String, get, is_empty, All, arith, sym, ◌∙◌, ap, subst,
}
use lib_systemplane.Group.Coordinator.{
  Scope, Applier, ApplierScope, Codec, scope_of, scope_state, all_caught_up, status_of,
  applied_from, applied_rev_of,
}
use lib_systemplane.Group.Coordinator.Runs.{
  System, new_system, stamps, commits, registers, removes, drains, calls, records, Run, begin, next,
}
use lib_systemplane.Group.Coordinator.Slices.{Row, row_caught_up, rows_caught_up, Inv, RowOk}
use lib_systemplane.Group.Coordinator.Views.{rows_of, slice_of, caught_up-rows, rows_empty}
use lib_systemplane.Group.Coordinator.Sections.{drains-Inv, records-Inv}
use lib_systemplane.Group.Coordinator.Publications.{calls-Inv, removes-Inv, stamps-Inv, commits-Inv}
use lib_systemplane.Group.Coordinator.Registrations.{registers-Inv}

ltb_same : (a b : ℕ) → a ≡ b → ltb a b ≡ false
ltb_same a b h = ground arith

ltb_below : (a b c : ℕ) → a ≡ b → b < c → ltb a c ≡ true
ltb_below a b c h lt = ground arith

module _ {V D : Type 0} (codec : Codec V D) where
  new-Inv : (u : String) → Inv (slice_of u (new_system {D = D}))
  unfolding slice_of rows_of scope_of get
  new-Inv u = record {
    core = record {
      room = omega arith;
      ids = omega arith;
      latest = omega arith;
      current = omega arith;
      in_flight = λ k h. cc;
      spent = refl;
      origin = refl;
      desired = refl;
      value = refl;
      rows = tt;
      unseen = λ h. refl;
      untouched = λ h. refl;
      fan = refl;
      batch = λ b h. cc;
      idle = λ a w. tt;
    };
    converged = λ e h. refl;
  }

  Run-Inv : {s : System D} → Run codec s → (u : String) → Inv (slice_of u s)
  Run-Inv begin = new-Inv
  Run-Inv (next r (stamps revision s room)) = stamps-Inv revision s room (Run-Inv r)
  Run-Inv (next r (commits p n s flying rev)) = commits-Inv codec p n s flying rev (Run-Inv r)
  Run-Inv (next r (registers answer fn s room ids)) =
      registers-Inv codec answer fn s room ids (Run-Inv r)
  Run-Inv (next r (removes id s)) = removes-Inv id s (Run-Inv r)
  Run-Inv (next r (drains t s)) = drains-Inv t s (Run-Inv r)
  Run-Inv (next r (calls t b d rest f s q e)) = calls-Inv t b d rest f s q e (Run-Inv r)
  Run-Inv (next r (records t b s q e)) = records-Inv t b s q (Run-Inv r)

  -- The applier has been offered the scope's current observation.
  abbrev pub UpToDate : String → System D → Applier D → Type 0
  UpToDate t s a = (scope_state t a).delivered_seq ≡ (scope_of t s.state).current.seq

  -- An applier that has accepted the newest observation.
  accepted_newest :
      (log : ℕ → ℕ) (newest limit latest desired : ℕ) (r : Row D)
      → RowOk log newest limit r
      → newest ≤ latest
      → desired ≡ log latest
      → row_caught_up latest r ≡ true
      → (st : ApplierScope D) × (r.1 ≡ some st)
        × (st.accepted_seq ≡ latest)
        × (st.applied_rev ≡ desired)
  unfolding row_caught_up
  accepted_newest log newest limit latest desired (id, none) good le e up = cc
  accepted_newest log newest limit latest desired (id, some st) good le e up =
      let same : st.accepted_seq ≡ latest = ground (arith, good.seen, good.offered) in
      (st, refl, same, good.revised ∙ ap log same ∙ sym e)

  applied_step :
      (t : String) (oldest rev : ℕ) (a : Applier D) (rest : List (Applier D)) (st : ApplierScope D)
      (less : Bool)
      → get t a.state ≡ some st
      → ltb st.accepted_seq oldest ≡ less
      → applied_from t oldest rev (a ∷ rest)
        ≡ applied_from t
            (if less then st.accepted_seq else oldest)
            (if less then st.applied_rev else rev)
            rest
  unfolding applied_from
  applied_step t oldest rev a rest st less there e = rw (there, applied_from) (rw e refl)

  applied_on :
      (t : String) (log : ℕ → ℕ) (newest limit latest desired : ℕ) (l : List (Applier D))
      → All (RowOk log newest limit) (rows_of t l)
      → newest ≤ latest
      → desired ≡ log latest
      → rows_caught_up latest (rows_of t l) ≡ true
      → applied_from t latest desired l ≡ desired
  unfolding rows_of rows_caught_up
  applied_on t log newest limit latest desired [] good le e up = unfold applied_from in refl
  applied_on t log newest limit latest desired (a ∷ rest) good le e up =
      let (st, there, seq, rev) =
        accepted_newest log newest limit latest desired (a.id, get t a.state) good.0 le e
          (ground arith) in
      let ih = applied_on t log newest limit latest desired rest good.1 le e (ground arith) in
      applied_step t latest desired a rest st false there (ltb_same st.accepted_seq latest seq) ∙ ih

  applied_first :
      (t : String) (log : ℕ → ℕ) (newest limit latest desired oldest : ℕ) (l : List (Applier D))
      → is_empty l ≡ false
      → latest < oldest
      → All (RowOk log newest limit) (rows_of t l)
      → newest ≤ latest
      → desired ≡ log latest
      → rows_caught_up latest (rows_of t l) ≡ true
      → applied_from t oldest 0 l ≡ desired
  unfolding rows_of rows_caught_up
  applied_first t log newest limit latest desired oldest [] some_one lt good le e up = cc
  applied_first t log newest limit latest desired oldest (a ∷ rest) some_one lt good le e up =
      let (st, there, seq, rev) =
        accepted_newest log newest limit latest desired (a.id, get t a.state) good.0 le e
          (ground arith) in
      let on = applied_on t log newest limit latest desired rest good.1 le e (ground arith) in
      applied_step t oldest 0 a rest st true there (ltb_below st.accepted_seq latest oldest seq lt)
      ∙ ap (λ n. applied_from t n st.applied_rev rest) seq
      ∙ ap (λ n. applied_from t latest n rest) rev
      ∙ on

  abbrev Truthful : String → List (Applier D) → Scope D → Type 0
  Truthful t l sc =
      all_caught_up t sc.latest_seq l ≡ true
      → (applied_rev_of t sc l ≡ sc.desired) × (sc.last_err ≡ none)

  run-Truthful :
      (t : String) {s : System D}
      → Run codec s
      → is_empty s.state.appliers ≡ false
      → Truthful t s.state.appliers (scope_of t s.state)
  unfolding slice_of applied_rev_of
  run-Truthful t {s} r appliers up =
      let v = Run-Inv r t in
      let c = v.core in
      let sc = scope_of t s.state in
      let rows_up : rows_caught_up sc.latest_seq (rows_of t s.state.appliers) ≡ true =
        sym (caught_up-rows t sc.latest_seq s.state.appliers) ∙ up in
      (
        rw appliers (
            applied_first t s.revision_at sc.current.seq s.state.next_id sc.latest_seq sc.desired
              (2 ^ 64 - 1) s.state.appliers appliers (omega (arith, c.room, c.latest)) c.rows
              c.current c.desired rows_up),
        v.converged (rows_empty t s.state.appliers ∙ appliers) rows_up,
      )

  -- `Status` tells the truth about convergence: in every run, a scope with an applier whose every
  -- applier has accepted its newest observation reports the published revision as the applied one,
  -- and no error.
  pub converged_status :
      (t : String) {s : System D} (sc : Scope D)
      → Run codec s
      → get t s.state.scopes ≡ some sc
      → is_empty s.state.appliers ≡ false
      → all_caught_up t sc.latest_seq s.state.appliers ≡ true
      → status_of t s.state
        ≡ some (record { desired = sc.desired; applied = sc.desired; last_err = none })
  unfolding status_of
  converged_status t {s} sc r here appliers up =
      let there : scope_of t s.state ≡ sc = unfold scope_of in (rw here refl) in
      let (rev, quiet) =
        subst (λ x. Truthful t s.state.appliers x) there (run-Truthful t r appliers) up in
      rw (here, status_of) (ground (arith, rev, quiet))
