-- ===== src/Group/Coordinator/Registrations.antt =====
-- A registration, and the seed that it may take first, keep the invariant of every slice.
use lib_systemplane.Prelude.{
  ℕ, ◌+◌, ◌^◌, ◌<◌, ◌≤◌, ◌≡◌, refl, ◌==◌, nat_comparable, string_comparable, inc64, true, false,
  ◌||◌, none, List, [], ◌∷◌, ◌++◌, String, get, eq→≡, arith, eq_refl, sym, ap, subst, Bool-cases,
  Result, ok, err, ◌⊎◌, inl, inr,
}
use lib_systemplane.Group.Coordinator.{
  Failure, Publication, Scope, Applier, Coordinator, Codec, scope_of, put_scope, add, seed_locked,
  seed_answer, seed_scope, any_observed, observe, observe_undecodable, Seed, unseeded, unreadable,
  seeded, stamp,
}
use lib_systemplane.Group.Coordinator.Runs.{System, at_key, register_step, seed_revision}
use lib_systemplane.Group.Coordinator.Slices.{Slice, Inv}
use lib_systemplane.Group.Coordinator.Steps.{stamped_on, advanced}
use lib_systemplane.Group.Coordinator.Outcomes.{inc64_small}
use lib_systemplane.Group.Coordinator.Calls.{join_slice, join-Inv}
use lib_systemplane.Group.Coordinator.Views.{rows_of, slice_of, scope_of-put_scope}
use lib_systemplane.Group.Coordinator.Publications.{old_key}

module _ {D : Type 0} where
  rows-append :
      (t : String) (l : List (Applier D)) (id fn : ℕ)
      → rows_of t (l ++ record { id = id; fn = fn; state = [] } ∷ [])
        ≡ rows_of t l ++ (id, none) ∷ []
  unfolding rows_of get
  rows-append t [] id fn = refl
  rows-append t (a ∷ rest) id fn = ap (λ r. (a.id, get t a.state) ∷ r) (rows-append t rest id fn)

module _ {V D : Type 0} (codec : Codec V D) where
  abbrev seeded_system : Seed V → System D → System D
  seeded_system answer s = record s {
    state = seed_locked codec answer s.state;
    revision_at = at_key (inc64 s.state.seq) (seed_revision answer) s.revision_at;
  }

  registered_slice :
      (answer : Seed V) (fn : ℕ) (u : String) (s : System D)
      → slice_of u (register_step codec answer fn s)
        ≡ join_slice (slice_of u (seeded_system answer s))
  unfolding slice_of register_step add join_slice scope_of
  registered_slice answer fn u s =
      let c = seed_locked codec answer s.state in
      rw (rows-append u c.appliers (inc64 c.next_id) fn) refl

  -- The scope is as before, and so is the coordinator's sequence number or it is one more.
  passed :
      (u : String) (s : System D) (revision seq : ℕ)
      → s.state.seq + 2 < 2 ^ 64
      → (seq ≡ s.state.seq) ⊎ (seq ≡ s.state.seq + 1)
      → Inv (slice_of u s)
      → Inv (record (slice_of u s) {
        seq = seq;
        log = at_key (inc64 s.state.seq) revision s.revision_at;
      })
  passed u s revision seq room step v =
      let more = inc64_small s.state.seq room in
      let n = inc64 s.state.seq in
      let c = v.core in
      unfold slice_of in
      stamped_on (slice_of u s) seq (at_key n revision s.revision_at) s.stamped
        (ground (arith, step)) (ground (arith, step))
        (λ k le. old_key n revision k s.revision_at (omega (arith, more)))
        (λ k h. ground (arith, step, c.in_flight k)) c.spent v

  seed_scope-Inv :
      (p : Publication V) (r : Result Failure D) (n : ℕ) (sl : Slice D)
      → sl.scope.latest_seq < n
      → n ≤ sl.seq
      → sl.stamped n ≡ false
      → sl.log n ≡ p.revision
      → Inv sl
      → Inv (record sl { scope = seed_scope codec p n r sl.scope; owed = true })
  unfolding seed_scope observe observe_undecodable
  seed_scope-Inv p (ok d) n sl newer known free rev v =
      advanced sl _ sl.stamped true (inl refl) newer known (λ k h. h) free (sym rev)
        (omega (arith, v.core.current)) (omega arith) (sym rev) refl refl v
  seed_scope-Inv p (err f) n sl newer known free rev v =
      advanced sl _ sl.stamped true (inl refl) newer known (λ k h. h) free (sym rev) (omega arith)
        (omega (arith, v.core.current)) v.core.value refl refl v

  seed_cases :
      (answer : Seed V) (c : Coordinator D)
      → (seed_locked codec answer c ≡ c)
        ⊎ ((p : Publication V) × (answer ≡ seeded p)
            × (seed_locked codec answer c
                ≡ put_scope p.tenant
                    (seed_scope codec p (inc64 c.seq) (codec.decode p.value) (scope_of p.tenant c))
                    (record c { seq = inc64 c.seq; seed_taken = true })))
  unfolding seed_locked seed_answer stamp scope_of
  seed_cases unseeded c = inl (ground arith)
  seed_cases (unreadable f) c = inl (ground arith)
  seed_cases (seeded p) c = elim (Bool-cases (c.seed_taken || any_observed c.scopes)) [
    | inl kept ↦ inl (rw kept refl)
    | inr fresh ↦ inr (p, refl, rw fresh refl)
  ]

  unseeded-Inv :
      (answer : Seed V) (u : String) (s : System D)
      → s.state.seq + 2 < 2 ^ 64
      → seed_locked codec answer s.state ≡ s.state
      → Inv (slice_of u s)
      → Inv (slice_of u (seeded_system answer s))
  unfolding slice_of
  unseeded-Inv answer u s room same v =
      rw same (passed u s (seed_revision answer) s.state.seq room (inl refl) v)

  seeded_there : Publication V → System D → System D
  seeded_there p s = record s {
    state =
        put_scope p.tenant
          (seed_scope codec p (inc64 s.state.seq) (codec.decode p.value)
            (scope_of p.tenant s.state))
          (record (s.state) { seq = inc64 s.state.seq; seed_taken = true });
    revision_at = at_key (inc64 s.state.seq) p.revision s.revision_at;
  }

  seeded_there_slice :
      (p : Publication V) (s : System D)
      → slice_of p.tenant (seeded_there p s) ≡ record (slice_of p.tenant s) {
        seq = inc64 s.state.seq;
        log = at_key (inc64 s.state.seq) p.revision s.revision_at;
        scope =
            seed_scope codec p
              (inc64 s.state.seq)
              (codec.decode p.value)
              (scope_of p.tenant s.state);
      }
  unfolding slice_of seeded_there put_scope
  seeded_there_slice p s =
      let sc =
        seed_scope codec p (inc64 s.state.seq) (codec.decode p.value) (scope_of p.tenant s.state) in
      rw
        (
          scope_of-put_scope p.tenant p.tenant sc
              (record (s.state) { seq = inc64 s.state.seq; seed_taken = true }),
          eq_refl p.tenant,
        )
        refl

  seeded_there_other :
      (p : Publication V) (u : String) (s : System D)
      → (p.tenant == u) ≡ false
      → slice_of u (seeded_there p s) ≡ record (slice_of u s) {
        seq = inc64 s.state.seq;
        log = at_key (inc64 s.state.seq) p.revision s.revision_at;
      }
  unfolding slice_of seeded_there put_scope scope_of
  seeded_there_other p u s h =
      let sc =
        seed_scope codec p (inc64 s.state.seq) (codec.decode p.value) (scope_of p.tenant s.state) in
      rw
        (
          scope_of-put_scope p.tenant u sc
              (record (s.state) { seq = inc64 s.state.seq; seed_taken = true }),
          h,
        )
        refl

  seed_observed :
      (p : Publication V) (n : ℕ) (r : Result Failure D) (sc : Scope D)
      → (seed_scope codec p n r sc).observed ≡ true
  unfolding seed_scope observe observe_undecodable
  seed_observed p n (ok d) sc = refl
  seed_observed p n (err f) sc = refl

  join_owed :
      (s : Slice D) → s.scope.observed ≡ true → join_slice (record s { owed = true }) ≡ join_slice s
  unfolding join_slice
  join_owed s h = rw h refl

  seeded-Inv :
      (p : Publication V) (s : System D)
      → s.state.seq + 2 < 2 ^ 64
      → Inv (slice_of p.tenant s)
      → Inv (record (slice_of p.tenant (seeded_there p s)) { owed = true })
  seeded-Inv p s room v =
      let n = inc64 s.state.seq in
      let more = inc64_small s.state.seq room in
      let before = passed p.tenant s p.revision n room (inr more) v in
      rw (seeded_there_slice p s) (
        unfold slice_of at_key in
        (seed_scope-Inv p (codec.decode p.value) n
          (record (slice_of p.tenant s) { seq = n; log = at_key n p.revision s.revision_at })
          (omega (arith, more, v.core.latest)) (omega arith)
          (elim (Bool-cases (s.stamped n)) [
            | inl on ↦ absurd (omega (arith, more, (v.core.in_flight n on).1))
            | inr off ↦ off
          ])
          (ground arith) before))

  joined_there :
      (p : Publication V) (u : String) (s : System D)
      → s.state.seq + 2 < 2 ^ 64
      → s.state.next_id + 2 < 2 ^ 64
      → ((u : String) → Inv (slice_of u s))
      → Inv (join_slice (slice_of u (seeded_there p s)))
  joined_there p u s room ids all = elim (Bool-cases (p.tenant == u)) [
    | inl same ↦
        subst (λ k. Inv (join_slice (slice_of k (seeded_there p s)))) (eq→≡ p.tenant u same)
          (let seen : (slice_of p.tenant (seeded_there p s)).scope.observed ≡ true =
              rw (seeded_there_slice p s) (
                seed_observed p (inc64 s.state.seq) (codec.decode p.value)
                  (scope_of p.tenant s.state)) in
            rw⁻¹ (join_owed (slice_of p.tenant (seeded_there p s)) seen) (
              join-Inv (record (slice_of p.tenant (seeded_there p s)) { owed = true })
                (unfold slice_of seeded_there put_scope in ids)
                (seeded-Inv p s room (all p.tenant))))
    | inr other ↦ rw (seeded_there_other p u s other) (
        join-Inv _ (unfold slice_of in ids) (
          passed u s p.revision (inc64 s.state.seq) room (inr (inc64_small s.state.seq room))
            (all u)))
  ]

  pub registers-Inv :
      (answer : Seed V) (fn : ℕ) (s : System D)
      → s.state.seq + 2 < 2 ^ 64
      → s.state.next_id + 2 < 2 ^ 64
      → ((u : String) → Inv (slice_of u s))
      → (u : String) → Inv (slice_of u (register_step codec answer fn s))
  registers-Inv answer fn s room ids all u = elim (seed_cases answer s.state) [
    | inl same ↦ rw (registered_slice answer fn u s) (
        join-Inv (slice_of u (seeded_system answer s)) (unfold slice_of in rw same ids)
          (unseeded-Inv answer u s room same (all u)))
    | inr (p, was, same) ↦
        let sys : seeded_system answer s ≡ seeded_there p s =
          rw (same, was) (unfold seeded_there seed_revision in refl) in
        rw (registered_slice answer fn u s, sys) (joined_there p u s room ids all)
  ]
