-- ===== src/Group/Coordinator/Steps.antt =====
-- What the sections do to a slice, and that each keeps the invariant.
use lib_systemplane.Prelude.{
  ℕ, ◌+◌, ◌^◌, ◌<◌, ◌≤◌, ◌≡◌, refl, ◌==◌, nat_comparable, string_comparable, ltb, Bool, true, false,
  ◌||◌, ◌&&◌, not, none, some, List, [], ◌∷◌, is_empty, All, arith, sym, ◌∙◌, Bool-cases, Result,
  ok, err, ◌⊎◌, inl, inr,
}
use lib_systemplane.Group.Coordinator.Runs.{decodes}
use lib_systemplane.Group.Coordinator.{
  Failure, Publication, revision_of, Scope, Codec, commit_scope, drops_after_seed, commit_decoded,
  observe, observe_undecodable,
}
use lib_systemplane.Group.Coordinator.Slices.{
  Row, held, Slice, All-mono, row_caught_up, rows_caught_up, RowOk, Inv,
}

module _ {D : Type 0} where
  pub RowOk-mono :
      {log log' : ℕ → ℕ} {newest newest' limit limit' : ℕ} (r : Row D)
      → newest ≤ newest'
      → limit ≤ limit'
      → ((k : ℕ) → k ≤ newest → log' k ≡ log k)
      → RowOk log newest limit r
      → RowOk log' newest' limit' r
  RowOk-mono r a b f h = record {
    known = omega (arith, h.known);
    seen = omega (arith, h.seen);
    offered = h.offered;
    revised = h.revised ∙ sym (f (held r).accepted_seq (omega (arith, h.offered, h.seen)));
  }

  pub not_caught_up :
      (log : ℕ → ℕ) (newest limit latest : ℕ) (rs : List (Row D))
      → All (RowOk log newest limit) rs
      → newest < latest
      → is_empty rs ≡ false
      → rows_caught_up latest rs ≡ false
  unfolding rows_caught_up row_caught_up
  not_caught_up log newest limit latest [] h lt e = cc
  not_caught_up log newest limit latest ((id, none) ∷ rs) h lt e = refl
  not_caught_up log newest limit latest ((id, some st) ∷ rs) h lt e =
      ground (arith, h.0.seen, h.0.offered)

  -- Sequence numbers that other scopes take, or that are stamped but not committed.
  pub stamped_on :
      (s : Slice D) (seq : ℕ) (log : ℕ → ℕ) (stamped : ℕ → Bool)
      → s.seq ≤ seq
      → seq + 1 < 2 ^ 64
      → ((k : ℕ) → k ≤ s.seq → log k ≡ s.log k)
      → ((k : ℕ) → stamped k ≡ true → (0 < k) × (k ≤ seq))
      → stamped s.scope.latest_seq ≡ false
      → Inv s
      → Inv (record s { seq = seq; log = log; stamped = stamped })
  stamped_on s seq log stamped up room same flying spent v =
      let c = v.core in
      let current : s.scope.current.seq ≤ s.seq = omega (arith, c.current, c.latest) in
      record {
        core = record {
          room = room;
          ids = c.ids;
          latest = omega (arith, c.latest);
          current = c.current;
          in_flight = flying;
          spent = spent;
          origin = same 0 (omega arith) ∙ c.origin;
          desired = c.desired ∙ sym (same s.scope.latest_seq c.latest);
          value = c.value ∙ sym (same s.scope.current.seq current);
          rows =
              All-mono
                (λ r h.
                  RowOk-mono r (omega arith) (omega arith) (λ k le. same k (omega (arith, current)))
                    h)
                s.rows c.rows;
          unseen = c.unseen;
          untouched = c.untouched;
          fan = c.fan;
          batch = λ b e.
              let o = c.batch b e in
              record {
                positive = o.positive;
                reached = o.reached;
                bounded = o.bounded;
                marked = o.marked;
                ahead =
                    All-mono
                      (λ d h. (h.0 ∙ sym (same b.seen (omega (arith, o.reached, current))), h.1))
                      b.todo o.ahead;
                behind =
                    All-mono
                      (λ d h. (h.0 ∙ sym (same b.seen (omega (arith, o.reached, current))), h.1))
                      b.finished o.behind;
              };
          idle = c.idle;
        };
        converged = v.converged;
      }

  -- A newer observation of the scope, decoded or not.
  pub advanced :
      (s : Slice D) (sc : Scope D) (stamped : ℕ → Bool) (owed : Bool)
      → (owed ≡ true) ⊎ ((owed ≡ s.owed) × (sc.current.seq ≡ s.scope.current.seq))
      → s.scope.latest_seq < sc.latest_seq
      → sc.latest_seq ≤ s.seq
      → ((k : ℕ) → stamped k ≡ true → s.stamped k ≡ true)
      → stamped sc.latest_seq ≡ false
      → sc.desired ≡ s.log sc.latest_seq
      → s.scope.current.seq ≤ sc.current.seq
      → sc.current.seq ≤ sc.latest_seq
      → revision_of sc.current.value ≡ s.log sc.current.seq
      → sc.observed ≡ true
      → sc.delivering ≡ s.scope.delivering
      → Inv s
      → Inv (record s { scope = sc; stamped = stamped; owed = owed })
  advanced s sc stamped owed drains newer known fewer spent desired on current value seen same v =
      let c = v.core in
      record {
        core = record {
          room = c.room;
          ids = c.ids;
          latest = known;
          current = current;
          in_flight = λ k h. c.in_flight k (fewer k h);
          spent = spent;
          origin = c.origin;
          desired = desired;
          value = value;
          rows = All-mono (λ r h. RowOk-mono r on (omega arith) (λ k le. refl) h) s.rows c.rows;
          unseen = λ h. cc;
          untouched = λ h. absurd (omega (arith));
          fan = same ∙ c.fan;
          batch = λ b e.
              let o = c.batch b e in
              record {
                positive = o.positive;
                reached = omega (arith, o.reached);
                bounded = o.bounded;
                marked = o.marked;
                ahead = o.ahead;
                behind = o.behind;
              };
          idle = λ a b. elim drains [
            | inl more ↦ absurd (let clash : false ≡ true = sym b ∙ more in cc)
            | inr (as_before, stays) ↦
                All-mono (λ r h. h ∙ sym stays) s.rows (c.idle (sym same ∙ a) (sym as_before ∙ b))
          ];
        };
        converged = λ e h.
            let no =
              not_caught_up s.log s.scope.current.seq s.next_id sc.latest_seq s.rows c.rows
                (omega (arith, c.current)) e in
            cc;
      }

  -- The seed's watermark and the numbers in flight are all that changes.
  pub disarmed :
      (s : Slice D) (armed : Bool) (stamped : ℕ → Bool)
      → ((k : ℕ) → stamped k ≡ true → s.stamped k ≡ true)
      → stamped s.scope.latest_seq ≡ false
      → Inv s
      → Inv (record s { scope = record (s.scope) { seed_armed = armed }; stamped = stamped })
  disarmed s armed stamped fewer spent v =
      let c = v.core in
      record {
        core = record {
          room = c.room;
          ids = c.ids;
          latest = c.latest;
          current = c.current;
          in_flight = λ k h. c.in_flight k (fewer k h);
          spent = spent;
          origin = c.origin;
          desired = c.desired;
          value = c.value;
          rows = c.rows;
          unseen = c.unseen;
          untouched = c.untouched;
          fan = c.fan;
          batch = λ b e.
              let o = c.batch b e in
              record {
                positive = o.positive;
                reached = o.reached;
                bounded = o.bounded;
                marked = o.marked;
                ahead = o.ahead;
                behind = o.behind;
              };
          idle = c.idle;
        };
        converged = v.converged;
      }

module _ {V D : Type 0} (codec : Codec V D) (p : Publication V) (n : ℕ) where
  commit_cases :
      (sc : Scope D)
      → ((armed : Bool) × (commit_scope codec p n sc ≡ (record sc { seed_armed = armed }, false)))
        ⊎ ((armed : Bool) × (commit_scope codec p n sc ≡ (
          commit_decoded codec p n (codec.decode p.value) (record sc { seed_armed = armed }),
          true,
        ))
            × (ltb n sc.latest_seq ≡ false))
  unfolding commit_scope drops_after_seed
  commit_cases sc = elim (Bool-cases (ltb n sc.latest_seq)) [
    | inl old ↦ inl (sc.seed_armed, rw old refl)
    | inr new ↦ elim (Bool-cases sc.seed_armed) [
      | inr unarmed ↦ inr (false, ground arith, new)
      | inl armed ↦ elim (Bool-cases (drops_after_seed codec p sc).1) [
        | inl drops ↦ inl (false, ground arith)
        | inr stays ↦ inr (false, ground arith, new)
      ]
    ]
  ]

  unfoldable pub commit_slice : Slice D → Slice D
  commit_slice s = record s {
    scope = (commit_scope codec p n s.scope).0;
    stamped = λ k. not (k == n) && s.stamped k;
    owed = ((commit_scope codec p n s.scope).1 && decodes (codec.decode p.value)) || s.owed;
  }

  still_stamped : (s : Slice D) (k : ℕ) → (not (k == n) && s.stamped k) ≡ true → s.stamped k ≡ true
  still_stamped s k h = ground arith

  pub commit_taken :
      (s : Slice D) (armed : Bool) (r : Result Failure D)
      → s.scope.latest_seq < n
      → n ≤ s.seq
      → s.log n ≡ p.revision
      → Inv s
      → Inv (record s {
        scope = commit_decoded codec p n r (record (s.scope) { seed_armed = armed });
        stamped = λ k. not (k == n) && s.stamped k;
        owed = decodes r || s.owed;
      })
  unfolding commit_decoded observe observe_undecodable
  commit_taken s armed (ok d) newer known rev v =
      advanced s _ (λ k. not (k == n) && s.stamped k) true (inl refl) newer known (still_stamped s)
        (ground arith) (sym rev) (omega (arith, v.core.current)) (omega arith) (sym rev) refl refl v
  commit_taken s armed (err f) newer known rev v =
      advanced s _ (λ k. not (k == n) && s.stamped k) s.owed (inr (refl, refl)) newer known
        (still_stamped s) (ground arith) (sym rev) (omega arith) (omega (arith, v.core.current))
        v.core.value refl refl v

  pub commit-Inv :
      (s : Slice D) → s.stamped n ≡ true → s.log n ≡ p.revision → Inv s → Inv (commit_slice s)
  unfolding commit_slice
  commit-Inv s flying rev v = elim (commit_cases s.scope) [
    | inl (armed, same) ↦ rw same (
        disarmed s armed (λ k. not (k == n) && s.stamped k) (still_stamped s)
          (ground (arith, v.core.spent)) v)
    | inr (armed, same, new) ↦ rw same (
        commit_taken s armed (codec.decode p.value) (ground (arith, v.core.spent))
          (v.core.in_flight n flying).1 rev v)
  ]
