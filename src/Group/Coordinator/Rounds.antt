-- ===== src/Group/Coordinator/Rounds.antt =====
-- The rounds of a fan-out keep the invariant of a slice.
use lib_systemplane.Prelude.{
  ℕ, ◌<◌, ◌≡◌, refl, nat_comparable, string_comparable, ltb, if◌then◌else◌, Bool, true, false, not,
  Option, none, some, List, [], ◌∷◌, is_empty, is_some, All, arith, sym, ◌∙◌, ap, subst, Bool-cases,
  ◌⊎◌, inl, inr,
}
use lib_systemplane.Group.Coordinator.{Failure, revision_of, Observation, Delivery}
use lib_systemplane.Group.Coordinator.Runs.{Batch}
use lib_systemplane.Group.Coordinator.Slices.{
  Row, held, Slice, All-mono, row_offer, offer_rows, record_rows, row_caught_up, rows_caught_up,
  RowOk, CallOk, Marked, Core, Inv,
}
use lib_systemplane.Group.Coordinator.Outcomes.{clear_rows, cleared, record-Good, All-both}

module _ {D : Type 0} where
  -- A round's outcomes, before the fan-out goes on.
  recorded :
      (s : Slice D) (b : Batch D) (e : Option Failure)
      → s.batch ≡ some b
      → Core s
      → Core (record s {
        scope = record (s.scope) { last_err = e };
        rows = record_rows b.finished s.rows;
      })
  recorded s b e q c =
      let o = c.batch b q in
      let good =
        record-Good s.log s.scope.current.seq s.next_id b.seen b.limit b.finished s.rows o.behind (
          All-both (RowOk s.log s.scope.current.seq s.next_id) (Marked b.seen b.limit) s.rows c.rows
            o.marked) in
      record {
        room = c.room;
        ids = c.ids;
        latest = c.latest;
        current = c.current;
        in_flight = c.in_flight;
        spent = c.spent;
        origin = c.origin;
        desired = c.desired;
        value = c.value;
        rows = All-mono (λ r h. h.0) (record_rows b.finished s.rows) good;
        unseen = c.unseen;
        untouched = λ h. absurd (omega (arith, o.positive, o.reached, c.current));
        fan = c.fan;
        batch = λ b' q'.
            let same : b ≡ b' = (let both : some b ≡ some b' = sym q ∙ q' in cc) in
            let o' = c.batch b' q' in
            record {
              positive = o'.positive;
              reached = o'.reached;
              bounded = o'.bounded;
              marked =
                  subst (λ x. All (Marked x.seen x.limit) (record_rows b.finished s.rows)) same
                    (All-mono (λ r h. h.1) (record_rows b.finished s.rows) good);
              ahead = o'.ahead;
              behind = o'.behind;
            };
        idle = λ a w. absurd (
            let on : is_some s.batch ≡ true = ap is_some q in
            let off = sym c.fan ∙ a in let clash : true ≡ false = sym on ∙ off in cc);
      }

  unfoldable pub call_rows : Observation D → List (Row D) → List (Delivery D)
  call_rows seen [] = []
  call_rows seen (r ∷ rs) =
      if ltb (held r).delivered_seq seen.seq
      then record { applier = r.0; current = seen.value; previous = (held r).accepted }
        ∷ call_rows seen rs
      else call_rows seen rs

  unfoldable pub round_batch : ℕ → ℕ → List (Delivery D) → Option (Batch D)
  round_batch seen limit [] = none
  round_batch seen limit (d ∷ ds) =
      some (record { seen = seen; limit = limit; todo = d ∷ ds; finished = [] })

  offer_rows-RowOk :
      (log : ℕ → ℕ) (newest limit : ℕ) (rs : List (Row D))
      → All (RowOk log newest limit) rs
      → All (RowOk log newest limit) (offer_rows newest rs)
  unfolding offer_rows row_offer
  offer_rows-RowOk log newest limit [] h = tt
  offer_rows-RowOk log newest limit (r ∷ rs) h =
      ((let g = h.0 in ground arith), offer_rows-RowOk log newest limit rs h.1)

  offer_rows_marked :
      (log : ℕ → ℕ) (newest limit : ℕ) (rs : List (Row D))
      → All (RowOk log newest limit) rs
      → All (λ r. (held r).delivered_seq ≡ newest) (offer_rows newest rs)
  unfolding offer_rows row_offer
  offer_rows_marked log newest limit [] h = tt
  offer_rows_marked log newest limit (r ∷ rs) h =
      ((let g = h.0.seen in ground arith), offer_rows_marked log newest limit rs h.1)

  call_rows_ok :
      (log : ℕ → ℕ) (seen : Observation D) (limit : ℕ) (rs : List (Row D))
      → revision_of seen.value ≡ log seen.seq
      → All (RowOk log seen.seq limit) rs
      → All (CallOk log seen.seq limit) (call_rows seen rs)
  unfolding call_rows
  call_rows_ok log seen limit [] e h = tt
  call_rows_ok log seen limit (r ∷ rs) e h =
      elim (Bool-cases (ltb (held r).delivered_seq seen.seq)) [
        | inl new ↦ rw new ((e, h.0.known), call_rows_ok log seen limit rs e h.1)
        | inr old ↦ rw old (call_rows_ok log seen limit rs e h.1)
      ]

  call_rows_new :
      (seen : Observation D) (rs : List (Row D))
      → is_empty (call_rows seen rs) ≡ false
      → 0 < seen.seq
  unfolding call_rows
  call_rows_new seen [] h = cc
  call_rows_new seen (r ∷ rs) h = ground (arith, call_rows_new seen rs)

  offer_rows_caught_up :
      (newest latest : ℕ) (rs : List (Row D))
      → rows_caught_up latest (offer_rows newest rs) ≡ true
      → (latest ≡ 0) ⊎ (rows_caught_up latest rs ≡ true)
  unfolding offer_rows row_offer rows_caught_up row_caught_up
  offer_rows_caught_up newest latest [] h = inr refl
  offer_rows_caught_up newest latest ((id, none) ∷ rs) h = inl (ground arith)
  offer_rows_caught_up newest latest ((id, some st) ∷ rs) h =
      ground (arith, offer_rows_caught_up newest latest rs)

  offer_rows_empty :
      (newest : ℕ) (rs : List (Row D)) → is_empty (offer_rows newest rs) ≡ is_empty rs
  unfolding offer_rows
  offer_rows_empty newest [] = refl
  offer_rows_empty newest (r ∷ rs) = refl

  unfoldable pub round_slice : Slice D → Slice D
  unfolding round_batch
  round_slice s =
      let ds = call_rows s.scope.current s.rows in
      record s {
        scope = record (s.scope) { delivering = not (is_empty ds) };
        rows = offer_rows s.scope.current.seq s.rows;
        batch = round_batch s.scope.current.seq s.next_id ds;
      }

  round_fan :
      (seen limit : ℕ) (ds : List (Delivery D))
      → not (is_empty ds) ≡ is_some (round_batch seen limit ds)
  unfolding round_batch
  round_fan seen limit [] = refl
  round_fan seen limit (d ∷ ds) = refl

  round_batch-some :
      (seen limit : ℕ) (ds : List (Delivery D)) (b : Batch D)
      → round_batch seen limit ds ≡ some b
      → (is_empty ds ≡ false)
        × (b ≡ record { seen = seen; limit = limit; todo = ds; finished = [] })
  unfolding round_batch
  round_batch-some seen limit [] b h = cc
  round_batch-some seen limit (d ∷ ds) b h = (refl, cc)

  pub round-Inv : (w : Bool) (s : Slice D) → Inv s → Inv (record (round_slice s) { owed = w })
  unfolding round_slice
  round-Inv w s v =
      let c = v.core in
      let ds = call_rows s.scope.current s.rows in
      let cur = s.scope.current.seq in
      record {
        core = record {
          room = c.room;
          ids = c.ids;
          latest = c.latest;
          current = c.current;
          in_flight = c.in_flight;
          spent = c.spent;
          origin = c.origin;
          desired = c.desired;
          value = c.value;
          rows = offer_rows-RowOk s.log cur s.next_id s.rows c.rows;
          unseen = c.unseen;
          untouched = c.untouched;
          fan = round_fan cur s.next_id ds;
          batch = λ b q.
              let (some_calls, same) = round_batch-some cur s.next_id ds b q in
              rw same (record {
                positive = call_rows_new s.scope.current s.rows some_calls;
                reached = omega arith;
                bounded = omega arith;
                marked =
                    All-mono (λ r h le. h) (offer_rows cur s.rows)
                      (offer_rows_marked s.log cur s.next_id s.rows c.rows);
                ahead = call_rows_ok s.log s.scope.current s.next_id s.rows c.value c.rows;
                behind = tt;
              });
          idle = λ a o. offer_rows_marked s.log cur s.next_id s.rows c.rows;
        };
        converged = λ e h. elim (offer_rows_caught_up cur s.scope.latest_seq s.rows h) [
          | inl zero_latest ↦ c.untouched zero_latest
          | inr up ↦ v.converged (sym (offer_rows_empty cur s.rows) ∙ e) up
        ];
      }

  pub record-Inv :
      (s : Slice D) (b : Batch D) (e : Option Failure)
      → s.batch ≡ some b
      → Inv s
      → Inv (
          round_slice (record s {
            scope = clear_rows (record_rows b.finished s.rows) (record (s.scope) { last_err = e });
            rows = record_rows b.finished s.rows;
          }))
  unfolding round_slice
  record-Inv s b e q v = round-Inv s.owed _ (cleared _ (recorded s b e q v.core))
