-- ===== src/Group/Coordinator/Calls.antt =====
-- Registrations, calls of apply functions and drains of a busy scope keep the invariant of a slice.
use lib_systemplane.Prelude.{
  ℕ, ◌+◌, ◌^◌, ◌<◌, ◌≡◌, refl, nat_comparable, string_comparable, inc64, true, false, ◌||◌, none,
  some, List, [], ◌∷◌, ◌++◌, is_some, All, arith, sym, ◌∙◌, ap, subst,
}
use lib_systemplane.Group.Coordinator.{Delivery, Outcome}
use lib_systemplane.Group.Coordinator.Runs.{Batch}
use lib_systemplane.Group.Coordinator.Slices.{
  Row, held, Slice, All-mono, All-append, row_caught_up, rows_caught_up, RowOk, CallOk, Marked,
  BatchOk, Inv,
}
use lib_systemplane.Group.Coordinator.Steps.{RowOk-mono}
use lib_systemplane.Group.Coordinator.Outcomes.{inc64_small}

module _ {D : Type 0} where
  caught_up-append :
      (latest id : ℕ) (rs : List (Row D)) → rows_caught_up latest (rs ++ (id, none) ∷ []) ≡ false
  unfolding rows_caught_up row_caught_up
  caught_up-append latest id [] = refl
  caught_up-append latest id (r ∷ rs) = ground (arith, caught_up-append latest id rs)

  unfoldable pub join_slice : Slice D → Slice D
  join_slice s = record s {
    next_id = inc64 s.next_id;
    rows = s.rows ++ (inc64 s.next_id, none) ∷ [];
    owed = s.scope.observed || s.owed;
  }

  pub join-Inv : (s : Slice D) → s.next_id + 2 < 2 ^ 64 → Inv s → Inv (join_slice s)
  unfolding join_slice
  join-Inv s room v =
      let c = v.core in
      let more = inc64_small s.next_id room in
      let log = s.log in
      let cur = s.scope.current.seq in
      record {
        core = record {
          room = c.room;
          ids = omega (arith, more);
          latest = c.latest;
          current = c.current;
          in_flight = c.in_flight;
          spent = c.spent;
          origin = c.origin;
          desired = c.desired;
          value = c.value;
          rows =
              All-append (RowOk log cur (inc64 s.next_id)) s.rows ((inc64 s.next_id, none) ∷ [])
                (All-mono (λ r h. RowOk-mono r (omega arith) (omega (arith, more)) (λ k le. refl) h)
                  s.rows c.rows)
                (
                  record {
                    known = omega arith;
                    seen = omega arith;
                    offered = omega arith;
                    revised = sym c.origin;
                  },
                  tt,
                );
          unseen = c.unseen;
          untouched = c.untouched;
          fan = c.fan;
          batch = λ b e.
              let o = c.batch b e in
              record {
                positive = o.positive;
                reached = o.reached;
                bounded = omega (arith, more, o.bounded);
                marked =
                    All-append (Marked b.seen b.limit) s.rows ((inc64 s.next_id, none) ∷ [])
                      o.marked ((λ le. absurd (omega (arith, more, o.bounded))), tt);
                ahead = o.ahead;
                behind = o.behind;
              };
          idle = λ a w.
              All-append (λ r. (held r).delivered_seq ≡ cur) s.rows ((inc64 s.next_id, none) ∷ [])
                (c.idle a (ground arith))
                (
                  (let none_yet : s.scope.observed ≡ false = ground arith in
                      omega (arith, c.unseen none_yet, c.current)),
                  tt,
                );
        };
        converged =
            λ e h. let no = caught_up-append s.scope.latest_seq (inc64 s.next_id) s.rows in cc;
      }

  All-last :
      (P : Delivery D × Outcome → Type 0) (l : List (Delivery D × Outcome))
      (x : Delivery D × Outcome)
      → All P l
      → P x
      → All P (l ++ x ∷ [])
  All-last P l x a h = All-append P l (x ∷ []) a (h, tt)

  -- A call was made.
  pub call-Inv :
      (s : Slice D) (b : Batch D) (d : Delivery D) (rest : List (Delivery D)) (o : Outcome)
      → s.batch ≡ some b
      → b.todo ≡ d ∷ rest
      → Inv s
      → Inv (record s {
        batch = some (record b { todo = rest; finished = b.finished ++ (d, o) ∷ [] });
      })
  call-Inv s b d rest o q e v =
      let c = v.core in
      let k = c.batch b q in
      let calls = subst (All (CallOk s.log b.seen b.limit)) e k.ahead in
      record {
        core = record {
          room = c.room;
          ids = c.ids;
          latest = c.latest;
          current = c.current;
          in_flight = c.in_flight;
          spent = c.spent;
          origin = c.origin;
          desired = c.desired;
          value = c.value;
          rows = c.rows;
          unseen = c.unseen;
          untouched = c.untouched;
          fan = c.fan ∙ ap is_some q;
          batch = λ b' q'.
              let x = record b { todo = rest; finished = b.finished ++ (d, o) ∷ [] } in
              let same : x ≡ b' = cc in
              subst (BatchOk (record s { batch = some x })) same (record {
                positive = k.positive;
                reached = k.reached;
                bounded = k.bounded;
                marked = k.marked;
                ahead = calls.1;
                behind =
                    All-last (λ r. CallOk s.log b.seen b.limit r.0) b.finished (d, o) k.behind
                      calls.0;
              });
          idle = c.idle;
        };
        converged = v.converged;
      }

  -- `drain` of a scope whose fan-out is under way: it will see to what is owed.
  pub settled : (s : Slice D) → s.scope.delivering ≡ true → Inv s → Inv (record s { owed = false })
  settled s on v =
      let c = v.core in
      record {
        core = record {
          room = c.room;
          ids = c.ids;
          latest = c.latest;
          current = c.current;
          in_flight = c.in_flight;
          spent = c.spent;
          origin = c.origin;
          desired = c.desired;
          value = c.value;
          rows = c.rows;
          unseen = c.unseen;
          untouched = c.untouched;
          fan = c.fan;
          batch = λ b e.
              let o = c.batch b e in
              record {
                positive = o.positive;
                reached = o.reached;
                bounded = o.bounded;
                marked = o.marked;
                ahead = o.ahead;
                behind = o.behind;
              };
          idle = λ a w. cc;
        };
        converged = v.converged;
      }
