-- ===== src/Group/Coordinator/Outcomes.antt =====
-- Removals and the outcomes of calls, in a slice.
use lib_systemplane.Prelude.{
  ℕ, ◌+◌, ◌^◌, ◌<◌, ◌≡◌, ◌==◌, nat_comparable, string_comparable, inc64, if◌then◌else◌, Option,
  none, List, [], ◌∷◌, is_empty, All, arith, sym, ◌∙◌, ap, Bool-cases, inl, inr,
}
use lib_systemplane.Group.Coordinator.{Failure, Delivery, Outcome, skipped, applied, failed, Scope}
use lib_systemplane.Group.Coordinator.Slices.{
  Row, held, Slice, row_accept, accept_row, record_row, record_rows, rows_caught_up, RowOk, CallOk,
  Marked, Core, Converged, Inv,
}

pub inc64_small : (n : ℕ) → n + 2 < 2 ^ 64 → inc64 n ≡ n + 1
inc64_small n h = omega arith

module _ {D : Type 0} where
  unfoldable pub clear_rows : List (Row D) → Scope D → Scope D
  clear_rows rs sc =
      if is_empty rs
      then sc
      else if rows_caught_up sc.latest_seq rs
      then record sc { last_err = none }
      else sc

  clear_rows-Converged : (rs : List (Row D)) (sc : Scope D) → Converged (clear_rows rs sc) rs
  unfolding clear_rows
  clear_rows-Converged rs sc e h = ground arith

  -- Fewer appliers, and another error on record.
  pub trimmed :
      (s : Slice D) (rs : List (Row D)) (e : Option Failure)
      → ((P : Row D → Type 0) → All P s.rows → All P rs)
      → (s.scope.latest_seq ≡ 0 → e ≡ none)
      → Core s
      → Core (record s { scope = record (s.scope) { last_err = e }; rows = rs })
  trimmed s rs e fewer quiet c = record {
    room = c.room;
    ids = c.ids;
    latest = c.latest;
    current = c.current;
    in_flight = c.in_flight;
    spent = c.spent;
    origin = c.origin;
    desired = c.desired;
    value = c.value;
    rows = fewer (RowOk s.log s.scope.current.seq s.next_id) c.rows;
    unseen = c.unseen;
    untouched = quiet;
    fan = c.fan;
    batch = λ b q.
        let o = c.batch b q in
        record {
          positive = o.positive;
          reached = o.reached;
          bounded = o.bounded;
          marked = fewer (Marked b.seen b.limit) o.marked;
          ahead = o.ahead;
          behind = o.behind;
        };
    idle = λ a b. fewer (λ r. (held r).delivered_seq ≡ s.scope.current.seq) (c.idle a b);
  }

  pub cleared : (s : Slice D) → Core s → Inv (record s { scope = clear_rows s.rows s.scope })
  cleared s c =
      let same : clear_rows s.rows s.scope
          ≡ record (s.scope) { last_err = (clear_rows s.rows s.scope).last_err } =
        unfold clear_rows in (ground arith) in
      let quiet : s.scope.latest_seq ≡ 0 → (clear_rows s.rows s.scope).last_err ≡ none =
        λ h. unfold clear_rows in (ground (arith, c.untouched)) in
      record {
        core = rw same (trimmed s s.rows (clear_rows s.rows s.scope).last_err (λ P h. h) quiet c);
        converged = clear_rows-Converged s.rows s.scope;
      }

  unfoldable pub drop_row : ℕ → List (Row D) → List (Row D)
  drop_row id [] = []
  drop_row id (r ∷ rs) = if r.0 == id then rs else r ∷ drop_row id rs

  All-drop_row :
      (id : ℕ) (rs : List (Row D)) (P : Row D → Type 0) → All P rs → All P (drop_row id rs)
  unfolding drop_row
  All-drop_row id [] P h = tt
  All-drop_row id (r ∷ rs) P h = elim (Bool-cases (r.0 == id)) [
    | inl same ↦ rw same h.1
    | inr other ↦ rw other (h.0, All-drop_row id rs P h.1)
  ]

  pub remove-Inv :
      (id : ℕ) (s : Slice D)
      → Inv s
      → Inv
          (record s { scope = clear_rows (drop_row id s.rows) s.scope; rows = drop_row id s.rows })
  remove-Inv id s v =
      cleared (record s { rows = drop_row id s.rows })
        (trimmed s (drop_row id s.rows) s.scope.last_err (All-drop_row id s.rows) v.core.untouched
          v.core)

  -- What the loop of `recordLocked` keeps of every applier.
  abbrev Good : (ℕ → ℕ) → ℕ → ℕ → ℕ → ℕ → Row D → Type 0
  Good log newest ids seen limit r = RowOk log newest ids r × Marked seen limit r

  accept-Good :
      (log : ℕ → ℕ) (newest ids seen limit : ℕ) (d : Delivery D) (rs : List (Row D))
      → CallOk log seen limit d
      → All (Good log newest ids seen limit) rs
      → All (Good log newest ids seen limit) (accept_row d rs)
  unfolding accept_row row_accept
  accept-Good log newest ids seen limit d [] o h = tt
  accept-Good log newest ids seen limit d (r ∷ rs) o h = elim (Bool-cases (r.0 == d.applier)) [
    | inl same ↦
        let at : (held r).delivered_seq ≡ seen = h.0.1 (ground (arith, o.1)) in
        let g = h.0.0 in
        rw same (
          (
            record {
              known = g.known;
              seen = g.seen;
              offered = omega arith;
              revised = o.0 ∙ ap log (sym at);
            },
            h.0.1,
          ),
          h.1,
        )
    | inr other ↦ rw other (h.0, accept-Good log newest ids seen limit d rs o h.1)
  ]

  pub record-Good :
      (log : ℕ → ℕ) (newest ids seen limit : ℕ) (ds : List (Delivery D × Outcome))
      (rs : List (Row D))
      → All (λ r. CallOk log seen limit r.0) ds
      → All (Good log newest ids seen limit) rs
      → All (Good log newest ids seen limit) (record_rows ds rs)
  unfolding record_rows record_row
  record-Good log newest ids seen limit [] rs o h = h
  record-Good log newest ids seen limit ((d, skipped) ∷ ds) rs o h =
      record-Good log newest ids seen limit ds rs o.1 h
  record-Good log newest ids seen limit ((d, failed f) ∷ ds) rs o h =
      record-Good log newest ids seen limit ds rs o.1 h
  record-Good log newest ids seen limit ((d, applied) ∷ ds) rs o h =
      record-Good log newest ids seen limit ds (accept_row d rs) o.1
        (accept-Good log newest ids seen limit d rs o.0 h)

  pub All-both :
      (P Q : Row D → Type 0) (rs : List (Row D)) → All P rs → All Q rs → All (λ r. P r × Q r) rs
  All-both P Q [] a b = tt
  All-both P Q (r ∷ rs) a b = ((a.0, b.0), All-both P Q rs a.1 b.1)
