-- ===== src/Group/Coordinator/Views.antt =====
-- A run seen from one scope: each step of a run is a step of the scope's slice.
use lib_systemplane.Prelude.{
  ℕ, ◌≡◌, refl, ◌==◌, nat_comparable, string_comparable, if◌then◌else◌, false, Option, some, List,
  [], ◌∷◌, String, GoMap, get, is_empty, get_or, get-put, get-put_self, eq→≡, arith, ◌∙◌, ap,
  Bool-cases, inl, inr,
}
use lib_systemplane.Group.Coordinator.{
  Failure, Observation, Delivery, Outcome, skipped, applied, failed, Scope, Applier, Coordinator,
  new_scope, scope_of, put_scope, scope_state, put_state, offer, offered, pending, accept,
  accept_at, record_one, record_each, caught_up, all_caught_up, clear_err_if_converged, clear_all,
  drop_applier,
}
use lib_systemplane.Group.Coordinator.Runs.{System}
use lib_systemplane.Group.Coordinator.Slices.{
  Row, Slice, row_offer, offer_rows, row_accept, accept_row, record_row, record_rows, row_caught_up,
  rows_caught_up,
}
use lib_systemplane.Group.Coordinator.Outcomes.{clear_rows, drop_row}
use lib_systemplane.Group.Coordinator.Rounds.{call_rows}

module _ {D : Type 0} where
  unfoldable pub rows_of : String → List (Applier D) → List (Row D)
  rows_of t [] = []
  rows_of t (a ∷ rest) = (a.id, get t a.state) ∷ rows_of t rest

  unfoldable pub slice_of : String → System D → Slice D
  unfolding rows_of scope_of
  slice_of t s = record {
    seq = s.state.seq;
    next_id = s.state.next_id;
    log = s.revision_at;
    stamped = s.stamped;
    scope = scope_of t s.state;
    rows = rows_of t s.state.appliers;
    batch = get t s.batches;
    owed = s.owed t;
  }

  pub scope_of-put_scope :
      (t u : String) (sc : Scope D) (c : Coordinator D)
      → scope_of u (put_scope t sc c) ≡ (if t == u then sc else scope_of u c)
  unfolding scope_of put_scope
  scope_of-put_scope t u sc c = ground (arith, get-put t u sc c.scopes)

  pub rows-pending :
      (t : String) (seen : Observation D) (l : List (Applier D))
      → rows_of t (pending t seen l).0 ≡ offer_rows seen.seq (rows_of t l)
  unfolding pending rows_of offer_rows row_offer offer put_state scope_state
  rows-pending t seen [] = refl
  rows-pending t seen (a ∷ rest) = ground (
    arith,
    rows-pending t seen rest,
    get-put_self t (record (scope_state t a) { delivered_seq = seen.seq }) a.state,
    get-put_self t (scope_state t a) a.state,
  )

  pub rows-pending_other :
      (t u : String) (seen : Observation D) (l : List (Applier D))
      → (t == u) ≡ false
      → rows_of u (pending t seen l).0 ≡ rows_of u l
  unfolding pending rows_of offer put_state scope_state
  rows-pending_other t u seen [] h = refl
  rows-pending_other t u seen (a ∷ rest) h = ground (
    arith,
    rows-pending_other t u seen rest,
    get-put t u (record (scope_state t a) { delivered_seq = seen.seq }) a.state,
    get-put t u (scope_state t a) a.state,
  )

  pub calls-pending :
      (t : String) (seen : Observation D) (l : List (Applier D))
      → (pending t seen l).1 ≡ call_rows seen (rows_of t l)
  unfolding pending rows_of call_rows offer offered scope_state
  calls-pending t seen [] = refl
  calls-pending t seen (a ∷ rest) = ground (arith, calls-pending t seen rest)

  row-accept :
      (t : String) (d : Delivery D) (a : Applier D)
      → (a.id, get t (accept t d a).state) ≡ row_accept d (a.id, get t a.state)
  unfolding accept row_accept put_state scope_state
  row-accept t d a = ap (λ o. (a.id, o)) (get-put_self t _ a.state)

  row-accept_other :
      (t u : String) (d : Delivery D) (a : Applier D)
      → (t == u) ≡ false
      → get u (accept t d a).state ≡ get u a.state
  unfolding accept put_state scope_state
  row-accept_other t u d a h = get-put t u _ a.state ∙ rw h refl

  id-accept : (t : String) (d : Delivery D) (a : Applier D) → (accept t d a).id ≡ a.id
  unfolding accept put_state
  id-accept t d a = refl

  rows-accept_at :
      (t : String) (d : Delivery D) (l : List (Applier D))
      → rows_of t (accept_at t d l) ≡ accept_row d (rows_of t l)
  unfolding rows_of accept_at accept_row
  rows-accept_at t d [] = refl
  rows-accept_at t d (a ∷ rest) = elim (Bool-cases (a.id == d.applier)) [
    | inl same ↦ rw (same, id-accept t d a) (ap (λ r. r ∷ rows_of t rest) (row-accept t d a))
    | inr other ↦ rw other (ap (λ l. (a.id, get t a.state) ∷ l) (rows-accept_at t d rest))
  ]

  rows-accept_at_other :
      (t u : String) (d : Delivery D) (l : List (Applier D))
      → (t == u) ≡ false
      → rows_of u (accept_at t d l) ≡ rows_of u l
  unfolding rows_of accept_at
  rows-accept_at_other t u d [] h = refl
  rows-accept_at_other t u d (a ∷ rest) h = elim (Bool-cases (a.id == d.applier)) [
    | inl same ↦ rw (same, id-accept t d a, row-accept_other t u d a h) refl
    | inr other ↦ rw other (ap (λ l. (a.id, get u a.state) ∷ l) (rows-accept_at_other t u d rest h))
  ]

  -- What the loop of `recordLocked` does to the scope is to its error only.
  unfoldable pub err_after : List (Delivery D × Outcome) → Option Failure → Option Failure
  err_after [] e = e
  err_after ((d, skipped) ∷ ds) e = err_after ds e
  err_after ((d, failed f) ∷ ds) e = err_after ds (some f)
  err_after ((d, applied) ∷ ds) e = err_after ds e

  pub scope-record_each :
      (t : String) (ds : List (Delivery D × Outcome)) (l : List (Applier D)) (sc : Scope D)
      → (record_each t ds (l, sc)).1 ≡ record sc { last_err = err_after ds sc.last_err }
  unfolding record_each record_one err_after
  scope-record_each t [] l sc = refl
  scope-record_each t ((d, skipped) ∷ ds) l sc = scope-record_each t ds l sc
  scope-record_each t ((d, failed f) ∷ ds) l sc =
      scope-record_each t ds l (record sc { last_err = some f })
  scope-record_each t ((d, applied) ∷ ds) l sc = scope-record_each t ds (accept_at t d l) sc

  pub rows-record_each :
      (t : String) (ds : List (Delivery D × Outcome)) (l : List (Applier D)) (sc : Scope D)
      → rows_of t (record_each t ds (l, sc)).0 ≡ record_rows ds (rows_of t l)
  unfolding record_each record_one record_rows record_row
  rows-record_each t [] l sc = refl
  rows-record_each t ((d, skipped) ∷ ds) l sc = rows-record_each t ds l sc
  rows-record_each t ((d, failed f) ∷ ds) l sc =
      rows-record_each t ds l (record sc { last_err = some f })
  rows-record_each t ((d, applied) ∷ ds) l sc =
      rows-record_each t ds (accept_at t d l) sc ∙ ap (record_rows ds) (rows-accept_at t d l)

  pub rows-record_each_other :
      (t u : String) (ds : List (Delivery D × Outcome)) (l : List (Applier D)) (sc : Scope D)
      → (t == u) ≡ false
      → rows_of u (record_each t ds (l, sc)).0 ≡ rows_of u l
  unfolding record_each record_one
  rows-record_each_other t u [] l sc h = refl
  rows-record_each_other t u ((d, skipped) ∷ ds) l sc h = rows-record_each_other t u ds l sc h
  rows-record_each_other t u ((d, failed f) ∷ ds) l sc h =
      rows-record_each_other t u ds l (record sc { last_err = some f }) h
  rows-record_each_other t u ((d, applied) ∷ ds) l sc h =
      rows-record_each_other t u ds (accept_at t d l) sc h ∙ rows-accept_at_other t u d l h

  pub caught_up-rows :
      (t : String) (latest : ℕ) (l : List (Applier D))
      → all_caught_up t latest l ≡ rows_caught_up latest (rows_of t l)
  unfolding all_caught_up caught_up rows_caught_up row_caught_up rows_of
  caught_up-rows t latest [] = refl
  caught_up-rows t latest (a ∷ rest) = ground (arith, caught_up-rows t latest rest)

  pub rows_empty : (t : String) (l : List (Applier D)) → is_empty (rows_of t l) ≡ is_empty l
  unfolding rows_of
  rows_empty t [] = refl
  rows_empty t (a ∷ rest) = refl

  pub clear-rows :
      (t : String) (l : List (Applier D)) (sc : Scope D)
      → clear_err_if_converged t l sc ≡ clear_rows (rows_of t l) sc
  unfolding clear_err_if_converged clear_rows
  clear-rows t l sc = rw (rows_empty t l, caught_up-rows t sc.latest_seq l) refl

  pub rows-drop_applier :
      (t : String) (id : ℕ) (l : List (Applier D))
      → rows_of t (drop_applier id l) ≡ drop_row id (rows_of t l)
  unfolding rows_of drop_applier drop_row
  rows-drop_applier t id [] = refl
  rows-drop_applier t id (a ∷ rest) = ground (arith, rows-drop_applier t id rest)

  pub get-clear_all :
      (t : String) (l : List (Applier D)) (m : GoMap String (Scope D))
      → get_or (get t (clear_all l m)) new_scope
        ≡ clear_rows (rows_of t l) (get_or (get t m) new_scope)
  unfolding clear_all get
  get-clear_all t l [] = unfold clear_rows in (ground arith)
  get-clear_all t l ((u, sc) ∷ m) = elim (Bool-cases (u == t)) [
    | inl same ↦
        rw same (ap (λ x. clear_err_if_converged x l sc) (eq→≡ u t same) ∙ clear-rows t l sc)
    | inr other ↦ rw other (get-clear_all t l m)
  ]
