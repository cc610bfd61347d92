-- ===== src/Group/Coordinator/Slices.antt =====
-- One scope of a run: its entry, what every applier has of it, and its fan-out.
use lib_systemplane.Prelude.{
  ℕ, ◌+◌, ◌^◌, ◌<◌, ◌≤◌, ◌≡◌, ◌==◌, nat_comparable, string_comparable, ltb, if◌then◌else◌, Bool,
  true, false, ◌&&◌, not, Option, none, some, List, [], ◌∷◌, ◌++◌, is_empty, is_some, get_or, All,
}
use lib_systemplane.Group.Coordinator.{
  revision_of, Delivery, Outcome, skipped, applied, failed, Scope, ApplierScope, new_applier_scope,
}
use lib_systemplane.Group.Coordinator.Runs.{Batch}

abbrev pub Row : Type 0 → Type 0
Row D = ℕ × Option (ApplierScope D)

abbrev pub held : {D : Type 0} → Row D → ApplierScope D
held r = get_or r.1 new_applier_scope

pub record Slice (D : Type 0) : Type 0 where
  pub seq : ℕ
  pub next_id : ℕ
  pub log : ℕ → ℕ
  pub stamped : ℕ → Bool
  pub scope : Scope D
  pub rows : List (Row D)
  pub batch : Option (Batch D)
  pub owed : Bool

module _ {ℓ κ} {A : Type ℓ} where
  pub All-mono : {P Q : A → Type κ} → ((x : A) → P x → Q x) → (l : List A) → All P l → All Q l
  All-mono f [] h = tt
  All-mono f (x ∷ xs) h = (f x h.0, All-mono f xs h.1)

  pub All-append : (P : A → Type κ) (xs ys : List A) → All P xs → All P ys → All P (xs ++ ys)
  All-append P [] ys a b = b
  All-append P (x ∷ xs) ys a b = (a.0, All-append P xs ys a.1 b)

module _ {D : Type 0} where
  unfoldable pub row_offer : ℕ → Row D → Row D
  row_offer seen r = (
    r.0,
    some (
        if ltb (held r).delivered_seq seen
        then record (held r) { delivered_seq = seen }
        else held r),
  )

  unfoldable pub offer_rows : ℕ → List (Row D) → List (Row D)
  unfolding row_offer
  offer_rows seen [] = []
  offer_rows seen (r ∷ rs) = row_offer seen r ∷ offer_rows seen rs

  unfoldable pub row_accept : Delivery D → Row D → Row D
  row_accept d r = (
    r.0,
    some (record (held r) {
      accepted_seq = (held r).delivered_seq;
      applied_rev = revision_of d.current;
      accepted = d.current;
    }),
  )

  unfoldable pub accept_row : Delivery D → List (Row D) → List (Row D)
  unfolding row_accept
  accept_row d [] = []
  accept_row d (r ∷ rs) = if r.0 == d.applier then row_accept d r ∷ rs else r ∷ accept_row d rs

  unfoldable pub record_row : Delivery D × Outcome → List (Row D) → List (Row D)
  unfolding accept_row
  record_row (d, skipped) rs = rs
  record_row (d, failed f) rs = rs
  record_row (d, applied) rs = accept_row d rs

  unfoldable pub record_rows : List (Delivery D × Outcome) → List (Row D) → List (Row D)
  unfolding record_row
  record_rows [] rs = rs
  record_rows (d ∷ ds) rs = record_rows ds (record_row d rs)

  unfoldable pub row_caught_up : ℕ → Row D → Bool
  row_caught_up latest (id, none) = false
  row_caught_up latest (id, some st) = not (ltb st.accepted_seq latest)

  unfoldable pub rows_caught_up : ℕ → List (Row D) → Bool
  unfolding row_caught_up
  rows_caught_up latest [] = true
  rows_caught_up latest (r ∷ rs) = row_caught_up latest r && rows_caught_up latest rs

  -- What the bookkeeping of one applier says.
  pub record RowOk (log : ℕ → ℕ) (newest limit : ℕ) (r : Row D) : Type 0 where
    pub known : r.0 ≤ limit
    pub seen : (held r).delivered_seq ≤ newest
    pub offered : (held r).accepted_seq ≤ (held r).delivered_seq
    pub revised : (held r).applied_rev ≡ log (held r).accepted_seq

  abbrev pub CallOk : (ℕ → ℕ) → ℕ → ℕ → Delivery D → Type 0
  CallOk log seen limit d = (revision_of d.current ≡ log seen) × (d.applier ≤ limit)

  -- An applier that was there when the round began has been offered the round's observation.
  abbrev pub Marked : ℕ → ℕ → Row D → Type 0
  Marked seen limit r = r.0 ≤ limit → (held r).delivered_seq ≡ seen

  pub record BatchOk (s : Slice D) (b : Batch D) : Type 0 where
    pub positive : 0 < b.seen
    pub reached : b.seen ≤ s.scope.current.seq
    pub bounded : b.limit ≤ s.next_id
    pub marked : All (Marked b.seen b.limit) s.rows
    pub ahead : All (CallOk s.log b.seen b.limit) b.todo
    pub behind : All (λ r. CallOk s.log b.seen b.limit r.0) b.finished

  pub record Core (s : Slice D) : Type 0 where
    pub room : s.seq + 1 < 2 ^ 64
    pub ids : s.next_id + 1 < 2 ^ 64
    pub latest : s.scope.latest_seq ≤ s.seq
    pub current : s.scope.current.seq ≤ s.scope.latest_seq
    pub in_flight : (k : ℕ) → s.stamped k ≡ true → (0 < k) × (k ≤ s.seq)
    pub spent : s.stamped s.scope.latest_seq ≡ false
    pub origin : s.log 0 ≡ 0
    pub desired : s.scope.desired ≡ s.log s.scope.latest_seq
    pub value : revision_of s.scope.current.value ≡ s.log s.scope.current.seq
    pub rows : All (RowOk s.log s.scope.current.seq s.next_id) s.rows
    pub unseen : s.scope.observed ≡ false → s.scope.latest_seq ≡ 0
    pub untouched : s.scope.latest_seq ≡ 0 → s.scope.last_err ≡ none
    pub fan : s.scope.delivering ≡ is_some s.batch
    pub batch : (b : Batch D) → s.batch ≡ some b → BatchOk s b
    pub idle :
        s.scope.delivering ≡ false
        → s.owed ≡ false
        → All (λ r. (held r).delivered_seq ≡ s.scope.current.seq) s.rows

  abbrev pub Converged : Scope D → List (Row D) → Type 0
  Converged sc rs =
      is_empty rs ≡ false → rows_caught_up sc.latest_seq rs ≡ true → sc.last_err ≡ none

  pub record Inv (s : Slice D) : Type 0 where
    pub core : Core s
    pub converged : Converged s.scope s.rows
