-- ===== src/Group/Coordinator.antt =====
-- The publication coordinator: internal/group/coordinator.go. `V` is a raw published document and
-- `D` a decoded one. A fan-out is split at the sections that hold the coordinator's mutex. An
-- apply function is a name, and the error that a call of it returns is the environment's. The
-- `removed` flag of an applier is set in the section that takes it off the list, so an applier is
-- removed where the list has it no longer.
pub mod Runs
pub mod Slices
pub mod Steps
pub mod Outcomes
pub mod Rounds
pub mod Calls
pub mod Views
pub mod Sections
pub mod Publications
pub mod Registrations
pub mod Converged
use lib_systemplane.Prelude.{
  ℕ, ◌+◌, ◌-◌, ◌^◌, ◌==◌, nat_comparable, string_comparable, ltb, inc64, if◌then◌else◌, Bool, true,
  false, not, ◌&&◌, ◌||◌, Option, none, some, List, [], ◌∷◌, ◌++◌, String, GoMap, get, put, is_some,
  is_empty, get_or, Result, ok, err, bytes_equal,
}

pub data Failure : Type 0 where
  apply_panicked : Failure
  undecodable_document apply_refused seed_unreadable : ℕ → Failure

pub record Publication (V : Type 0) : Type 0 where
  pub tenant : String
  pub revision : ℕ
  pub value : V

pub record Decoded (D : Type 0) : Type 0 where
  pub tenant : String
  pub revision : ℕ
  pub value : D

-- The zero value of `Decoded` has revision 0.
abbrev pub revision_of : {D : Type 0} → Option (Decoded D) → ℕ
revision_of none = 0
revision_of (some v) = v.revision

-- `none` stands for the zero value of `observation.value`, which nothing reads.
pub record Observation (D : Type 0) : Type 0 where
  pub seq : ℕ
  pub value : Option (Decoded D)

pub record Scope (D : Type 0) : Type 0 where
  pub current : Observation D
  pub observed : Bool
  pub delivering : Bool
  pub desired : ℕ
  pub last_err : Option Failure
  pub latest_seq : ℕ
  pub seed_armed : Bool
  pub seed_rev : ℕ
  pub seed_bytes : Option (List ℕ)

pub record ApplierScope (D : Type 0) : Type 0 where
  pub delivered_seq : ℕ
  pub accepted_seq : ℕ
  pub applied_rev : ℕ
  pub accepted : Option (Decoded D)

pub record Applier (D : Type 0) : Type 0 where
  pub id : ℕ
  pub fn : ℕ
  pub state : GoMap String (ApplierScope D)

-- A delivery's applier is known by its id. `outcome` is `none` before the call.
pub data Outcome : Type 0 where
  applied skipped : Outcome
  failed : Failure → Outcome

pub record Delivery (D : Type 0) : Type 0 where
  pub applier : ℕ
  pub current : Option (Decoded D)
  pub previous : Option (Decoded D)

pub record Coordinator (D : Type 0) : Type 0 where
  pub seq : ℕ
  pub next_id : ℕ
  pub seed_taken : Bool
  pub scopes : GoMap String (Scope D)
  pub appliers : List (Applier D)

-- What the coordinator is built with. `marshal` is `json.Marshal` of a document.
pub record Codec (V D : Type 0) : Type 0 where
  pub decode : V → Result Failure D
  pub marshal : V → Option (List ℕ)

-- What a call of the seed function comes to.
pub data Seed (V : Type 0) : Type 0 where
  unseeded : Seed V
  unreadable : Failure → Seed V
  seeded : Publication V → Seed V

pub record Status : Type 0 where
  pub desired : ℕ
  pub applied : ℕ
  pub last_err : Option Failure

module _ {D : Type 0} where
  abbrev pub new_scope : Scope D
  new_scope = record {
    current = record { seq = 0; value = none };
    observed = false;
    delivering = false;
    desired = 0;
    last_err = none;
    latest_seq = 0;
    seed_armed = false;
    seed_rev = 0;
    seed_bytes = none;
  }

  abbrev pub new_applier_scope : ApplierScope D
  new_applier_scope = record {
    delivered_seq = 0;
    accepted_seq = 0;
    applied_rev = 0;
    accepted = none;
  }

  -- `NewCoordinator`.
  abbrev pub new_coordinator : Coordinator D
  new_coordinator = record { seq = 0; next_id = 0; seed_taken = false; scopes = []; appliers = [] }

  -- `scopeLocked`: the entry, which a write through it creates.
  unfoldable pub scope_of : String → Coordinator D → Scope D
  scope_of t c = get_or (get t c.scopes) new_scope

  unfoldable pub put_scope : String → Scope D → Coordinator D → Coordinator D
  put_scope t sc c = record c { scopes = put t sc c.scopes }

  -- `scopeState`.
  unfoldable pub scope_state : String → Applier D → ApplierScope D
  scope_state t a = get_or (get t a.state) new_applier_scope

  unfoldable pub put_state : String → ApplierScope D → Applier D → Applier D
  put_state t st a = record a { state = put t st a.state }

  unfoldable pub decoded_of : {V : Type 0} → Publication V → D → Decoded D
  decoded_of p d = record { tenant = p.tenant; revision = p.revision; value = d }

  -- `observeLocked`.
  unfoldable pub observe : {V : Type 0} → Publication V → D → ℕ → Scope D → Scope D
  unfolding decoded_of
  observe p d seq sc = record sc {
    current = record { seq = seq; value = some (decoded_of p d) };
    observed = true;
    latest_seq = seq;
  }

  -- The write of a document that did not decode.
  unfoldable pub observe_undecodable : Failure → ℕ → Scope D → Scope D
  observe_undecodable f seq sc = record sc { latest_seq = seq; last_err = some f; observed = true }

  -- `stamp`, and `nextSeqLocked`.
  unfoldable pub stamp : Coordinator D → Coordinator D
  stamp c = record c { seq = inc64 c.seq }

  unfoldable pub any_observed : GoMap String (Scope D) → Bool
  any_observed [] = false
  any_observed ((t, sc) ∷ m) = sc.observed || any_observed m

module _ {V D : Type 0} (codec : Codec V D) where
  unfoldable pub same_bytes : Option (List ℕ) → Option (List ℕ) → Bool
  same_bytes none stored = false
  same_bytes (some bytes) none = false
  same_bytes (some bytes) (some stored) = bytes_equal bytes stored

  -- `dropsAfterSeedLocked`.
  unfoldable pub drops_after_seed : Publication V → Scope D → Scope D × Bool
  unfolding same_bytes
  drops_after_seed p sc = if not sc.seed_armed then (sc, false) else (
    record sc { seed_armed = false },
    not (ltb sc.seed_rev p.revision) && same_bytes (codec.marshal p.value) sc.seed_bytes,
  )

  unfoldable pub commit_decoded : Publication V → ℕ → Result Failure D → Scope D → Scope D
  unfolding observe observe_undecodable
  commit_decoded p seq (ok d) sc = observe p d seq (record sc { desired = p.revision })
  commit_decoded p seq (err f) sc = observe_undecodable f seq (record sc { desired = p.revision })

  -- `commit` in the publication's scope; the second result says whether a scope is returned.
  unfoldable pub commit_scope : Publication V → ℕ → Scope D → Scope D × Bool
  unfolding drops_after_seed commit_decoded
  commit_scope p seq sc =
      if ltb seq sc.latest_seq
      then (sc, false)
      else let (sc', drops) = drops_after_seed p sc in
        if drops then (sc', false) else (commit_decoded p seq (codec.decode p.value) sc', true)

  -- `commit`.
  unfoldable pub commit : Publication V → ℕ → Coordinator D → Coordinator D × Bool
  commit p seq c =
      let (sc, taken) = commit_scope p seq (scope_of p.tenant c) in (put_scope p.tenant sc c, taken)

  unfoldable pub seed_scope : Publication V → ℕ → Result Failure D → Scope D → Scope D
  unfolding observe observe_undecodable
  seed_scope p seq (ok d) sc = record (observe p d seq (record sc { desired = p.revision })) {
    seed_armed = true;
    seed_rev = p.revision;
    seed_bytes = codec.marshal p.value;
  }
  seed_scope p seq (err f) sc = observe_undecodable f seq (record sc { desired = p.revision })

  -- The rest of `seedLocked` after the seed function's answer.
  unfoldable pub seed_answer : Seed V → Coordinator D → Coordinator D
  seed_answer unseeded c = c
  seed_answer (unreadable f) c = c
  seed_answer (seeded p) c =
      let c' = stamp (record c { seed_taken = true }) in
      put_scope p.tenant (seed_scope p c'.seq (codec.decode p.value) (scope_of p.tenant c')) c'

  -- `seedLocked`.
  unfoldable pub seed_locked : Seed V → Coordinator D → Coordinator D
  seed_locked answer c = if c.seed_taken || any_observed c.scopes then c else seed_answer answer c

  -- `add`, for an apply function that is not nil.
  unfoldable pub add : Seed V → ℕ → Coordinator D → Coordinator D
  add answer fn c =
      let c' = seed_locked answer c in
      record c' {
        next_id = inc64 c'.next_id;
        appliers = c'.appliers ++ record { id = inc64 c'.next_id; fn = fn; state = [] } ∷ [];
      }

module _ {D : Type 0} where
  -- `clearErrIfConvergedLocked`: has the applier accepted the newest observation?
  unfoldable pub caught_up : String → ℕ → Applier D → Bool
  caught_up t latest a = elim (get t a.state) [
    | none ↦ false
    | some st ↦ not (ltb st.accepted_seq latest)
  ]

  unfoldable pub all_caught_up : String → ℕ → List (Applier D) → Bool
  unfolding caught_up
  all_caught_up t latest [] = true
  all_caught_up t latest (a ∷ rest) = caught_up t latest a && all_caught_up t latest rest

  unfoldable pub clear_err_if_converged : String → List (Applier D) → Scope D → Scope D
  unfolding all_caught_up
  clear_err_if_converged t appliers sc =
      if is_empty appliers
      then sc
      else if all_caught_up t sc.latest_seq appliers
      then record sc { last_err = none }
      else sc

  unfoldable pub clear_all : List (Applier D) → GoMap String (Scope D) → GoMap String (Scope D)
  unfolding clear_err_if_converged
  clear_all appliers [] = []
  clear_all appliers ((t, sc) ∷ m) =
      (t, clear_err_if_converged t appliers sc) ∷ clear_all appliers m

  unfoldable pub has_applier : ℕ → List (Applier D) → Bool
  has_applier id [] = false
  has_applier id (a ∷ rest) = a.id == id || has_applier id rest

  -- The loop of `remove`: the first applier of the id goes.
  unfoldable pub drop_applier : ℕ → List (Applier D) → List (Applier D)
  drop_applier id [] = []
  drop_applier id (a ∷ rest) = if a.id == id then rest else a ∷ drop_applier id rest

  unfoldable pub remove : ℕ → Coordinator D → Coordinator D
  unfolding has_applier drop_applier clear_all
  remove id c =
      if has_applier id c.appliers
      then (let appliers = drop_applier id c.appliers in
          record c { appliers = appliers; scopes = clear_all appliers c.scopes })
      else c

  -- One round of the loop of `pendingLocked`.
  unfoldable pub offer : String → Observation D → Applier D → Applier D × Option (Delivery D)
  unfolding scope_state put_state
  offer t seen a =
      let st = scope_state t a in
      if ltb st.delivered_seq seen.seq
      then (
        put_state t (record st { delivered_seq = seen.seq }) a,
        some (record { applier = a.id; current = seen.value; previous = st.accepted }),
      )
      else (put_state t st a, none)

  unfoldable pub offered : Option (Delivery D) → List (Delivery D) → List (Delivery D)
  offered none ds = ds
  offered (some d) ds = d ∷ ds

  -- `pendingLocked`.
  unfoldable pub pending :
      String → Observation D → List (Applier D) → List (Applier D) × List (Delivery D)
  unfolding offer offered
  pending t seen [] = ([], [])
  pending t seen (a ∷ rest) =
      let (a', d) = offer t seen a in
      let (rest', ds) = pending t seen rest in (a' ∷ rest', offered d ds)

  unfoldable pub accept : String → Delivery D → Applier D → Applier D
  unfolding scope_state put_state
  accept t d a =
      let st = scope_state t a in
      put_state t
        (record st {
          accepted_seq = st.delivered_seq;
          applied_rev = revision_of d.current;
          accepted = d.current;
        })
        a

  unfoldable pub accept_at : String → Delivery D → List (Applier D) → List (Applier D)
  unfolding accept
  accept_at t d [] = []
  accept_at t d (a ∷ rest) =
      if a.id == d.applier then accept t d a ∷ rest else a ∷ accept_at t d rest

  -- One round of the loop of `recordLocked`.
  unfoldable pub record_one :
      String → Delivery D × Outcome → List (Applier D) × Scope D → List (Applier D) × Scope D
  unfolding accept_at
  record_one t (d, skipped) (rest, sc) = (rest, sc)
  record_one t (d, failed f) (rest, sc) = (rest, record sc { last_err = some f })
  record_one t (d, applied) (rest, sc) = (accept_at t d rest, sc)

  unfoldable pub record_each :
      String → List (Delivery D × Outcome) → List (Applier D) × Scope D → List (Applier D) × Scope D
  unfolding record_one
  record_each t [] s = s
  record_each t (d ∷ ds) s = record_each t ds (record_one t d s)

  -- `recordLocked`.
  unfoldable pub record_locked :
      String → List (Delivery D × Outcome) → Coordinator D → Coordinator D
  unfolding record_each put_scope scope_of clear_err_if_converged
  record_locked t ds c =
      let (rest, sc) = record_each t ds (c.appliers, scope_of t c) in
      put_scope t (clear_err_if_converged t rest sc) (record c { appliers = rest })

  -- A round of the loop of `drain` up to the calls; no delivery ends the fan-out.
  unfoldable pub next_round : String → Coordinator D → Coordinator D × List (Delivery D)
  unfolding pending put_scope scope_of
  next_round t c =
      let sc = scope_of t c in
      let (rest, ds) = pending t sc.current c.appliers in
      (
        put_scope t (record sc { delivering = not (is_empty ds) }) (record c { appliers = rest }),
        ds,
      )

  -- `drain` up to the first calls.
  unfoldable pub drain : String → Coordinator D → Coordinator D × List (Delivery D)
  unfolding next_round scope_of
  drain t c = if (scope_of t c).delivering then (c, []) else next_round t c

  -- A section of `drain` after a round's calls.
  unfoldable pub drain_on :
      String → List (Delivery D × Outcome) → Coordinator D → Coordinator D × List (Delivery D)
  unfolding record_locked next_round
  drain_on t ds c = next_round t (record_locked t ds c)

  -- `deliver` of one delivery: an applier that was removed meanwhile is skipped.
  unfoldable pub deliver : Delivery D → Option Failure → Coordinator D → Delivery D × Outcome
  unfolding has_applier
  deliver d none c = (d, if has_applier d.applier c.appliers then applied else skipped)
  deliver d (some f) c = (d, if has_applier d.applier c.appliers then failed f else skipped)

  -- The loop of `appliedLocked`.
  unfoldable pub applied_from : String → ℕ → ℕ → List (Applier D) → ℕ
  applied_from t oldest rev [] = rev
  applied_from t oldest rev (a ∷ rest) = elim (get t a.state) [
    | none ↦ 0
    | some st ↦
        applied_from t (if ltb st.accepted_seq oldest then st.accepted_seq else oldest)
          (if ltb st.accepted_seq oldest then st.applied_rev else rev) rest
  ]

  unfoldable pub applied_rev_of : String → Scope D → List (Applier D) → ℕ
  unfolding applied_from
  applied_rev_of t sc rest =
      if is_empty rest then sc.desired else applied_from t (2 ^ 64 - 1) 0 rest

  -- The row of `Status` of one scope.
  unfoldable pub status_of : String → Coordinator D → Option Status
  unfolding applied_rev_of
  status_of t c = elim (get t c.scopes) [
    | none ↦ none
    | some sc ↦ some (record {
      desired = sc.desired;
      applied = applied_rev_of t sc c.appliers;
      last_err = sc.last_err;
    })
  ]
