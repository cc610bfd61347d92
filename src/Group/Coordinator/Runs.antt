-- ===== src/Group/Coordinator/Runs.antt =====
-- The coordinator's callers, interleaved: every section that holds the mutex is one step, and so is
-- every call of an apply function. Beside the coordinator a run keeps the fan-outs that are under
-- way, at most one for each scope, and three things that the code keeps on its goroutines' stacks:
-- the stamped publications that are still being decoded, which revision each sequence number was
-- stamped for, and the scopes whose publisher or registrant has yet to call `drain`.
use lib_systemplane.Prelude.{
  ℕ, ◌+◌, ◌^◌, ◌<◌, ◌≡◌, ◌==◌, nat_comparable, string_comparable, inc64, if◌then◌else◌, Bool, true,
  false, Result, ok, err, ◌||◌, ◌&&◌, not, Option, some, List, [], ◌∷◌, ◌++◌, String, GoMap, get,
  put, del, is_empty,
}
use lib_systemplane.Group.Coordinator.{
  Failure, Publication, Delivery, Outcome, Coordinator, Codec, Seed, unseeded, unreadable, seeded,
  new_coordinator, scope_of, stamp, commit, add, remove, drain, drain_on, deliver,
}

-- One round of a fan-out: the sequence number that it offers, the ids that were given out when it
-- began, the calls ahead and the calls made, oldest first.
pub record Batch (D : Type 0) : Type 0 where
  pub seen : ℕ
  pub limit : ℕ
  pub todo : List (Delivery D)
  pub finished : List (Delivery D × Outcome)

pub record System (D : Type 0) : Type 0 where
  pub state : Coordinator D
  pub batches : GoMap String (Batch D)
  pub stamped : ℕ → Bool
  pub revision_at : ℕ → ℕ
  pub owed : String → Bool

unfoldable pub at_key : ℕ → ℕ → (ℕ → ℕ) → ℕ → ℕ
at_key n v f k = if k == n then v else f k

module _ {D : Type 0} where
  abbrev pub new_system : System D
  new_system = record {
    state = new_coordinator;
    batches = [];
    stamped = λ n. false;
    revision_at = λ n. 0;
    owed = λ t. false;
  }

  unfoldable pub stamp_step : ℕ → System D → System D
  unfolding stamp at_key
  stamp_step revision s = record s {
    state = stamp s.state;
    stamped = λ k. k == inc64 s.state.seq || s.stamped k;
    revision_at = at_key (inc64 s.state.seq) revision s.revision_at;
  }

  -- The round that the coordinator has just begun, or none where the fan-out ended.
  unfoldable pub begin_round : String → Coordinator D × List (Delivery D) → System D → System D
  unfolding scope_of
  begin_round t (c, ds) s = record s {
    state = c;
    batches =
        if is_empty ds
        then del t s.batches
        else put t
            (record {
              seen = (scope_of t c).current.seq;
              limit = c.next_id;
              todo = ds;
              finished = [];
            })
            s.batches;
  }

  unfoldable pub drain_step : String → System D → System D
  unfolding scope_of begin_round
  drain_step t s =
      let s' = record s { owed = λ u. not (u == t) && s.owed u } in
      if (scope_of t s.state).delivering then s' else begin_round t (drain t s.state) s'

  unfoldable pub record_step : String → Batch D → System D → System D
  unfolding begin_round
  record_step t b s = begin_round t (drain_on t b.finished s.state) s

  unfoldable pub call_step :
      String → Batch D → Delivery D → List (Delivery D) → Option Failure → System D → System D
  call_step t b d rest f s = record s {
    batches =
        put t (record b { todo = rest; finished = b.finished ++ deliver d f s.state ∷ [] })
          s.batches;
  }

  unfoldable pub remove_step : ℕ → System D → System D
  remove_step id s = record s { state = remove id s.state }

unfoldable pub seed_revision : {V : Type 0} → Seed V → ℕ
seed_revision unseeded = 0
seed_revision (unreadable f) = 0
seed_revision (seeded p) = p.revision

-- `err == nil`: `Publish` returns before its drain where the document does not decode.
abbrev pub decodes : {D : Type 0} → Result Failure D → Bool
decodes (ok d) = true
decodes (err f) = false

module _ {V D : Type 0} (codec : Codec V D) where
  unfoldable pub commit_step : Publication V → ℕ → System D → System D
  commit_step p n s = record s {
    state = (commit codec p n s.state).0;
    stamped = λ k. not (k == n) && s.stamped k;
    owed = λ u.
        (u == p.tenant && ((commit codec p n s.state).1 && decodes (codec.decode p.value)))
        || s.owed u;
  }

  unfoldable pub register_step : Seed V → ℕ → System D → System D
  unfolding at_key seed_revision
  register_step answer fn s = record s {
    state = add codec answer fn s.state;
    revision_at = at_key (inc64 s.state.seq) (seed_revision answer) s.revision_at;
    owed = λ u. (scope_of u (add codec answer fn s.state)).observed || s.owed u;
  }

  -- Fewer than 2 ^ 64 - 2 publications and registrations: the counters do not wrap.
  pub data Step : System D → System D → Type 0 where
    stamps :
        (revision : ℕ) (s : System D) → s.state.seq + 2 < 2 ^ 64 → Step s (stamp_step revision s)
    commits :
        (p : Publication V) (n : ℕ) (s : System D)
        → s.stamped n ≡ true
        → s.revision_at n ≡ p.revision
        → Step s (commit_step p n s)
    registers :
        (answer : Seed V) (fn : ℕ) (s : System D)
        → s.state.seq + 2 < 2 ^ 64
        → s.state.next_id + 2 < 2 ^ 64
        → Step s (register_step answer fn s)
    removes : (id : ℕ) (s : System D) → Step s (remove_step id s)
    drains : (t : String) (s : System D) → Step s (drain_step t s)
    calls :
        (t : String) (b : Batch D) (d : Delivery D) (rest : List (Delivery D)) (f : Option Failure)
        (s : System D)
        → get t s.batches ≡ some b
        → b.todo ≡ d ∷ rest
        → Step s (call_step t b d rest f s)
    records :
        (t : String) (b : Batch D) (s : System D)
        → get t s.batches ≡ some b
        → b.todo ≡ []
        → Step s (record_step t b s)

  pub data Run : System D → Type 0 where
    begin : Run new_system
    next : {s u : System D} → Run s → Step s u → Run u
