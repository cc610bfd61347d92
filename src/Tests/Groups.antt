-- ===== src/Tests/Groups.antt =====
-- A run of the group coordinator: one applier, one publication, its fan-out.
use lib_systemplane.Prelude.{
  ℕ, ◌+◌, ◌^◌, ◌<◌, string_comparable, nat_comparable, ◌≡◌, refl, arith, true, false, none, some,
  [], ◌∷◌, ok, get, put, is_empty,
}
use lib_systemplane.Group.Coordinator.{
  Publication, Codec, unseeded, applied, Scope, Delivery, scope_of, status_of, all_caught_up,
  caught_up, put_scope, scope_state, put_state, decoded_of, observe, stamp, any_observed,
  drops_after_seed, commit_decoded, commit_scope, commit, seed_answer, seed_locked, add,
  clear_err_if_converged, has_applier, offer, offered, pending, accept, accept_at, record_one,
  record_each, record_locked, next_round, drain, drain_on, deliver,
}
use lib_systemplane.Group.Coordinator.Runs.{
  System, Batch, new_system, at_key, stamp_step, begin_round, drain_step, record_step, call_step,
  commit_step, seed_revision, register_step, Run, begin, next, stamps, commits, registers, drains,
  calls, records,
}
use lib_systemplane.Group.Coordinator.Converged.{converged_status}

codec : Codec ℕ ℕ
codec = record { decode = λ v. ok v; marshal = λ v. some (v ∷ []) }

abbrev published : Publication ℕ
published = record { tenant = "a"; revision = 5; value = 40 }

registered : System ℕ
unfolding codec
registered = register_step codec unseeded 7 new_system

stamped : System ℕ
unfolding registered
stamped = stamp_step 5 registered

committed : System ℕ
unfolding stamped codec
committed = commit_step codec published 1 stamped

-- The call that the fan-out has ahead.
abbrev call : Delivery ℕ
call = record {
  applier = 1;
  current = some (record { tenant = "a"; revision = 5; value = 40 });
  previous = none;
}

abbrev batch : Batch ℕ
batch = record { seen = 1; limit = 1; todo = call ∷ []; finished = [] }

drained : System ℕ
unfolding committed
drained = drain_step "a" committed

called : System ℕ
unfolding drained
called = call_step "a" batch call [] none drained

abbrev done_batch : Batch ℕ
done_batch = record { seen = 1; limit = 1; todo = []; finished = (call, applied) ∷ [] }

settled : System ℕ
unfolding called
settled = record_step "a" done_batch called

small : (new_system {D = ℕ}).state.seq + 2 < 2 ^ 64
small = ground arith

small_id : (new_system {D = ℕ}).state.next_id + 2 < 2 ^ 64
small_id = ground arith

registered_run : Run codec registered
unfolding registered
registered_run = next begin (registers unseeded 7 new_system small small_id)

stamps_room : registered.state.seq + 2 < 2 ^ 64
unfolding codec registered stamped committed drained called settled register_step stamp_step
    commit_step drain_step call_step record_step begin_round at_key seed_revision add seed_locked
    any_observed seed_answer stamp commit commit_scope drops_after_seed commit_decoded observe
    decoded_of scope_of put_scope drain next_round drain_on pending offer offered scope_state
    put_state deliver has_applier record_locked record_each record_one accept_at accept
    clear_err_if_converged all_caught_up caught_up get put
stamps_room = ground arith

stamped_run : Run codec stamped
unfolding stamped
stamped_run = next registered_run (stamps 5 registered stamps_room)

in_flight : stamped.stamped 1 ≡ true
unfolding codec registered stamped committed drained called settled register_step stamp_step
    commit_step drain_step call_step record_step begin_round at_key seed_revision add seed_locked
    any_observed seed_answer stamp commit commit_scope drops_after_seed commit_decoded observe
    decoded_of scope_of put_scope drain next_round drain_on pending offer offered scope_state
    put_state deliver has_applier record_locked record_each record_one accept_at accept
    clear_err_if_converged all_caught_up caught_up get put
in_flight = refl

stamped_for : stamped.revision_at 1 ≡ published.revision
unfolding codec registered stamped committed drained called settled register_step stamp_step
    commit_step drain_step call_step record_step begin_round at_key seed_revision add seed_locked
    any_observed seed_answer stamp commit commit_scope drops_after_seed commit_decoded observe
    decoded_of scope_of put_scope drain next_round drain_on pending offer offered scope_state
    put_state deliver has_applier record_locked record_each record_one accept_at accept
    clear_err_if_converged all_caught_up caught_up get put
stamped_for = refl

committed_run : Run codec committed
unfolding committed
committed_run = next stamped_run (commits published 1 stamped in_flight stamped_for)

drained_run : Run codec drained
unfolding drained
drained_run = next committed_run (drains "a" committed)

has_call : get "a" drained.batches ≡ some batch
unfolding codec registered stamped committed drained called settled register_step stamp_step
    commit_step drain_step call_step record_step begin_round at_key seed_revision add seed_locked
    any_observed seed_answer stamp commit commit_scope drops_after_seed commit_decoded observe
    decoded_of scope_of put_scope drain next_round drain_on pending offer offered scope_state
    put_state deliver has_applier record_locked record_each record_one accept_at accept
    clear_err_if_converged all_caught_up caught_up get put
has_call = refl

called_run : Run codec called
unfolding called
called_run = next drained_run (calls "a" batch call [] none drained has_call refl)

has_made_call : get "a" called.batches ≡ some done_batch
unfolding codec registered stamped committed drained called settled register_step stamp_step
    commit_step drain_step call_step record_step begin_round at_key seed_revision add seed_locked
    any_observed seed_answer stamp commit commit_scope drops_after_seed commit_decoded observe
    decoded_of scope_of put_scope drain next_round drain_on pending offer offered scope_state
    put_state deliver has_applier record_locked record_each record_one accept_at accept
    clear_err_if_converged all_caught_up caught_up get put
has_made_call = refl

settled_run : Run codec settled
unfolding settled
settled_run = next called_run (records "a" done_batch called has_made_call refl)

settled_scope : (sc : Scope ℕ) × (get "a" settled.state.scopes ≡ some sc)
unfolding codec registered stamped committed drained called settled register_step stamp_step
    commit_step drain_step call_step record_step begin_round at_key seed_revision add seed_locked
    any_observed seed_answer stamp commit commit_scope drops_after_seed commit_decoded observe
    decoded_of scope_of put_scope drain next_round drain_on pending offer offered scope_state
    put_state deliver has_applier record_locked record_each record_one accept_at accept
    clear_err_if_converged all_caught_up caught_up get put
settled_scope = (_, refl)

has_applier_left : is_empty settled.state.appliers ≡ false
unfolding codec registered stamped committed drained called settled register_step stamp_step
    commit_step drain_step call_step record_step begin_round at_key seed_revision add seed_locked
    any_observed seed_answer stamp commit commit_scope drops_after_seed commit_decoded observe
    decoded_of scope_of put_scope drain next_round drain_on pending offer offered scope_state
    put_state deliver has_applier record_locked record_each record_one accept_at accept
    clear_err_if_converged all_caught_up caught_up get put
has_applier_left = refl

all_accepted : all_caught_up "a" settled_scope.0.latest_seq settled.state.appliers ≡ true
unfolding settled_scope codec registered stamped committed drained called settled register_step
    stamp_step commit_step drain_step call_step record_step begin_round at_key seed_revision add
    seed_locked any_observed seed_answer stamp commit commit_scope drops_after_seed commit_decoded
    observe decoded_of scope_of put_scope drain next_round drain_on pending offer offered
    scope_state put_state deliver has_applier record_locked record_each record_one accept_at accept
    clear_err_if_converged all_caught_up caught_up get put
all_accepted = refl

converged_status_example :
    status_of "a" settled.state
    ≡ some (record {
      desired = settled_scope.0.desired;
      applied = settled_scope.0.desired;
      last_err = none;
    })
converged_status_example =
    converged_status codec "a" settled_scope.0 settled_run settled_scope.1 has_applier_left
      all_accepted
