-- ===== src/Tests/Starts.antt =====
-- A `Start` after one whose first reconcile failed.
use lib_systemplane.Prelude.{ℕ, ◌≡◌, refl, true, false, some, [], ◌∷◌, get, ok}
use lib_systemplane.Engine.State.{scope_beq, ScopeState, undecodable}
use lib_systemplane.Engine.Scope.{new_scope_state}
use lib_systemplane.Engine.Ingest.{zero_scope}
use lib_systemplane.Engine.Core.{Engine, tracked_state}
use lib_systemplane.Engine.Lifecycle.{must_subscribe, start_begin}
use lib_systemplane.Engine.Lifecycle.Restart.{failed_start_retried}
use lib_systemplane.Tests.Fixture.{env, shared}

failed_state : ScopeState ℕ
unfolding new_scope_state
failed_state = record (new_scope_state zero_scope) {
  unsubscribe = some 4;
  first_reconcile = some (some undecodable);
}

failed_engine : Engine ℕ
unfolding failed_state
failed_engine = record {
  shared = shared;
  scopes = (zero_scope, 0) ∷ [];
  heap = (0, failed_state) ∷ [];
  next_pointer = 1;
}

failed_open : failed_engine.shared.closed ≡ false
unfolding failed_engine
failed_open = refl

failed_tracked : tracked_state zero_scope failed_engine ≡ some failed_state
unfolding failed_engine tracked_state get scope_beq
failed_tracked = refl

failed_first : failed_state.first_reconcile ≡ some (some undecodable)
unfolding failed_state
failed_first = refl

failed_start_retried_example :
    ((start_begin env true failed_engine).1 ≡ ok (must_subscribe failed_engine.next_pointer))
    × ((start_begin env true failed_engine).2 ≡ failed_state.unsubscribe)
    × (tracked_state zero_scope (start_begin env true failed_engine).0
        ≡ some (new_scope_state zero_scope))
failed_start_retried_example =
    failed_start_retried env failed_engine failed_state failed_open refl failed_tracked failed_first
