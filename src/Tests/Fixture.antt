-- ===== src/Tests/Fixture.antt =====
-- A service with one registered key, `payments/fee_bps`: a number of at most 100, by default 25,
-- stored as one byte.
use lib_systemplane.Prelude.{
  ℕ, ◌==◌, nat_comparable, string_comparable, if◌then◌else◌, false, Option, none, some, arith, List,
  [], ◌∷◌, leb,
}
use lib_systemplane.Engine.State.{
  NsKey, ns_key_comparable, Env, Registry, KeyDef, Verdict, accepts, refuses, Shared, ScopeState,
  StoreEntry, Arming,
}
use lib_systemplane.Engine.Scope.{new_scope_state}
use lib_systemplane.Engine.Ingest.{zero_scope}
use lib_systemplane.Engine.Publish.Serves.{DeepEqualSound}
use lib_systemplane.Engine.Reconcile.{on_resync}
use lib_systemplane.Engine.Core.{Engine}

abbrev pub fee_key : NsKey
fee_key = record { namespace = "payments"; key = "fee_bps" }

abbrev pub at_most_100 : Unit {0} → ℕ → Verdict
at_most_100 ctx n = if leb n 100 then accepts else refuses 1

abbrev pub fee_def : KeyDef ℕ (Unit {0})
fee_def = record { default = 25; validate = some at_most_100 }

abbrev pub decode : List ℕ → Option ℕ
decode (b ∷ []) = some b
decode _ = none

abbrev pub registry : Registry ℕ (Unit {0})
registry = record {
  lookup = λ nk. if nk == fee_key then some fee_def else none;
  keys = fee_key ∷ [];
}

abbrev pub env : Env ℕ (Unit {0})
env = record {
  registry = some registry;
  validator_context = none;
  dispatch_context = tt;
  unmarshal = decode;
  deep_equal = λ a b. a == b;
}

pub sound : DeepEqualSound env
sound a b h = ground arith

abbrev pub shared : Shared
shared = record {
  closed = false;
  workers_closed = false;
  subscribers = (fee_key, record { id = 1; callback = 7 } ∷ []) ∷ [];
  next_sub_id = 1;
}

abbrev pub row : ℕ → ℕ → StoreEntry
row revision value = record {
  namespace = "payments";
  key = "fee_bps";
  value = value ∷ [];
  revision = revision;
  updated_at = 9;
  updated_by = "ops@example.com";
}

unfoldable pub new_state : ScopeState ℕ
unfolding new_scope_state
new_state = new_scope_state zero_scope

unfoldable pub engine : Engine ℕ
unfolding new_state
engine = record {
  shared = shared;
  scopes = (zero_scope, 0) ∷ [];
  heap = (0, new_state) ∷ [];
  next_pointer = 1;
}

-- The scope after its first resync, and that resync's arming.
unfoldable pub resynced_state : ScopeState ℕ
unfolding new_scope_state on_resync
resynced_state = on_resync shared (new_scope_state zero_scope)

abbrev pub arm : Arming
arm = record { reconcile = 1; disconnect = 0; window = 0 }
