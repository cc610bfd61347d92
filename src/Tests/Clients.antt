-- ===== src/Tests/Clients.antt =====
-- A single-tenant client with one registered key, and its namespace.
use lib_systemplane.Prelude.{
  ℕ, ◌<◌, ◌≡◌, refl, sym, ◌∙◌, subst, ◌⊎◌, arith, true, false, ◌==◌, string_comparable,
  nat_comparable, if◌then◌else◌, Option, none, some, List, [], ◌∷◌, Result, ok, get, put, All,
}
use lib_systemplane.Engine.State.{
  ns_key_comparable, ns_key_beq, scope_beq, scope_comparable, ScopeState, Published,
}
use lib_systemplane.Engine.Scope.{new_scope_state}
use lib_systemplane.Engine.Dispatch.{dispatch}
use lib_systemplane.Engine.Publish.{publish}
use lib_systemplane.Engine.Publish.Serves.{EntriesCoherent, DeepEqualSound}
use lib_systemplane.Engine.Ingest.{zero_scope, run_validator, lookup_key, ingest, ingest_default}
use lib_systemplane.Engine.Feed.{publish_delete_in, delete_result}
use lib_systemplane.Engine.Core.{publish_entry, publish_delete, tracked_state}
use lib_systemplane.Client.State.{
  Host, CatalogMetadata, ClientKey, Client, ClientError, duplicate_key, env_of, registry_of,
  scope_for, engine_def,
}
use lib_systemplane.Client.Registration.{
  KeyOption, with_context_validator, register, build_key, store_key, is_reserved_catalog_key,
  canonical_key,
}
use lib_systemplane.Client.Registration.Laws.{Canonical, register_lookup, register_refused}
use lib_systemplane.Client.Writes.{
  set, set_begin, set_end, grade, published, entry_for, delete, delete_begin,
}
use lib_systemplane.Client.Writes.Served.{Graded, set_serves_get, delete_serves_get}
use lib_systemplane.Client.Reads.{get_entry}
use lib_systemplane.Client.Reads.Agrees.{Keyed}
use lib_systemplane.Tests.Fixture.{fee_key, at_most_100, decode, new_state, engine}

host : Host ℕ (Unit {0})
host = record {
  marshal = λ v. some (v ∷ []);
  unmarshal = decode;
  deep_equal = λ a b. a == b;
  clone_safe = λ v. true;
  tenant_of = λ ctx. "";
  with_tenant = λ ctx scope. ctx;
  background = tt;
}

fee_def : ClientKey ℕ (Unit {0})
fee_def = record {
  default_value = 25;
  catalog_default = 25;
  description = "";
  validator = some at_most_100;
  write_validator = none;
  catalog = record { schema = 0; examples = [] };
}

client : Client ℕ (Unit {0})
unfolding fee_def
client = record {
  engine = engine;
  registry = (fee_key, fee_def) ∷ [];
  multi_tenant = false;
  tenant_managed = false;
  started = true;
  registry_frozen = false;
  closed = false;
}

unstarted : Client ℕ (Unit {0})
unfolding client
unstarted = record client { registry = []; started = false }

graded : Option (KeyOption ℕ (Unit {0}))
graded = some (with_context_validator (some at_most_100))

registers :
    (register host fee_key 25 (record { schema = 0; examples = [] }) (graded ∷ []) unstarted).1
    ≡ none
unfolding host unstarted client register build_key store_key is_reserved_catalog_key canonical_key
    run_validator graded get
registers = refl

client-Keyed : All (Keyed client.registry) client.registry
unfolding client get ns_key_beq
client-Keyed = (refl, tt)

single : client.multi_tenant ≡ false
unfolding client
single = refl

takes : List ℕ → Result ClientError ℕ
takes bytes = ok 3

sound : DeepEqualSound (env_of host client)
unfolding host env_of
sound a b h = ground arith

stored : (set host (some tt) fee_key 40 9 "ops" takes client).1 ≡ none
unfolding host client fee_def takes set set_begin set_end grade published entry_for env_of
    registry_of scope_for engine_def publish_entry engine tracked_state get scope_beq ingest publish
    dispatch ns_key_beq lookup_key put new_state new_scope_state
stored = refl

deleted : (delete host (some tt) fee_key none client).1 ≡ none
unfolding host client fee_def delete delete_begin published env_of registry_of scope_for engine_def
    publish_delete publish_delete_in delete_result ingest_default engine tracked_state get scope_beq
    publish dispatch ns_key_beq lookup_key put new_state new_scope_state
deleted = refl

no_metadata : CatalogMetadata ℕ
no_metadata = record { schema = 0; examples = [] }

register_lookup_example :
    let made =
      register host fee_key 25 (record { schema = 0; examples = [] }) (graded ∷ []) unstarted in
    (def : ClientKey ℕ (Unit {0})) × Canonical host 25 def
    × (get fee_key unstarted.registry ≡ none)
    × (get fee_key made.0.registry
        ≡ (if fee_key == fee_key then some def else get fee_key unstarted.registry))
    × (made.0.engine ≡ unstarted.engine)
register_lookup_example =
    register_lookup host fee_key 25 (record { schema = 0; examples = [] }) (graded ∷ []) unstarted
      fee_key registers

before_start : Client ℕ (Unit {0})
unfolding client
before_start = record client { started = false }

registers_again : (register host fee_key 30 no_metadata [] before_start).1 ≡ some duplicate_key
unfolding host before_start client no_metadata register build_key store_key is_reserved_catalog_key
    canonical_key run_validator get ns_key_beq
registers_again = refl

register_refused_example : (register host fee_key 30 no_metadata [] before_start).0 ≡ before_start
register_refused_example =
    register_refused host fee_key 30 no_metadata [] before_start registers_again

new_coherent : EntriesCoherent (env_of host client) new_state
unfolding new_state get
new_coherent j c held b = cc

here_state : tracked_state zero_scope client.engine ≡ some new_state
unfolding client engine tracked_state get scope_beq
here_state = refl

engine_coherent :
    (sc : ScopeState ℕ)
    → tracked_state zero_scope client.engine ≡ some sc
    → EntriesCoherent (env_of host client) sc
engine_coherent sc h =
    let q : some new_state ≡ some sc = sym here_state ∙ h in
    let same : new_state ≡ sc = cc in
    subst (λ s. EntriesCoherent (env_of host client) s) same new_coherent

set_serves_get_example :
    let c = (set host (some tt) fee_key 40 9 "ops" takes client).0 in
    (bytes : List ℕ) × (revision : ℕ) × (p : Published ℕ) × (host.marshal 40 ≡ some bytes)
    × (takes bytes ≡ ok revision)
    × Graded host client tt fee_key bytes
    × (get_entry host (some tt) fee_key (ok none) c ≡ ok (some p))
    × ((revision < p.revision) ⊎ ((p.revision ≡ revision) × (host.unmarshal bytes ≡ some p.value)))
set_serves_get_example =
    set_serves_get host client tt fee_key 40 9 "ops" takes (ok none) sound engine_coherent single
      stored

delete_serves_get_example :
    (def : ClientKey ℕ (Unit {0})) × (p : Published ℕ) × (◌≡◌ {A = Option ClientError} none none)
    × (get fee_key client.registry ≡ some def)
    × (get_entry host (some tt) fee_key (ok none) (delete host (some tt) fee_key none client).0
        ≡ ok (some p))
    × (p.value ≡ def.default_value)
    × (p.revision ≡ 0)
delete_serves_get_example = delete_serves_get host client tt fee_key none (ok none) single deleted

-- A tenant of a managed client whose scope the engine does not track yet.
tenant_host : Host ℕ (Unit {0})
unfolding host
tenant_host = record host { tenant_of = λ ctx. "acme" }

managed : Client ℕ (Unit {0})
unfolding client
managed = record client { multi_tenant = true; tenant_managed = true }
