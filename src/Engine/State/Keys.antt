-- ===== src/Engine/State/Keys.antt =====
-- The keys of the engine's maps: `store.Scope`, `NsKey`, `retryKey`, with Go's `==` on structs.
use lib_systemplane.Prelude.{
  String, Bool, true, false, ◌≡◌, ◌↔◌, ◌&&◌, arith, Comparable, ◌==◌, string_comparable,
  if◌then◌else◌,
}

pub record Scope : Type 0 where
  pub tenant : String

pub record NsKey : Type 0 where
  pub namespace : String
  pub key : String

pub record RetryKey : Type 0 where
  pub ns_key : NsKey
  pub deleted : Bool

unfoldable pub scope_beq : Scope → Scope → Bool
scope_beq a b = a.tenant == b.tenant

pub scope_beq_iff : (a b : Scope) → (scope_beq a b ≡ true) ↔ (a ≡ b)
unfolding scope_beq
scope_beq_iff a b = ground (arith, string_comparable.equal_iff a.tenant b.tenant)

unfoldable pub ns_key_beq : NsKey → NsKey → Bool
ns_key_beq a b = a.namespace == b.namespace && a.key == b.key

pub ns_key_beq_iff : (a b : NsKey) → (ns_key_beq a b ≡ true) ↔ (a ≡ b)
unfolding ns_key_beq
ns_key_beq_iff a b = ground (
  arith,
  string_comparable.equal_iff a.namespace b.namespace,
  string_comparable.equal_iff a.key b.key,
)

bool_beq : Bool → Bool → Bool
bool_beq true b = b
bool_beq false b = if b then false else true

unfoldable pub retry_key_beq : RetryKey → RetryKey → Bool
unfolding bool_beq ns_key_beq
retry_key_beq a b = ns_key_beq a.ns_key b.ns_key && bool_beq a.deleted b.deleted

pub retry_key_beq_iff : (a b : RetryKey) → (retry_key_beq a b ≡ true) ↔ (a ≡ b)
unfolding bool_beq retry_key_beq
retry_key_beq_iff a b = ground (arith, ns_key_beq_iff a.ns_key b.ns_key)

instance abbrev pub scope_comparable : Comparable Scope
scope_comparable = record { equal = scope_beq; equal_iff = scope_beq_iff }

instance abbrev pub ns_key_comparable : Comparable NsKey
ns_key_comparable = record { equal = ns_key_beq; equal_iff = ns_key_beq_iff }

instance abbrev pub retry_key_comparable : Comparable RetryKey
retry_key_comparable = record { equal = retry_key_beq; equal_iff = retry_key_beq_iff }
