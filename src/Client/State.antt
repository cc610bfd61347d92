-- ===== src/Client/State.antt =====
-- The client's data: internal/client/{client,register,get,errors}.go. A value (`any`) is of type
-- `V` whether a consumer built it or JSON did; a nil context is `none`.
use lib_systemplane.Prelude.{
  ℕ, String, Bool, Option, none, some, List, [], ◌∷◌, GoMap, get, map_option, is_some,
  if◌then◌else◌,
}
use lib_systemplane.Engine.State.{
  NsKey, ns_key_comparable, Scope, Env, Registry, KeyDef, Verdict, Error,
}
use lib_systemplane.Engine.Core.{Engine}

-- What the client calls of the libraries under it: `json.Marshal`, `json.Unmarshal` into `any`,
-- `reflect.DeepEqual`, `ValidateCloneSafe`, and the tenant of a context.
pub record Host (V Ctx : Type 0) : Type 0 where
  pub marshal : V → Option (List ℕ)
  pub unmarshal : List ℕ → Option V
  pub deep_equal : V → V → Bool
  pub clone_safe : V → Bool
  pub tenant_of : Ctx → String
  pub with_tenant : Ctx → Scope → Ctx
  pub background : Ctx

-- The parts of `CatalogKeyMetadata` that hold consumer values.
pub record CatalogMetadata (V : Type 0) : Type 0 where
  pub schema : V
  pub examples : List V

-- `keyDef`.
pub record ClientKey (V Ctx : Type 0) : Type 0 where
  pub default_value : V
  pub catalog_default : V
  pub description : String
  pub validator : Option (Ctx → V → Verdict)
  pub write_validator : Option (Ctx → V → Verdict)
  pub catalog : CatalogMetadata V

pub record Client (V Ctx : Type 0) : Type 0 where
  pub engine : Engine V
  pub registry : GoMap NsKey (ClientKey V Ctx)
  pub multi_tenant : Bool
  pub tenant_managed : Bool
  pub started : Bool
  pub registry_frozen : Bool
  pub closed : Bool

-- Why a value or a registration is refused: the errors that wrap `ErrValidation`.
pub data Invalid : Type 0 where
  empty_name reserved_name not_cloneable two_validators metadata_not_cloneable : Invalid
  not_serializable no_round_trip : Invalid
  rejected : Error → Invalid

pub data ClientError : Type 0 where
  client_closed nil_context not_started register_after_start : ClientError
  unknown_key duplicate_key not_supported undecodable_row : ClientError
  validation : Invalid → ClientError
  store_failure : ℕ → ClientError
  not_published : Error → ClientError
  engine_failure : Error → ClientError

pub record ListEntry (V : Type 0) : Type 0 where
  pub key : String
  pub value : V
  pub description : String

module _ {V Ctx : Type 0} where
  -- `readBackValidator`.
  unfoldable pub read_back_validator : ClientKey V Ctx → Option (Ctx → V → Verdict)
  read_back_validator def = if is_some def.write_validator then none else def.validator

  unfoldable pub keys_of : GoMap NsKey (ClientKey V Ctx) → List NsKey
  keys_of [] = []
  keys_of ((nk, def) ∷ m) = nk ∷ keys_of m

  -- What the engine reads of a definition.
  unfoldable pub engine_def : ClientKey V Ctx → KeyDef V Ctx
  unfolding read_back_validator
  engine_def def = record { default = def.default_value; validate = read_back_validator def }

  -- The client as the engine's registry: `Lookup` and `Keys` of internal/client/registry.go.
  unfoldable pub registry_of : GoMap NsKey (ClientKey V Ctx) → Registry V Ctx
  unfolding keys_of engine_def
  registry_of m = record { lookup = λ nk. map_option engine_def (get nk m); keys = keys_of m }

  -- The engine's configuration in `newClient`.
  unfoldable pub env_of : Host V Ctx → Client V Ctx → Env V Ctx
  unfolding registry_of
  env_of host c = record {
    registry = some (registry_of c.registry);
    validator_context = some host.with_tenant;
    dispatch_context = host.background;
    unmarshal = host.unmarshal;
    deep_equal = host.deep_equal;
  }

  -- `scopeFor`.
  unfoldable pub scope_for : Host V Ctx → Client V Ctx → Ctx → Scope
  scope_for host c ctx = record { tenant = if c.multi_tenant then host.tenant_of ctx else "" }
