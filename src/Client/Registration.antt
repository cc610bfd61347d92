-- ===== src/Client/Registration.antt =====
-- `Register` of internal/client/register.go.
pub mod Laws
use text.Mathlib.Text.{starts_with}
use lib_systemplane.Prelude.{
  Bool, true, false, not, ◌&&◌, ◌||◌, ◌==◌, string_comparable, if◌then◌else◌, Option, none, some,
  List, [], ◌∷◌, get, put, has, is_some, Result, ok, err, String,
}
use lib_systemplane.Engine.State.{NsKey, ns_key_comparable, Error, Verdict}
use lib_systemplane.Engine.Ingest.{run_validator}
use lib_systemplane.Client.State.{
  Host, CatalogMetadata, ClientKey, Client, ClientError, client_closed, register_after_start,
  duplicate_key, validation, Invalid, empty_name, reserved_name, not_cloneable, two_validators,
  metadata_not_cloneable, not_serializable, no_round_trip, rejected,
}

unfoldable pub is_reserved_catalog_key : NsKey → Bool
is_reserved_catalog_key nk =
    nk.namespace == "-" && (nk.key == "catalog" || starts_with nk.key "catalog/")

-- A `KeyOption` of internal/client/options.go; a nil function is `none`.
pub data KeyOption (V Ctx : Type 0) : Type 0 where
  with_description : String → KeyOption V Ctx
  with_validator with_write_validator : Option (V → Verdict) → KeyOption V Ctx
  with_context_validator : Option (Ctx → V → Verdict) → KeyOption V Ctx
  with_catalog_metadata : CatalogMetadata V → KeyOption V Ctx

module _ {V Ctx : Type 0} where
  -- `def.validator = fn`, unless it is nil.
  unfoldable pub set_validator : Option (Ctx → V → Verdict) → ClientKey V Ctx → ClientKey V Ctx
  set_validator none def = def
  set_validator (some fn) def = record def { validator = some fn }

  unfoldable pub set_write_validator :
      Option (Ctx → V → Verdict) → ClientKey V Ctx → ClientKey V Ctx
  set_write_validator none def = def
  set_write_validator (some fn) def = record def { write_validator = some fn }

  unfoldable pub ignoring_context : Option (V → Verdict) → Option (Ctx → V → Verdict)
  ignoring_context none = none
  ignoring_context (some fn) = some (λ ctx v. fn v)

  unfoldable pub apply_option : KeyOption V Ctx → ClientKey V Ctx → ClientKey V Ctx
  unfolding set_validator set_write_validator ignoring_context
  apply_option (with_description s) def = record def { description = s }
  apply_option (with_validator fn) def = set_validator (ignoring_context fn) def
  apply_option (with_context_validator fn) def = set_validator fn def
  apply_option (with_write_validator fn) def = set_write_validator (ignoring_context fn) def
  apply_option (with_catalog_metadata meta) def = record def { catalog = meta }

  unfoldable pub apply_key_options :
      List (Option (KeyOption V Ctx)) → ClientKey V Ctx → ClientKey V Ctx
  unfolding apply_option
  apply_key_options [] def = def
  apply_key_options (none ∷ opts) def = apply_key_options opts def
  apply_key_options (some opt ∷ opts) def = apply_key_options opts (apply_option opt def)

  unfoldable pub all_clone_safe : Host V Ctx → List V → Bool
  all_clone_safe host [] = true
  all_clone_safe host (v ∷ vs) = host.clone_safe v && all_clone_safe host vs

  -- `validateCatalogCloneSafe`.
  unfoldable pub catalog_clone_safe : Host V Ctx → CatalogMetadata V → Bool
  unfolding all_clone_safe
  catalog_clone_safe host meta = host.clone_safe meta.schema && all_clone_safe host meta.examples

  -- A write validator is folded into the validator; two kinds of validator are refused.
  unfoldable pub fold_validators : ClientKey V Ctx → Option (ClientKey V Ctx)
  fold_validators def =
      if is_some def.write_validator
      then (if is_some def.validator
          then none
          else some (record def { validator = def.write_validator }))
      else some def

  -- `canonicalValue`, and the grading of the default.
  unfoldable pub canonical_key : Host V Ctx → ClientKey V Ctx → Result Invalid (ClientKey V Ctx)
  canonical_key host def = elim (host.marshal def.catalog_default) [
    | none ↦ err not_serializable
    | some bytes ↦ elim (host.unmarshal bytes) [
      | none ↦ err not_serializable
      | some v ↦ elim (run_validator def.validator host.background v) [
        | some e ↦ err (rejected e)
        | none ↦ ok (record def { default_value = v })
      ]
    ]
  ]

  -- The definition that `Register` would store, or why it refuses it.
  unfoldable pub build_key :
      Host V Ctx
      → V
      → CatalogMetadata V
      → List (Option (KeyOption V Ctx))
      → Result Invalid (ClientKey V Ctx)
  unfolding apply_key_options fold_validators catalog_clone_safe canonical_key
  build_key host value no_metadata opts =
      if not (host.clone_safe value)
      then err not_cloneable
      else elim (fold_validators (
          apply_key_options opts (record {
            default_value = value;
            catalog_default = value;
            description = "";
            validator = none;
            write_validator = none;
            catalog = no_metadata;
          }))) [
            | none ↦ err two_validators
            | some def ↦
                if not (catalog_clone_safe host def.catalog)
                then err metadata_not_cloneable
                else canonical_key host def
          ]

  unfoldable pub store_key :
      NsKey → Result Invalid (ClientKey V Ctx) → Client V Ctx → Client V Ctx × Option ClientError
  store_key nk (err e) c = (c, some (validation e))
  store_key nk (ok def) c =
      if has nk c.registry
      then (c, some duplicate_key)
      else (record c { registry = put nk def c.registry }, none)

  -- `Register`; `no_metadata` is the zero `CatalogKeyMetadata`.
  unfoldable pub register :
      Host V Ctx
      → NsKey
      → V
      → CatalogMetadata V
      → List (Option (KeyOption V Ctx))
      → Client V Ctx
      → Client V Ctx × Option ClientError
  unfolding build_key store_key is_reserved_catalog_key
  register host nk value no_metadata opts c =
      if c.closed
      then (c, some client_closed)
      else if c.started || c.registry_frozen
      then (c, some register_after_start)
      else if nk.namespace == "" || nk.key == ""
      then (c, some (validation empty_name))
      else if is_reserved_catalog_key nk
      then (c, some (validation reserved_name))
      else store_key nk (build_key host value no_metadata opts) c

  -- `IsRegistered`.
  unfoldable pub is_registered : NsKey → Client V Ctx → Bool
  is_registered nk c = if c.closed then false else has nk c.registry

  -- `KeyDescription`.
  unfoldable pub key_description : NsKey → Client V Ctx → String
  key_description nk c =
      if c.closed then "" else elim (get nk c.registry) [ none ↦ "" | some def ↦ def.description ]
