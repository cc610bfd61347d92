-- ===== src/Client/Registration/Laws.antt =====
-- What `Register` leaves behind.
use lib_systemplane.Prelude.{
  ◌≡◌, subst, refl, sym, ap, ◌∙◌, inl, inr, arith, false, ◌||◌, ◌==◌, string_comparable,
  if◌then◌else◌, Option, none, some, List, [], ◌∷◌, Result, ok, err, get, put, get-put,
  Option-cases, ℕ,
}
use lib_systemplane.Engine.State.{NsKey, ns_key_comparable}
use lib_systemplane.Engine.Ingest.{run_validator}
use lib_systemplane.Client.State.{Host, CatalogMetadata, ClientKey, Client, ClientError, Invalid}
use lib_systemplane.Client.Registration.{
  KeyOption, with_description, with_validator, with_write_validator, with_context_validator,
  with_catalog_metadata, apply_option, set_validator, set_write_validator, ignoring_context,
  canonical_key, build_key, store_key, register, apply_key_options, fold_validators,
  is_reserved_catalog_key,
}

module _ {V Ctx : Type 0} where
  -- The definition of the registered value: the catalog has it as it was passed, the default is
  -- in the shape that the store hands back, and the key's validator accepts that.
  abbrev pub Canonical : Host V Ctx → V → ClientKey V Ctx → Type 0
  Canonical host value def =
      (bytes : List ℕ) × (def.catalog_default ≡ value)
      × (host.marshal value ≡ some bytes)
      × (host.unmarshal bytes ≡ some def.default_value)
      × (run_validator def.validator host.background def.default_value ≡ none)

  canonical_key-Canonical :
      (host : Host V Ctx) (def : ClientKey V Ctx) {built : ClientKey V Ctx}
      → canonical_key host def ≡ ok built
      → Canonical host def.catalog_default built
  unfolding canonical_key
  canonical_key-Canonical host def {built} h =
      elim (Option-cases (host.marshal def.catalog_default)) [
        | inl lost ↦ absurd (ground arith)
        | inr (bytes, m) ↦ elim (Option-cases (host.unmarshal bytes)) [
          | inl lost ↦ absurd (ground arith)
          | inr (v, u) ↦ elim (Option-cases (run_validator def.validator host.background v)) [
            | inr (e, refused) ↦ absurd (ground arith)
            | inl passes ↦
                let made : record def { default_value = v } ≡ built = ground arith in
                subst (Canonical host def.catalog_default) made (bytes, refl, m, u, passes)
          ]
        ]
      ]

  apply_option_default :
      (opt : KeyOption V Ctx) (def : ClientKey V Ctx)
      → (apply_option opt def).catalog_default ≡ def.catalog_default
  unfolding apply_option set_validator set_write_validator ignoring_context
  apply_option_default (with_description s) def = refl
  apply_option_default (with_validator none) def = refl
  apply_option_default (with_validator (some fn)) def = refl
  apply_option_default (with_context_validator none) def = refl
  apply_option_default (with_context_validator (some fn)) def = refl
  apply_option_default (with_write_validator none) def = refl
  apply_option_default (with_write_validator (some fn)) def = refl
  apply_option_default (with_catalog_metadata meta) def = refl

  -- No option touches the value that was registered.
  apply_key_options_default :
      (opts : List (Option (KeyOption V Ctx))) (def : ClientKey V Ctx)
      → (apply_key_options opts def).catalog_default ≡ def.catalog_default
  unfolding apply_key_options
  apply_key_options_default [] def = refl
  apply_key_options_default (none ∷ opts) def = apply_key_options_default opts def
  apply_key_options_default (some opt ∷ opts) def =
      apply_key_options_default opts (apply_option opt def) ∙ apply_option_default opt def

  pub stored_key :
      (nk : NsKey) (built : Result Invalid (ClientKey V Ctx)) (c : Client V Ctx)
      → (store_key nk built c).1 ≡ none
      → (def : ClientKey V Ctx) × (built ≡ ok def)
        × (get nk c.registry ≡ none)
        × ((store_key nk built c).0 ≡ record c { registry = put nk def c.registry })
  unfolding store_key
  stored_key nk (err e) c h = cc
  stored_key nk (ok def) c h = elim (Option-cases (get nk c.registry)) [
    | inl fresh ↦ (def, refl, fresh, rw fresh refl)
    | inr (old, there) ↦ absurd (ground arith)
  ]

  store_key_refused :
      (nk : NsKey) (built : Result Invalid (ClientKey V Ctx)) (c : Client V Ctx) {x : ClientError}
      → (store_key nk built c).1 ≡ some x
      → (store_key nk built c).0 ≡ c
  unfolding store_key
  store_key_refused nk (err e) c h = refl
  store_key_refused nk (ok def) c h = ground arith

  built_Canonical :
      (host : Host V Ctx) (value : V) (no_metadata : CatalogMetadata V)
      (opts : List (Option (KeyOption V Ctx))) {built : ClientKey V Ctx}
      → build_key host value no_metadata opts ≡ ok built
      → Canonical host value built
  unfolding build_key fold_validators
  built_Canonical host value no_metadata opts {built} h =
      let start : ClientKey V Ctx = record {
        default_value = value;
        catalog_default = value;
        description = "";
        validator = none;
        write_validator = none;
        catalog = no_metadata;
      } in
      elim (Option-cases (fold_validators (apply_key_options opts start))) [
        | inl two ↦ absurd (ground arith)
        | inr (def, folded) ↦
            let graded : canonical_key host def ≡ ok built = ground arith in
            let kept : def.catalog_default ≡ value =
              ground (arith, apply_key_options_default opts start) in
            subst (λ v. Canonical host v built) kept (canonical_key-Canonical host def graded)
      ]

module _ {V Ctx : Type 0} (host : Host V Ctx) (nk : NsKey) (value : V)
    (no_metadata : CatalogMetadata V) (opts : List (Option (KeyOption V Ctx)))
    (c : Client V Ctx) where
  abbrev made : Client V Ctx × Option ClientError
  made = register host nk value no_metadata opts c

  pub open_register :
      made.1 ≡ none
      → (c.closed ≡ false)
        × (c.started || c.registry_frozen ≡ false)
        × (is_reserved_catalog_key nk ≡ false)
        × (made ≡ store_key nk (build_key host value no_metadata opts) c)
  unfolding register
  open_register h = ground arith

  -- `Register` that returns nil: the key was not registered, and from then on it alone has a new
  -- definition: the registered value for the catalog, and as its default what the store would hand
  -- back for that value, which the key's validator accepts. The engine is as it was.
  pub register_lookup :
      (j : NsKey)
      → made.1 ≡ none
      → (def : ClientKey V Ctx) × Canonical host value def
        × (get nk c.registry ≡ none)
        × (get j made.0.registry ≡ (if nk == j then some def else get j c.registry))
        × (made.0.engine ≡ c.engine)
  register_lookup j h =
      let (_, _, _, same) = open_register h in
      let (def, built, fresh, stored) =
        stored_key nk (build_key host value no_metadata opts) c (sym (ap (λ r. r.1) same) ∙ h) in
      let now = ap (λ r. r.0) same ∙ stored in
      (
        def,
        built_Canonical host value no_metadata opts built,
        fresh,
        ap (λ d. get j d.registry) now ∙ get-put nk j def c.registry,
        ap (λ d. d.engine) now,
      )

  -- `Register` that returns an error leaves the client as it was.
  pub register_refused : {x : ClientError} → made.1 ≡ some x → made.0 ≡ c
  unfolding register
  register_refused {x} h =
      ground (arith, store_key_refused nk (build_key host value no_metadata opts) c)
