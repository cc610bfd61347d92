-- ===== src/Engine/Ingest.antt =====
-- The ingress of values into a scope: internal/engine/ingest.go. The sections under the scope's
-- reconcile mutex are functions of their own (`ingest_begin`, `ingest_commit`), so that what runs
-- between two of them can be stated.
pub mod Outcome
use lib_systemplane.Prelude.{
  ℕ, ◌==◌, if◌then◌else◌, not, ◌&&◌, ◌||◌, Bool, true, false, Option, none, some, List, [], Result,
  ok, err,
}
use lib_systemplane.Engine.State.{
  Scope, NsKey, scope_comparable, Env, Registry, KeyDef, Verdict, accepts, panics, refuses, Shared,
  ScopeState, StoreEntry, FeedFence, Publication, Error, unregistered_key, undecodable,
  validator_panicked, refused_by_validator,
}
use lib_systemplane.Engine.Windows.{record_key}
use lib_systemplane.Engine.Scope.{superseded_by_delete, no_fence}
use lib_systemplane.Engine.Publish.{publish}

abbrev pub key_of : StoreEntry → NsKey
key_of se = record { namespace = se.namespace; key = se.key }

-- The single-tenant scope, `store.Scope{}`.
abbrev pub zero_scope : Scope
zero_scope = record { tenant = "" }

module _ {V : Type 0} where
  abbrev pub publication_of : Scope → StoreEntry → V → Publication V
  publication_of scope se v = record {
    scope = scope;
    ns_key = key_of se;
    revision = se.revision;
    value = v;
    raw = se.value;
    deleted = false;
    updated_at = se.updated_at;
    updated_by = se.updated_by;
  }

  -- The registered default at revision 0.
  abbrev pub default_publication : Scope → NsKey → V → Bool → Publication V
  default_publication scope nk v deleted = record {
    scope = scope;
    ns_key = nk;
    revision = 0;
    value = v;
    raw = [];
    deleted = deleted;
    updated_at = 0;
    updated_by = "";
  }

  -- The first section: the key is fenced as unusable before consumer code runs.
  unfoldable pub ingest_begin : NsKey → ScopeState V → ScopeState V
  unfolding record_key
  ingest_begin nk sc = record_key nk false sc

  -- What the second section makes of `publish`'s answer.
  unfoldable pub conclude :
      NsKey → Bool → ScopeState V × Result Error Bool → ScopeState V × Option Error
  conclude nk pregraded (sc, ok notify) = (record_key nk true sc, none)
  conclude nk pregraded (sc, err e) = (record_key nk false sc, if pregraded then some e else none)

module _ {V Ctx : Type 0} where
  -- A panic of the validator is recovered as a validation error.
  unfoldable pub run_validator : Option (Ctx → V → Verdict) → Ctx → V → Option Error
  run_validator none ctx v = none
  run_validator (some validate) ctx v = elim (validate ctx v) [
    | accepts ↦ none
    | panics ↦ some validator_panicked
    | refuses e ↦ some (refused_by_validator e)
  ]

module _ {V Ctx : Type 0} (env : Env V Ctx) where
  -- `Engine.lookup`: a nil registry knows no key.
  unfoldable pub lookup_key : NsKey → Option (KeyDef V Ctx)
  lookup_key nk = elim env.registry [ none ↦ none | some r ↦ r.lookup nk ]

  unfoldable pub registered_keys : List NsKey
  registered_keys = elim env.registry [ none ↦ [] | some r ↦ r.keys ]

  unfoldable pub validator_ctx : Ctx → Scope → Ctx
  validator_ctx ctx scope = elim env.validator_context [
    | none ↦ ctx
    | some derive ↦ if scope == zero_scope then ctx else derive ctx scope
  ]

  unfoldable pub prepare : Ctx → Scope → StoreEntry → Bool → Result Error (Publication V)
  unfolding validator_ctx run_validator
  prepare ctx scope se pregraded = elim (lookup_key (key_of se)) [
    | none ↦ err unregistered_key
    | some def ↦ elim (env.unmarshal se.value) [
      | none ↦ err undecodable
      | some v ↦
          elim (if pregraded
            then none
            else run_validator def.validate (validator_ctx ctx scope) v) [
              | some e ↦ err e
              | none ↦ ok (publication_of scope se v)
            ]
    ]
  ]

  -- The second section: the publication and the outcome recorded in the open windows.
  unfoldable pub ingest_commit :
      Shared
      → NsKey
      → Result Error (Publication V)
      → FeedFence
      → Bool
      → ScopeState V
      → ScopeState V × Option Error
  unfolding conclude superseded_by_delete
  ingest_commit g nk (err e) fence pregraded sc = (record_key nk false sc, some e)
  ingest_commit g nk (ok p) fence pregraded sc =
      if superseded_by_delete nk fence sc
      then (record_key nk false sc, none)
      else conclude nk pregraded (publish env g p sc)

  unfoldable pub ingest :
      Shared → Ctx → StoreEntry → FeedFence → Bool → ScopeState V → ScopeState V × Option Error
  unfolding ingest_begin ingest_commit prepare
  ingest g ctx se fence pregraded sc =
      ingest_commit g (key_of se) (prepare ctx sc.scope se pregraded) fence pregraded
        (ingest_begin (key_of se) sc)

  unfoldable pub ingest_default :
      Shared → NsKey → Bool → ScopeState V → ScopeState V × Result Error Bool
  ingest_default g nk deleted sc = elim (lookup_key nk) [
    | none ↦ (sc, err unregistered_key)
    | some def ↦ publish env g (default_publication sc.scope nk def.default deleted) sc
  ]
