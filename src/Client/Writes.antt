-- ===== src/Client/Writes.antt =====
-- `Set` and `Delete` of internal/client/set.go. A write is split at the store's call.
pub mod Served
use lib_systemplane.Prelude.{
  ℕ, String, Bool, true, false, not, if◌then◌else◌, Option, none, some, List, Result, ok, err, get,
  has,
}
use lib_systemplane.Engine.State.{
  NsKey, ns_key_comparable, Scope, StoreEntry, Error, closed, scope_not_tracked,
}
use lib_systemplane.Engine.Ingest.{run_validator}
use lib_systemplane.Engine.Core.{publish_entry, publish_delete}
use lib_systemplane.Client.State.{
  Host, ClientKey, Client, ClientError, client_closed, nil_context, not_started, unknown_key,
  validation, Invalid, not_serializable, no_round_trip, rejected, store_failure, not_published,
  env_of, scope_for,
}

-- The row that `Set` stores and publishes.
unfoldable pub entry_for : NsKey → List ℕ → ℕ → String → ℕ → StoreEntry
entry_for nk bytes now actor revision = record {
  namespace = nk.namespace;
  key = nk.key;
  value = bytes;
  revision = revision;
  updated_at = now;
  updated_by = actor;
}

module _ {V Ctx : Type 0} where
  -- The grading of a write, by the validator that the key was registered with.
  unfoldable pub grade : Host V Ctx → Ctx → ClientKey V Ctx → List ℕ → Option Invalid
  grade host ctx def bytes = elim def.validator [
    | none ↦ none
    | some validate ↦ elim (host.unmarshal bytes) [
      | none ↦ some no_round_trip
      | some v ↦ elim (run_validator (some validate) ctx v) [
        | none ↦ none
        | some e ↦ some (rejected e)
      ]
    ]
  ]

  -- `Set` before the store's call: the bytes to store, or an error. A nil context is `none`.
  unfoldable pub set_begin :
      Host V Ctx → Option Ctx → NsKey → V → Client V Ctx → Result ClientError (Ctx × List ℕ)
  unfolding grade
  set_begin host none nk value c = err (if c.closed then client_closed else nil_context)
  set_begin host (some ctx) nk value c =
      if c.closed
      then err client_closed
      else if not c.started
      then err not_started
      else elim (get nk c.registry) [
        | none ↦ err unknown_key
        | some def ↦ elim (host.marshal value) [
          | none ↦ err (validation not_serializable)
          | some bytes ↦ elim (grade host ctx def bytes) [
            | some e ↦ err (validation e)
            | none ↦ ok (ctx, bytes)
          ]
        ]
      ]

  -- `published`.
  unfoldable pub published : Client V Ctx → Option Error → Option ClientError
  published c none = none
  published c (some closed) = some client_closed
  published c (some scope_not_tracked) = if c.multi_tenant then none else some not_started
  published c (some e) = some (not_published e)

  unfoldable pub set_end :
      Host V Ctx
      → Ctx
      → NsKey
      → List ℕ
      → ℕ
      → String
      → Result ClientError ℕ
      → Client V Ctx
      → Client V Ctx × Option ClientError
  unfolding published entry_for
  set_end host ctx nk bytes now actor (err e) c = (c, some e)
  set_end host ctx nk bytes now actor (ok revision) c =
      let (e', failure) =
        publish_entry (env_of host c) ctx (scope_for host c ctx)
          (entry_for nk bytes now actor revision) c.engine in
      (record c { engine = e' }, published c failure)

  -- `Set`, in a world where the store answers a call with `stored`.
  unfoldable pub set :
      Host V Ctx
      → Option Ctx
      → NsKey
      → V
      → ℕ
      → String
      → (List ℕ → Result ClientError ℕ)
      → Client V Ctx
      → Client V Ctx × Option ClientError
  unfolding set_begin
  set host ctx nk value now actor stored c = elim (set_begin host ctx nk value c) [
    | err e ↦ (c, some e)
    | ok (ctx', bytes) ↦ set_end host ctx' nk bytes now actor (stored bytes) c
  ]

  -- `Delete` before the store's call.
  unfoldable pub delete_begin : Option Ctx → NsKey → Client V Ctx → Result ClientError Ctx
  delete_begin none nk c = err (if c.closed then client_closed else nil_context)
  delete_begin (some ctx) nk c =
      if c.closed
      then err client_closed
      else if not c.started
      then err not_started
      else if has nk c.registry
      then ok ctx
      else err unknown_key

  unfoldable pub delete :
      Host V Ctx
      → Option Ctx
      → NsKey
      → Option ClientError
      → Client V Ctx
      → Client V Ctx × Option ClientError
  unfolding delete_begin published
  delete host ctx nk stored c = elim (delete_begin ctx nk c) [
    | err e ↦ (c, some e)
    | ok ctx' ↦ elim stored [
      | some e ↦ (c, some e)
      | none ↦
          let (e', failure) = publish_delete (env_of host c) (scope_for host c ctx') nk c.engine in
          (record c { engine = e' }, published c failure)
    ]
  ]
