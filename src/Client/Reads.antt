-- ===== src/Client/Reads.antt =====
-- The reads of internal/client/get.go. A read that goes to the store is split at its call, and the
-- activation of a tenant's scope, which the engine runs on its own, is a result.
pub mod Lists
pub mod Agrees
use Prim.Native.Nat.{Ordering}
use Prim.Native.String.{compare}
use lib_systemplane.Prelude.{
  ℕ, String, Bool, true, false, not, ◌&&◌, ◌==◌, string_comparable, if◌then◌else◌, Option, none,
  some, List, [], ◌∷◌, Result, ok, err, get, GoMap,
}
use lib_systemplane.Engine.State.{NsKey, ns_key_comparable, Scope, StoreEntry, Published}
use lib_systemplane.Engine.Ingest.{run_validator, zero_scope}
use lib_systemplane.Engine.Core.{lookup}
use lib_systemplane.Client.State.{
  Host, ClientKey, Client, ClientError, client_closed, nil_context, undecodable_row,
  read_back_validator, scope_for,
}

-- How a read goes on: it has its answer, or it reads the caller's database, starting the activation
-- of a scope on its way.
pub data Plan (A B : Type 0) : Type 0 where
  answered : Result ClientError A → Plan A B
  reads_store : Option Scope → B → Plan A B

-- The entry of a row that was read through.
unfoldable pub graded_entry :
    {V : Type 0}
    → StoreEntry
    → Result ClientError (V × Bool)
    → Result ClientError (Option (Published V))
graded_entry row (err e) = err e
graded_entry row (ok (value, accepted)) =
    if accepted
    then ok (
        some (record {
          value = value;
          revision = row.revision;
          updated_at = row.updated_at;
          updated_by = row.updated_by;
          stale = false;
        }))
    else ok (
        some
          (record { value = value; revision = 0; updated_at = 0; updated_by = ""; stale = false }))

module _ {V Ctx : Type 0} where
  -- The registered default as an entry, without a row behind it.
  abbrev pub default_entry : Bool → ClientKey V Ctx → Published V
  default_entry stale def = record {
    value = def.default_value;
    revision = 0;
    updated_at = 0;
    updated_by = "";
    stale = stale;
  }

  -- `singleTenantEntry`.
  unfoldable pub single_tenant_entry : NsKey → ClientKey V Ctx → Client V Ctx → Published V
  single_tenant_entry nk def c = elim ((lookup zero_scope nk c.engine).1) [
    | some published ↦ published
    | none ↦ default_entry true def
  ]

  -- `tenantScope`.
  unfoldable pub tenant_scope : Host V Ctx → Client V Ctx → Ctx → Scope × Bool
  unfolding scope_for
  tenant_scope host c ctx =
      let scope = scope_for host c ctx in (scope, c.tenant_managed && not (scope.tenant == ""))

  -- `tenantEntry` up to the store's `Get`.
  unfoldable pub tenant_begin :
      Host V Ctx
      → Ctx
      → NsKey
      → ClientKey V Ctx
      → Client V Ctx
      → Plan (Option (Published V)) (Ctx × ClientKey V Ctx)
  unfolding tenant_scope
  tenant_begin host ctx nk def c =
      let (scope, cacheable) = tenant_scope host c ctx in
      if not cacheable then reads_store none (ctx, def) else elim ((lookup scope nk c.engine).1) [
        | some e ↦ answered (ok (some e))
        | none ↦ reads_store (some scope) (ctx, def)
      ]

  -- `readThrough`: the value to serve, and whether it is the row's.
  unfoldable pub read_through :
      Host V Ctx → Ctx → ClientKey V Ctx → List ℕ → Result ClientError (V × Bool)
  unfolding read_back_validator
  read_through host ctx def raw = elim (host.unmarshal raw) [
    | none ↦ err undecodable_row
    | some decoded ↦ elim (run_validator (read_back_validator def) ctx decoded) [
      | some e ↦ ok (def.default_value, false)
      | none ↦ ok (decoded, true)
    ]
  ]

  -- `tenantEntry` from the store's answer on.
  unfoldable pub tenant_end :
      Host V Ctx
      → Ctx
      → ClientKey V Ctx
      → Result ClientError (Option StoreEntry)
      → Result ClientError (Option (Published V))
  unfolding read_through graded_entry
  tenant_end host ctx def (err e) = err e
  tenant_end host ctx def (ok none) = ok (some (default_entry false def))
  tenant_end host ctx def (ok (some row)) = graded_entry row (read_through host ctx def row.value)

  -- `getEntry` up to the store's `Get`; none is an unregistered key.
  unfoldable pub get_begin :
      Host V Ctx
      → Option Ctx
      → NsKey
      → Client V Ctx
      → Plan (Option (Published V)) (Ctx × ClientKey V Ctx)
  unfolding single_tenant_entry tenant_begin
  get_begin host none nk c = answered (err (if c.closed then client_closed else nil_context))
  get_begin host (some ctx) nk c =
      if c.closed then answered (err client_closed) else elim (get nk c.registry) [
        | none ↦ answered (ok none)
        | some def ↦
            if not c.multi_tenant
            then answered (ok (some (single_tenant_entry nk def c)))
            else tenant_begin host ctx nk def c
      ]

  unfoldable pub get_end :
      Host V Ctx
      → Result ClientError (Option StoreEntry)
      → Plan (Option (Published V)) (Ctx × ClientKey V Ctx)
      → Result ClientError (Option (Published V))
  unfolding tenant_end
  get_end host stored (answered r) = r
  get_end host stored (reads_store scope (ctx, def)) = tenant_end host ctx def stored

  -- `getEntry`, in a world where the store answers `stored`.
  unfoldable pub get_entry :
      Host V Ctx
      → Option Ctx
      → NsKey
      → Result ClientError (Option StoreEntry)
      → Client V Ctx
      → Result ClientError (Option (Published V))
  unfolding get_begin get_end
  get_entry host ctx nk stored c = get_end host stored (get_begin host ctx nk c)
