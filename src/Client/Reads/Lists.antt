-- ===== src/Client/Reads/Lists.antt =====
-- `List` of internal/client/get.go.
use Prim.Native.Nat.{Ordering}
use Prim.Native.String.{compare}
use lib_systemplane.Prelude.{
  ℕ, String, Bool, true, false, not, ◌&&◌, ◌==◌, string_comparable, if◌then◌else◌, Option, none,
  some, List, [], ◌∷◌, Result, ok, err, get, put, GoMap,
}
use lib_systemplane.Engine.State.{NsKey, ns_key_comparable, Scope, StoreEntry, Published}
use lib_systemplane.Engine.Ingest.{zero_scope}
use lib_systemplane.Engine.Core.{lookup}
use lib_systemplane.Client.State.{
  Host, ClientKey, Client, ClientError, client_closed, nil_context, ListEntry,
}
use lib_systemplane.Client.Reads.{Plan, answered, reads_store, tenant_scope, read_through}

-- Go's `<` on strings.
unfoldable pub string_ltb : String → String → Bool
string_ltb s t = elim (compare s t) [
  | Ordering.lt ↦ true
  | Ordering.eq ↦ false
  | Ordering.gt ↦ false
]

-- `storedByKey`: of two rows of one key the later one counts.
unfoldable pub stored_by_key :
    String → List StoreEntry → GoMap String (List ℕ) → GoMap String (List ℕ)
stored_by_key namespace [] m = m
stored_by_key namespace (row ∷ rows) m =
    stored_by_key namespace rows (if row.namespace == namespace then put row.key row.value m else m)

-- `registeredKey`.
abbrev pub RegisteredKey : Type 0 → Type 0 → Type 0
RegisteredKey V Ctx = NsKey × ClientKey V Ctx

module _ {V Ctx : Type 0} where
  unfoldable pub insert_key :
      RegisteredKey V Ctx → List (RegisteredKey V Ctx) → List (RegisteredKey V Ctx)
  insert_key rk [] = rk ∷ []
  insert_key rk (other ∷ rks) =
      if string_ltb (other.0).key (rk.0).key then other ∷ insert_key rk rks else rk ∷ other ∷ rks

  -- The keys of a namespace, sorted as `sort.Slice` leaves them: names are distinct.
  unfoldable pub keys_in : String → GoMap NsKey (ClientKey V Ctx) → List (RegisteredKey V Ctx)
  unfolding insert_key
  keys_in namespace [] = []
  keys_in namespace ((nk, def) ∷ m) =
      if nk.namespace == namespace
      then insert_key (nk, def) (keys_in namespace m)
      else keys_in namespace m

  abbrev pub list_entry : RegisteredKey V Ctx → V → ListEntry V
  list_entry rk v = record { key = (rk.0).key; value = v; description = (rk.1).description }

  unfoldable pub engine_value : RegisteredKey V Ctx → Option (Published V) → V × Bool
  engine_value rk none = ((rk.1).default_value, false)
  engine_value rk (some published) = (published.value, true)

  -- `listFromEngine`: the entries, and whether every key was cached.
  unfoldable pub list_from_engine :
      Scope → List (RegisteredKey V Ctx) → Client V Ctx → List (ListEntry V) × Bool
  unfolding engine_value
  list_from_engine scope [] c = ([], true)
  list_from_engine scope (rk ∷ rks) c =
      let (v, hit) = engine_value rk ((lookup scope (rk.0) c.engine).1) in
      let (entries, cached) = list_from_engine scope rks c in
      (list_entry rk v ∷ entries, hit && cached)

  unfoldable pub stored_value :
      Host V Ctx → Ctx → ClientKey V Ctx → Option (List ℕ) → Result ClientError V
  unfolding read_through
  stored_value host ctx def none = ok def.default_value
  stored_value host ctx def (some raw) = elim (read_through host ctx def raw) [
    | err e ↦ err e
    | ok (v, accepted) ↦ ok v
  ]

  -- The loop of `listFromStore`.
  unfoldable pub graded_list :
      Host V Ctx
      → Ctx
      → List (RegisteredKey V Ctx)
      → GoMap String (List ℕ)
      → Result ClientError (List (ListEntry V))
  unfolding stored_value
  graded_list host ctx [] stored = ok []
  graded_list host ctx (rk ∷ rks) stored =
      let rest = graded_list host ctx rks stored in
      elim (stored_value host ctx (rk.1) (get (rk.0).key stored)) [
        | err e ↦ err e
        | ok v ↦ elim rest [ err e ↦ err e | ok entries ↦ ok (list_entry rk v ∷ entries) ]
      ]

  -- `listFromStore`.
  unfoldable pub list_from_store :
      Host V Ctx
      → Ctx
      → String
      → List (RegisteredKey V Ctx)
      → Result ClientError (List StoreEntry)
      → Result ClientError (List (ListEntry V))
  unfolding stored_by_key graded_list
  list_from_store host ctx namespace rks (err e) = err e
  list_from_store host ctx namespace rks (ok rows) =
      graded_list host ctx rks (stored_by_key namespace rows [])

  -- `List` from the sorted keys on, up to the store's `List`.
  unfoldable pub list_begin :
      Host V Ctx → Ctx → List (RegisteredKey V Ctx) → Client V Ctx → Plan (List (ListEntry V)) Ctx
  unfolding tenant_scope list_from_engine
  list_begin host ctx [] c = answered (ok [])
  list_begin host ctx (rk ∷ rks) c =
      if not c.multi_tenant
      then answered (ok ((list_from_engine zero_scope (rk ∷ rks) c).0))
      else (let (scope, cacheable) = tenant_scope host c ctx in
          if not cacheable
          then reads_store none ctx
          else (let (entries, cached) = list_from_engine scope (rk ∷ rks) c in
              if cached then answered (ok entries) else reads_store (some scope) ctx))

  unfoldable pub list_end :
      Host V Ctx
      → String
      → List (RegisteredKey V Ctx)
      → Result ClientError (List StoreEntry)
      → Plan (List (ListEntry V)) Ctx
      → Result ClientError (List (ListEntry V))
  unfolding list_from_store
  list_end host namespace rks stored (answered r) = r
  list_end host namespace rks stored (reads_store scope ctx) =
      list_from_store host ctx namespace rks stored

  -- `List`, in a world where the store answers `stored`.
  unfoldable pub list_namespace :
      Host V Ctx
      → Option Ctx
      → String
      → Result ClientError (List StoreEntry)
      → Client V Ctx
      → Result ClientError (List (ListEntry V))
  unfolding keys_in list_begin list_end
  list_namespace host none namespace stored c =
      err (if c.closed then client_closed else nil_context)
  list_namespace host (some ctx) namespace stored c =
      if c.closed
      then err client_closed
      else (let rks = keys_in namespace c.registry in
          list_end host namespace rks stored (list_begin host ctx rks c))
