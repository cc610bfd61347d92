-- ===== src/Client/Reads/Agrees.antt =====
-- `List` and `Get` of internal/client/get.go read alike.
use lib_systemplane.Prelude.{
  ℕ, String, ◌≡◌, ◌⊎◌, true, false, ◌==◌, string_comparable, if◌then◌else◌, Option, none, some,
  List, [], ◌∷◌, Result, ok, err, get, GoMap,
}
use lib_systemplane.Engine.State.{NsKey, ns_key_comparable, StoreEntry, Published}
use lib_systemplane.Engine.Ingest.{key_of}
use lib_systemplane.Engine.Core.{lookup}
use lib_systemplane.Client.State.{Host, ClientKey, Client, ClientError, ListEntry}
use lib_systemplane.Client.Reads.{default_entry, tenant_scope}
use lib_systemplane.Client.Reads.Lists.{RegisteredKey, list_entry}

-- The last row of a key.
abbrev pub last_row : NsKey → List StoreEntry → Option StoreEntry
last_row nk [] = none
last_row nk (row ∷ rows) = elim (last_row nk rows) [
  | some later ↦ some later
  | none ↦ if key_of row == nk then some row else none
]

abbrev raw_of : StoreEntry → List ℕ
raw_of row = row.value

abbrev or_else : Option (List ℕ) → Option (List ℕ) → Option (List ℕ)
or_else (some a) o = some a
or_else none o = o

module _ {V Ctx : Type 0} where
  -- Each registered key is under its own name.
  abbrev pub Keyed : GoMap NsKey (ClientKey V Ctx) → RegisteredKey V Ctx → Type 0
  Keyed m rk = get (rk.0) m ≡ some (rk.1)

  -- What `List` shows of a `Get`, before the entries of the later keys.
  abbrev pub show_entry :
      RegisteredKey V Ctx
      → Result ClientError (Option (Published V))
      → Result ClientError (List (ListEntry V))
      → Result ClientError (List (ListEntry V))
  show_entry rk (err e) rest = err e
  show_entry rk (ok none) rest = rest
  show_entry rk (ok (some p)) (err e) = err e
  show_entry rk (ok (some p)) (ok entries) = ok (list_entry rk p.value ∷ entries)

  -- A `Get` of each key; the first error ends it.
  abbrev pub each_get :
      (NsKey → Result ClientError (Option (Published V)))
      → List (RegisteredKey V Ctx)
      → Result ClientError (List (ListEntry V))
  each_get read [] = ok []
  each_get read (rk ∷ rks) = show_entry rk (read (rk.0)) (each_get read rks)

  abbrev Entry : String → GoMap NsKey (ClientKey V Ctx) → RegisteredKey V Ctx → Type 0
  Entry namespace m rk = Keyed m rk × ((rk.0).namespace ≡ namespace)

  abbrev shown :
      RegisteredKey V Ctx
      → Result ClientError V
      → Result ClientError (List (ListEntry V))
      → Result ClientError (List (ListEntry V))
  shown rk r rest = elim r [
    | err e ↦ err e
    | ok v ↦ elim rest [ err e ↦ err e | ok entries ↦ ok (list_entry rk v ∷ entries) ]
  ]

  abbrev answer_of : Option (Published V) → ClientKey V Ctx → Published V
  answer_of o def = elim o [ some published ↦ published | none ↦ default_entry true def ]

module _ {V Ctx : Type 0} (host : Host V Ctx) (c : Client V Ctx) (ctx : Ctx) where
  -- Reads of the tenant go to its database: its scope is not one that a client caches, or the
  -- engine holds no entry of it, before and during its activation.
  abbrev pub Uncached : Type 0
  Uncached =
      ((tenant_scope host c ctx).1 ≡ false)
      ⊎ ((nk : NsKey) → (lookup (tenant_scope host c ctx).0 nk c.engine).1 ≡ none)
