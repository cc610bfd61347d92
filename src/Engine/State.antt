-- ===== src/Engine/State.antt =====
-- The engine's data: internal/engine/{scope,registry,change,publish,reconcile,dispatch}.go and the
-- types of internal/store/store.go. A decoded value (`any`) is a type parameter `V`, a context is a
-- parameter `Ctx`; a value is immutable here, so `Clone` of a value is the value.
mod Keys
unfoldable pub use Keys.*
use lib_systemplane.Prelude.{ℕ, String, Bool, Option, List, GoMap}

-- `store.Entry`: a row as a backend hands it over, its value still encoded.
pub record StoreEntry : Type 0 where
  pub namespace : String
  pub key : String
  pub value : List ℕ
  pub revision : ℕ
  pub updated_at : ℕ
  pub updated_by : String

pub data Op : Type 0 where
  upsert delete resync disconnect : Op

pub record Event : Type 0 where
  pub scope : Scope
  pub namespace : String
  pub key : String
  pub op : Op
  pub revision : ℕ

pub data Error : Type 0 where
  closed scope_not_tracked unregistered_key undecodable validator_panicked : Error
  nil_registry nil_backend store_closed context_done first_reconcile_panicked : Error
  refused_by_validator : ℕ → Error
  store_failed : ℕ → Error

-- What a call of consumer code comes to.
pub data Verdict : Type 0 where
  accepts panics : Verdict
  refuses : ℕ → Verdict

pub record KeyDef (V Ctx : Type 0) : Type 0 where
  pub default : V
  pub validate : Option (Ctx → V → Verdict)

pub record Registry (V Ctx : Type 0) : Type 0 where
  pub lookup : NsKey → Option (KeyDef V Ctx)
  pub keys : List NsKey

-- What the engine is handed at construction, and the two library functions it calls:
-- `json.Unmarshal` into `any` and `reflect.DeepEqual`.
pub record Env (V Ctx : Type 0) : Type 0 where
  pub registry : Option (Registry V Ctx)
  pub validator_context : Option (Ctx → Scope → Ctx)
  pub dispatch_context : Ctx
  pub unmarshal : List ℕ → Option V
  pub deep_equal : V → V → Bool

pub record CacheEntry (V : Type 0) : Type 0 where
  pub value : V
  pub raw : List ℕ
  pub revision : ℕ
  pub updated_at : ℕ
  pub updated_by : String

pub record Publication (V : Type 0) : Type 0 where
  pub scope : Scope
  pub ns_key : NsKey
  pub revision : ℕ
  pub value : V
  pub raw : List ℕ
  pub deleted : Bool
  pub updated_at : ℕ
  pub updated_by : String

pub record Change (V : Type 0) : Type 0 where
  pub tenant : String
  pub namespace : String
  pub key : String
  pub revision : ℕ
  pub value : V

-- `engine.Entry`, what `Lookup` reports.
pub record Published (V : Type 0) : Type 0 where
  pub value : V
  pub revision : ℕ
  pub updated_at : ℕ
  pub updated_by : String
  pub stale : Bool

pub record KeyFence : Type 0 where
  pub deletes : ℕ
  pub publications : ℕ

-- `feedFence`: unarmed it fences nothing.
pub record FeedFence : Type 0 where
  pub fence : KeyFence
  pub armed : Bool

-- A `reconcileWindow` on the heap at `address`. It is in the map `sc.windows` under `generation`
-- while `is_open`.
pub record Window : Type 0 where
  pub address : ℕ
  pub generation : ℕ
  pub is_open : Bool
  pub touched : GoMap NsKey (Unit {0})
  pub unusable : GoMap NsKey (Unit {0})

-- `reconcileArming`; `window` is the window's address.
pub record Arming : Type 0 where
  pub reconcile : ℕ
  pub disconnect : ℕ
  pub window : ℕ

-- `dispatchWorker`: `pending` with `hasPending` is an option, `signal` is the one-slot channel.
pub record DispatchWorker (V : Type 0) : Type 0 where
  pub pending : Option (Change V)
  pub signal : Bool
  pub done : Bool

pub record Subscription : Type 0 where
  pub id : ℕ
  pub callback : ℕ

-- The engine's fields that a scope's own operations read.
pub record Shared : Type 0 where
  pub closed : Bool
  pub workers_closed : Bool
  pub subscribers : GoMap NsKey (List Subscription)
  pub next_sub_id : ℕ

-- `scopeState`. A closed channel is a flag, the first reconcile's channel and outcome an option.
pub record ScopeState (V : Type 0) : Type 0 where
  pub scope : Scope
  pub entries : GoMap NsKey (CacheEntry V)
  pub fences : GoMap NsKey KeyFence
  pub stale : Bool
  pub unconfirmed : GoMap NsKey (Unit {0})
  pub retrying : GoMap RetryKey (Unit {0})
  pub inflight : GoMap NsKey (Unit {0})
  pub again : GoMap NsKey Bool
  pub disconnect_gen : ℕ
  pub first_reconcile : Option (Option Error)
  pub resync_pending : Option Arming
  pub resync_signal : Bool
  pub reconcile_stop : Bool
  pub workers : GoMap NsKey (DispatchWorker V)
  pub worker_started : Bool
  pub workers_dropped : Bool
  pub reconcile_gen : ℕ
  pub windows : List Window
  pub next_address : ℕ
  pub unsubscribe : Option ℕ
