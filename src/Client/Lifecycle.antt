-- ===== src/Client/Lifecycle.antt =====
-- `Start`, `Close` and `OnChange` of internal/client/{client,onchange}.go.
use lib_systemplane.Prelude.{
  ℕ, Bool, true, false, not, ◌&&◌, if◌then◌else◌, Option, none, some, has,
}
use lib_systemplane.Engine.State.{NsKey, ns_key_comparable, Error}
use lib_systemplane.Engine.Dispatch.{on_change}
use lib_systemplane.Client.State.{
  Client, ClientError, client_closed, nil_context, unknown_key, not_supported, engine_failure,
}

module _ {V Ctx : Type 0} where
  -- `Start` up to the store's own Start; none means that it goes on.
  unfoldable pub start_refusal : Bool → Bool → Client V Ctx → Option (Option ClientError)
  start_refusal has_context has_store c =
      if not has_context
      then some (some nil_context)
      else if c.closed
      then some (some client_closed)
      else if not has_store
      then some (some client_closed)
      else if c.started
      then some none
      else none

  -- `Start` after the calls that it makes: the store's Start, and, for a single tenant, the
  -- engine's, while which the client counts as started. `expired` says that the context had ended.
  unfoldable pub start_end :
      Option ClientError → Option Error → Bool → Client V Ctx → Client V Ctx × Option ClientError
  start_end (some e) engine expired c = (c, some e)
  start_end none engine expired c =
      if c.multi_tenant then (record c { started = true }, none) else elim engine [
        | none ↦ (record c { started = true }, none)
        | some e ↦
            (record c { started = false; registry_frozen = expired }, some (engine_failure e))
      ]

  unfoldable pub close_client : Client V Ctx → Client V Ctx
  close_client c = record c { closed = true }

  -- `OnChange`; the second result is the subscription's identity, none for the no-op.
  unfoldable pub subscribe_change :
      NsKey → Option ℕ → Client V Ctx → Client V Ctx × Option ℕ × Option ClientError
  subscribe_change nk fn c =
      if c.closed
      then (c, none, some client_closed)
      else if not (has nk c.registry)
      then (c, none, some unknown_key)
      else if c.multi_tenant && not c.tenant_managed
      then (c, none, some not_supported)
      else (let (shared, id) = on_change nk fn c.engine.shared in
          (record c { engine = record (c.engine) { shared = shared } }, id, none))
