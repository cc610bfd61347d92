-- ===== src/Lib.antt =====
-- The systemplane engine: an in-memory cache of runtime configuration, one scope per tenant, that
-- converges on a store. A consumer reads it with `Lookup`; `Publish` and `PublishDelete` bring local
-- writes in; the changefeed reports remote ones; a resync after each (re)connect reloads a scope
-- from a snapshot. All of these run at once, under the scope's locks, and the counters in the
-- scope's state (publication and delete fences, reconcile and disconnect generations, windows)
-- decide which of two racing answers is the newer one. The client is what a consumer holds: it
-- registers keys, writes to the store and then publishes to the engine, and reads from the engine or,
-- for a tenant that is not cached, from the store. The group coordinator fans documents out to apply
-- functions, and the backends' changefeeds tell the engine what moved and when they were down.
--
-- Engine/State.antt and State/Keys.antt: the records of internal/engine/{scope,registry,change,
--   publish,reconcile,dispatch}.go and internal/store/store.go.
-- Engine/Scope.antt, Windows.antt: the methods of `scopeState` in internal/engine/scope.go and
--   reconcile.go: fences, confirmation marks, in-flight sets, armings, windows, the stale flag.
-- Engine/Publish.antt: `publish` of internal/engine/publish.go, its decision apart from its effect.
-- Engine/Ingest.antt: internal/engine/ingest.go: `ingest` as the section before the validator
--   (`ingest_begin`) and the one after it (`ingest_commit`), `prepare`, `ingestDefault`.
-- Engine/Reconcile.antt: internal/engine/reconcile.go, from `onResync` to `finishFirstReconcile`.
-- Engine/Feed.antt: internal/engine/feed.go: `refreshKey` in its two sections, retries, deletes.
-- Engine/Dispatch.antt, Worker.antt: internal/engine/dispatch.go: subscriptions, mailboxes, and the
--   delivery goroutine of one key as a step relation against its publishers.
-- Engine/Core.antt: `Publish`, `PublishDelete`, `Lookup`, `onEvent` over the map of scopes, with the
--   scope states on a heap, since goroutines keep pointers to dropped ones.
-- Engine/Lifecycle.antt: `New`, `Start` around its wait, bring-up, drop and the stages of `Close` of
--   internal/engine/engine.go.
-- Engine/Activation.antt: internal/engine/activate.go for one scope: the calls against the
--   activation goroutines, which are program counters.
-- Engine/Steps.antt: one step for each section that runs under a scope's locks. What a goroutine
--   captured before its section (a fence, an arming, a prepared value) is arbitrary there, so the
--   runs of `Steps` include every interleaving of the goroutines of a scope.
-- Group/Coordinator.antt: internal/group/coordinator.go. Group/Coordinator/Runs.antt interleaves its
--   critical sections: publications that are stamped, decoded and committed, registrations with
--   their seed, removals, and the rounds of a fan-out with its calls of apply functions. The other
--   modules there look at one tenant at a time (Slices) and carry its invariant over every step.
-- Client/State.antt, Registration.antt, Writes.antt, Reads.antt and Reads/Lists.antt, Lifecycle.antt:
--   internal/client/{client,register,registry,set,get,onchange}.go over the engine above. A call
--   that goes to the store is split there: the store's answer is a parameter.
-- Mongodb/Polling.antt: `pollOnce` of internal/mongodb/mongodb_changestream.go, over what the driver
--   answers; Polling/Rounds.antt: its successive round trips, the first without an `emit`.
-- Mongodb/Feed.antt: the markers of a feed, of the same file and mongodb_events.go.
-- Postgres/Backoff.antt: the reconnect delays of internal/postgres/postgres_listen.go.
-- Debounce.antt: internal/debounce/debounce.go, against timers that fire at any time.
-- Prelude.antt: association lists for Go maps, results, Boolean tests. Tests: concrete runs.
--
-- Counters of type uint64 wrap as in Go (`inc64`, modulo 2 ^ 64); a statement about generations says
-- up to how many events it holds. Revisions (int64) are natural numbers: the stores hand over no
-- negative one. Nothing needs fuel: the loops are over snapshots and registered keys, and the
-- goroutines are relations. A run of the coordinator has fewer than 2 ^ 64 - 2 publications and
-- registrations. A decoded value is a type parameter, with `json.Unmarshal` and
-- `reflect.DeepEqual` as parameters: theorems that need it assume that the latter equates equal
-- values only. The registry, the validators and the store's answers are parameters as well; a
-- validator may accept, refuse or panic.
--
-- Not modelled: logging, metrics and panic reports, which change no state; the semaphore that bounds
-- concurrent re-reads; the debounce delay itself; the wait of `Close` for its goroutines; `Clone` of
-- values, which are immutable here; the typed getters and the catalog of internal/client; the codec
-- of internal/group, which is reflection; admin, which is HTTP over the client; of
-- internal/postgres and internal/mongodb the queries and the registry of feeds.
pub mod Prelude
pub mod Debounce
pub mod Engine
pub mod Group
pub mod Client
pub mod Mongodb
pub mod Postgres
pub mod Tests
