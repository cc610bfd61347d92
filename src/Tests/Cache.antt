-- ===== src/Tests/Cache.antt =====
-- Publications, deletes and reconciles of the cache.
use lib_systemplane.Prelude.{
  ℕ, ◌≤◌, ◌<◌, ◌≡◌, refl, sym, ◌∙◌, subst, ◌≢◌, ◌⊎◌, inl, nat_comparable, string_comparable, true,
  false, none, some, get, put, arith, ok, [], ◌∷◌, get_or,
}
use lib_systemplane.Engine.State.{
  ns_key_comparable, ns_key_beq, scope_beq, scope_comparable, Published, KeyDef, undecodable,
  ScopeState, CacheEntry, StoreEntry, Publication,
}
use lib_systemplane.Engine.Windows.{record_in, delete_window, find_window, touched_in, unusable_in}
use lib_systemplane.Engine.Scope.{new_scope_state}
use lib_systemplane.Engine.Dispatch.{dispatch}
use lib_systemplane.Engine.Publish.{publish}
use lib_systemplane.Engine.Publish.Serves.{Coherent, EntriesCoherent, publish_monotone}
use lib_systemplane.Engine.Publish.Echo.{EchoOf, publish_echo}
use lib_systemplane.Engine.Ingest.{
  zero_scope, prepare, ingest, ingest_default, publication_of, lookup_key, registered_keys,
}
use lib_systemplane.Engine.Reconcile.{rows, run_one_reconcile, seen, on_resync}
use lib_systemplane.Engine.Reconcile.Quiet.{Quiet}
use lib_systemplane.Engine.Reconcile.Absent.{OnDefault, Listed}
use lib_systemplane.Engine.Reconcile.Converge.{
  reconcile_confirms, reconcile_defaults, reconcile_serves,
}
use lib_systemplane.Engine.Feed.{publish_delete_in, delete_result}
use lib_systemplane.Engine.Core.{lookup, publish_entry, publish_delete, tracked_state}
use lib_systemplane.Engine.Core.Serves.{publish_serves_lookup, publish_refused_lookup}
use lib_systemplane.Engine.Core.Deletes.{delete_serves_default}
use lib_systemplane.Tests.Fixture.{
  fee_key, fee_def, env, sound, shared, row, new_state, engine, resynced_state, arm,
}

new_coherent : EntriesCoherent env new_state
unfolding new_state get
new_coherent j c held b = cc

here_state : tracked_state zero_scope engine ≡ some new_state
unfolding engine tracked_state get scope_beq
here_state = refl

engine_coherent :
    (sc : ScopeState ℕ) → tracked_state zero_scope engine ≡ some sc → EntriesCoherent env sc
engine_coherent sc h =
    let q : some new_state ≡ some sc = sym here_state ∙ h in
    let same : new_state ≡ sc = cc in subst (λ s. EntriesCoherent env s) same new_coherent

taken : (publish_entry env tt zero_scope (row 3 40) engine).1 ≡ none
unfolding publish_entry engine tracked_state get scope_beq ingest publish dispatch ns_key_beq
    lookup_key put
taken = refl

publish_serves_lookup_example :
    (r : Published ℕ) × ((lookup zero_scope fee_key
        (publish_entry env tt zero_scope (row 3 40) engine).0).1
      ≡ some r)
    × ((3 < r.revision) ⊎ ((r.revision ≡ 3) × (some 40 ≡ some r.value)))
publish_serves_lookup_example =
    publish_serves_lookup env sound tt zero_scope (row 3 40) engine engine_coherent taken

-- Its bytes are no number.
abbrev torn_row : StoreEntry
torn_row = record (row 3 0) { value = [] }

rejected : (publish_entry env tt zero_scope torn_row engine).1 ≡ some undecodable
unfolding publish_entry engine tracked_state get scope_beq ingest publish dispatch ns_key_beq
    lookup_key put
rejected = refl

publish_refused_lookup_example :
    lookup zero_scope fee_key (publish_entry env tt zero_scope torn_row engine).0
    ≡ lookup zero_scope fee_key engine
publish_refused_lookup_example =
    publish_refused_lookup env tt zero_scope zero_scope torn_row fee_key engine rejected

deleted : (publish_delete env zero_scope fee_key engine).1 ≡ none
unfolding publish_delete publish_delete_in delete_result engine tracked_state get scope_beq
    ingest_default publish dispatch ns_key_beq lookup_key put
deleted = refl

delete_serves_default_example :
    (def : KeyDef ℕ (Unit {0})) × (r : Published ℕ) × (lookup_key env fee_key ≡ some def)
    × ((lookup zero_scope fee_key (publish_delete env zero_scope fee_key engine).0).1 ≡ some r)
    × (r.value ≡ def.default)
    × (r.revision ≡ 0)
delete_serves_default_example = delete_serves_default env zero_scope fee_key engine deleted

settled : Publication ℕ
unfolding resynced_state
settled = publication_of zero_scope (row 3 40) 40

resync-Quiet : Quiet shared arm resynced_state
unfolding resynced_state record_in new_scope_state on_resync touched_in unusable_in find_window
    delete_window get
resync-Quiet = record {
  up = refl;
  live = refl;
  newest = refl;
  untouched = λ j. refl;
  unfenced = λ j. refl;
}

resynced_coherent : EntriesCoherent env resynced_state
unfolding resynced_state new_scope_state on_resync get
resynced_coherent j c held b = cc

usable :
    (p : Publication ℕ) × (prepare env env.dispatch_context resynced_state.scope (row 3 40) false
      ≡ ok p)
unfolding prepare resynced_state new_scope_state on_resync lookup_key ns_key_beq
usable = (_, refl)

reconcile_serves_example :
    (c : CacheEntry ℕ) × (get fee_key
        (run_one_reconcile env shared arm true (rows (row 3 40 ∷ [])) resynced_state).entries
      ≡ some c)
    × ((3 < c.revision) ⊎ ((c.revision ≡ 3) × (some 40 ≡ some c.value)))
unfolding seen
reconcile_serves_example =
    reconcile_serves env shared arm (row 3 40 ∷ []) resynced_state sound (row 3 40) usable.0
      resync-Quiet resynced_coherent (refl, tt) (inl refl) usable.1

fee_registered : lookup_key env fee_key ≡ some fee_def
unfolding lookup_key ns_key_beq
fee_registered = refl

fee-Listed : Listed fee_key (registered_keys env)
unfolding registered_keys
fee-Listed = inl refl

fee_absent : seen fee_key [] ≡ false
unfolding seen
fee_absent = refl

reconcile_defaults_example :
    OnDefault fee_def fee_key (run_one_reconcile env shared arm true (rows []) resynced_state)
reconcile_defaults_example =
    reconcile_defaults env shared arm [] resynced_state sound fee_key fee_def resync-Quiet
      fee_registered fee-Listed fee_absent

connected_since : resynced_state.disconnect_gen ≡ arm.disconnect
unfolding resynced_state new_scope_state on_resync
connected_since = refl

reconcile_confirms_example :
    let t = run_one_reconcile env shared arm true (rows (row 3 40 ∷ [])) resynced_state in
    (t.stale ≡ false) × (t.first_reconcile ≡ some (get_or resynced_state.first_reconcile none))
reconcile_confirms_example =
    reconcile_confirms env shared arm (row 3 40 ∷ []) resynced_state resync-Quiet connected_since

cached_state : ScopeState ℕ
unfolding new_state
cached_state = (publish env shared settled new_state).0

fee_cached : (c : CacheEntry ℕ) × (get fee_key cached_state.entries ≡ some c)
unfolding cached_state settled new_state new_scope_state publish get put ns_key_beq dispatch
fee_cached = (_, refl)

newer : Publication ℕ
newer = publication_of zero_scope (row 5 60) 60

fee_newer :
    (c : CacheEntry ℕ) × (get fee_key (publish env shared newer cached_state).0.entries ≡ some c)
unfolding cached_state newer settled new_state new_scope_state publish get put ns_key_beq dispatch
fee_newer = (_, refl)

newer_revision : newer.revision ≢ 0
unfolding newer
newer_revision h = ground arith

publish_monotone_example : fee_cached.0.revision ≤ fee_newer.0.revision
publish_monotone_example =
    publish_monotone env shared newer cached_state fee_key fee_cached.0 fee_newer.0 newer_revision
      fee_cached.1 fee_newer.1

newer-Coherent : Coherent env newer.raw newer.value
unfolding newer
newer-Coherent b = refl

newer_taken : (publish env shared newer new_state).1 ≡ ok true
unfolding newer new_state new_scope_state publish get put ns_key_beq dispatch
newer_taken = refl

-- The row as the store spells it.
respelled : Publication ℕ
unfolding newer
respelled = record newer { raw = 0 ∷ 60 ∷ []; updated_at = 11 }

respelled-EchoOf : EchoOf env newer respelled
unfolding newer respelled
respelled-EchoOf = (refl, refl, refl)

publish_echo_example :
    let sc' = (publish env shared newer new_state).0 in
    let echo = publish env shared respelled sc' in
    (echo.1 ≡ ok false)
    × (echo.0.workers ≡ sc'.workers)
    × (echo.0.fences ≡ sc'.fences)
    × ((c : CacheEntry ℕ) × (c' : CacheEntry ℕ) × (get newer.ns_key sc'.entries ≡ some c)
        × (get newer.ns_key echo.0.entries ≡ some c')
        × (c'.value ≡ c.value)
        × (c'.revision ≡ c.revision))
publish_echo_example =
    publish_echo env sound shared newer respelled new_state newer_revision newer-Coherent
      new_coherent respelled-EchoOf newer_taken
