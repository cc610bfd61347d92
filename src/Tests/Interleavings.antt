-- ===== src/Tests/Interleavings.antt =====
-- Reconciles, writes, deletes and disconnects of one scope, interleaved.
use lib_systemplane.Prelude.{
  ℕ, ◌+◌, ◌^◌, ◌≤◌, ◌<◌, ◌≡◌, refl, sym, nat_comparable, string_comparable, true, false, none, some,
  get, put, has, arith, ok, is_empty,
}
use lib_systemplane.Engine.State.{ns_key_comparable, ns_key_beq, CacheEntry, ScopeState, Arming}
use lib_systemplane.Engine.Windows.{
  record_in, record_key, delete_window, find_window, clear_stale, note,
}
use lib_systemplane.Engine.Windows.Laws.{window_open}
use lib_systemplane.Engine.Scope.{new_scope_state, mark_stale, no_fence}
use lib_systemplane.Engine.Dispatch.{dispatch}
use lib_systemplane.Engine.Publish.{publish}
use lib_systemplane.Engine.Ingest.{
  zero_scope, prepare, ingest_commit, ingest_default, conclude, lookup_key,
}
use lib_systemplane.Engine.Reconcile.{on_resync}
use lib_systemplane.Engine.Feed.{publish_delete_in, record_feed_delete}
use lib_systemplane.Engine.Steps.{
  Steps, kind, here, next, committed, resynced, disconnected, cleared,
}
use lib_systemplane.Engine.Steps.Cache.{cache_coherent, cached_forever}
use lib_systemplane.Engine.Steps.Fences.{
  LeavesAlone, write_outlives_reconcile, delete_outlives_reconcile, feed_delete_outlives_reconcile,
}
use lib_systemplane.Engine.Steps.Overtaken.{
  Superseded, disconnects, resyncs, ArmedBefore, stale_until_rearmed, resync_overtakes,
  disconnect_blocks_clear,
}
use lib_systemplane.Tests.Fixture.{fee_key, env, sound, shared, row, resynced_state, arm}

resynced_run : Steps env (new_scope_state zero_scope) resynced_state
unfolding resynced_state
resynced_run = next here (resynced shared _)

arm_open : window_open arm.window resynced_state.windows ≡ true
unfolding resynced_state window_open find_window new_scope_state on_resync delete_window
arm_open = refl

-- A write of revision 3.
write_taken :
    (ingest_commit env shared fee_key
      (prepare env tt resynced_state.scope (row 3 40) true)
      no_fence
      true
      resynced_state).1
    ≡ none
unfolding ingest_commit prepare conclude record_key record_in note resynced_state new_scope_state
    on_resync publish dispatch get put ns_key_beq lookup_key find_window delete_window
write_taken = refl

written : ScopeState ℕ
written =
    (ingest_commit env shared fee_key (prepare env tt resynced_state.scope (row 3 40) true) no_fence
      true resynced_state).0

-- The snapshot of the reconcile that was armed before the write has an older row.
write_outlives_reconcile_example :
    LeavesAlone env shared arm fee_key (row 2 30) (mark_stale written)
unfolding written
write_outlives_reconcile_example =
    write_outlives_reconcile env zero_scope shared tt (row 3 40) arm shared (row 2 30) resynced_run
      arm_open write_taken (next here (disconnected _)) refl

write_run : Steps env (new_scope_state zero_scope) written
unfolding written
write_run = next resynced_run (committed shared tt (row 3 40) no_fence true _)

has_written : has fee_key written.entries ≡ true
unfolding written ingest_commit prepare conclude record_key record_in note resynced_state
    new_scope_state on_resync publish dispatch get put ns_key_beq lookup_key find_window
    delete_window
has_written = refl

-- The key is cached, a later resync is armed, and the next write's validator still runs.
rearmed : ScopeState ℕ
rearmed = on_resync shared written

late_arm : Arming
late_arm = record { reconcile = 2; disconnect = 0; window = 1 }

late_open : window_open late_arm.window rearmed.windows ≡ true
unfolding late_arm rearmed written window_open ingest_commit prepare conclude record_key record_in
    note resynced_state new_scope_state on_resync publish dispatch get put ns_key_beq lookup_key
    find_window delete_window
late_open = refl

rearmed_run : Steps env (new_scope_state zero_scope) rearmed
unfolding rearmed
rearmed_run = next write_run (resynced shared _)

delete_notified : (ingest_default env shared fee_key true rearmed).1 ≡ ok true
unfolding rearmed written ingest_default ingest_commit prepare conclude record_key record_in note
    resynced_state new_scope_state on_resync publish dispatch get put ns_key_beq lookup_key
    find_window delete_window
delete_notified = refl

delete_outlives_reconcile_example :
    LeavesAlone env shared late_arm fee_key
      (row 3 40)
      (mark_stale (publish_delete_in env shared fee_key rearmed).0)
delete_outlives_reconcile_example =
    delete_outlives_reconcile env zero_scope shared fee_key late_arm shared (row 3 40) rearmed_run
      late_open delete_notified (next here (disconnected _)) refl

feed_delete_outlives_reconcile_example :
    LeavesAlone env shared late_arm fee_key
      (row 3 40)
      (mark_stale (record_feed_delete fee_key rearmed))
feed_delete_outlives_reconcile_example =
    feed_delete_outlives_reconcile env zero_scope fee_key late_arm shared (row 3 40) rearmed_run
      late_open (next here (disconnected _)) refl

-- A second disconnect, and then a clear by the arming that came before both.
two_disconnects :
    Steps env (mark_stale resynced_state) (clear_stale arm (mark_stale (mark_stale resynced_state)))
two_disconnects = next (next here (disconnected _)) (cleared arm _)

small : (n : ℕ) → n ≤ 9 → n < 2 ^ 64
small n h = ground arith

gen_zero : resynced_state.disconnect_gen ≡ 0
unfolding resynced_state new_scope_state on_resync
gen_zero = refl

gen_small : resynced_state.disconnect_gen < 2 ^ 64
unfolding resynced_state new_scope_state on_resync
gen_small = small 0 (ground arith)

one_disconnect : 0 + disconnects two_disconnects + 1 < 2 ^ 64
unfolding two_disconnects disconnects kind
one_disconnect = small 2 (ground arith)

arm_before : ArmedBefore 0 resynced_state.disconnect_gen arm
unfolding resynced_state new_scope_state on_resync
arm_before = (0, omega arith, small 0 (ground arith), refl)

stale_until_rearmed_example :
    (clear_stale arm (mark_stale (mark_stale resynced_state))).stale ≡ true
unfolding two_disconnects
stale_until_rearmed_example =
    stale_until_rearmed env 0 resynced_state two_disconnects gen_small ((tt, tt), arm_before)
      one_disconnect

-- A resync between a reconcile's arming and its rows.
overtaking : Steps env resynced_state (on_resync shared (mark_stale resynced_state))
overtaking = next (next here (disconnected _)) (resynced shared _)

resync_gen : resynced_state.reconcile_gen ≡ 1
unfolding resynced_state new_scope_state on_resync
resync_gen = refl

resync_gen_small : resynced_state.reconcile_gen < 2 ^ 64
unfolding resynced_state new_scope_state on_resync
resync_gen_small = small 1 (ground arith)

overtaken_once : 0 < resyncs overtaking
unfolding overtaking resyncs kind
overtaken_once = ground arith

overtaken_little : resyncs overtaking < 2 ^ 64
unfolding overtaking resyncs kind
overtaken_little = small 1 (ground arith)

resync_overtakes_example :
    Superseded env shared arm (row 2 30) fee_key (on_resync shared (mark_stale resynced_state))
resync_overtakes_example =
    resync_overtakes env shared arm (row 2 30) fee_key overtaking resync_gen_small (sym resync_gen)
      overtaken_once overtaken_little

disconnected_once : 0 < disconnects overtaking
unfolding overtaking disconnects kind
disconnected_once = ground arith

disconnected_little : disconnects overtaking < 2 ^ 64
unfolding overtaking disconnects kind
disconnected_little = small 1 (ground arith)

disconnect_blocks_clear_example :
    clear_stale arm (on_resync shared (mark_stale resynced_state))
    ≡ on_resync shared (mark_stale resynced_state)
disconnect_blocks_clear_example =
    disconnect_blocks_clear env arm overtaking gen_small (sym gen_zero) disconnected_once
      disconnected_little

held : (c : CacheEntry ℕ) × (get fee_key written.entries ≡ some c) × (is_empty c.raw ≡ false)
unfolding written ingest_commit prepare conclude record_key record_in note resynced_state
    new_scope_state on_resync publish dispatch get put ns_key_beq lookup_key find_window
    delete_window
held = (_, refl, refl)

cache_coherent_example : env.unmarshal held.0.raw ≡ some held.0.value
cache_coherent_example = cache_coherent env sound zero_scope fee_key held.0 write_run held.1 held.2

cached_forever_example : has fee_key (mark_stale written).entries ≡ true
cached_forever_example = cached_forever env fee_key (next here (disconnected _)) has_written
