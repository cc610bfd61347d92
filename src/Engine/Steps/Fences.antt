-- ===== src/Engine/Steps/Fences.antt =====
-- The fences between a reconcile and the other goroutines of its scope: what was answered, or is
-- being answered, since the reconcile was armed is not overwritten from its older snapshot.
use lib_systemplane.Prelude.{
  ℕ, ◌≡◌, nat_comparable, string_comparable, Bool, true, false, none, arith, Result, ok, err,
  eq_refl,
}
use lib_systemplane.Engine.State.{
  NsKey, ns_key_comparable, Env, Shared, Scope, ScopeState, StoreEntry, Arming, Error, Publication,
}
use lib_systemplane.Engine.Windows.{record_key, touched_in}
use lib_systemplane.Engine.Windows.Laws.{window_open, touched-record_in}
use lib_systemplane.Engine.Scope.{no_fence, new_scope_state}
use lib_systemplane.Engine.Publish.{publish}
use lib_systemplane.Engine.Ingest.{ingest_commit, conclude, prepare, key_of, ingest_default}
use lib_systemplane.Engine.Reconcile.{apply_snapshot_row, apply_absent_key}
use lib_systemplane.Engine.Feed.{record_feed_delete, publish_delete_in, delete_result}
use lib_systemplane.Engine.Steps.{Steps, here, next, committed, deleted_locally}
use lib_systemplane.Engine.Steps.Frames.{publish-Bookkeeping, ingest_default-Bookkeeping}
use lib_systemplane.Engine.Steps.Windows.{Steps-Touched, open_below, Steps-below}

-- The reconcile of `arm` does nothing to the key in `t`: not for the row of its snapshot, and not
-- for the key's absence from it.
abbrev pub LeavesAlone :
    {V Ctx : Type 0} → Env V Ctx → Shared → Arming → NsKey → StoreEntry → ScopeState V → Type 0
LeavesAlone env g arm nk row t =
    ((apply_absent_key env g arm nk t).0 ≡ t) × ((apply_snapshot_row env g arm row t).0 ≡ t)

module _ {V Ctx : Type 0} (env : Env V Ctx) where
  absent-touched :
      (g : Shared) (arm : Arming) (nk : NsKey) (sc : ScopeState V)
      → touched_in arm.window nk sc.windows ≡ true
      → (apply_absent_key env g arm nk sc).0 ≡ sc
  unfolding apply_absent_key
  absent-touched g arm nk sc h = ground arith

  row-touched :
      (g : Shared) (arm : Arming) (se : StoreEntry) (sc : ScopeState V)
      → touched_in arm.window (key_of se) sc.windows ≡ true
      → (apply_snapshot_row env g arm se sc).0 ≡ sc
  unfolding apply_snapshot_row
  row-touched g arm se sc h = ground arith

  touched-LeavesAlone :
      (g : Shared) (arm : Arming) (nk : NsKey) (row : StoreEntry) (t : ScopeState V)
      → key_of row ≡ nk
      → touched_in arm.window nk t.windows ≡ true
      → LeavesAlone env g arm nk row t
  touched-LeavesAlone g arm nk row t e h =
      (absent-touched g arm nk t h, row-touched g arm row t (rw e h))

  conclude-touched :
      (a : ℕ) (nk : NsKey) (r : ScopeState V × Result Error Bool)
      → (conclude nk true r).1 ≡ none
      → window_open a r.0.windows ≡ true
      → touched_in a nk (conclude nk true r).0.windows ≡ true
  unfolding conclude record_key
  conclude-touched a nk (sc, ok n) h o =
      ground (arith, touched-record_in a nk nk true sc.windows, eq_refl nk)
  conclude-touched a nk (sc, err e) h o = cc

  commit-touched :
      (a : ℕ) (g : Shared) (nk : NsKey) (r : Result Error (Publication V)) (sc : ScopeState V)
      → (ingest_commit env g nk r no_fence true sc).1 ≡ none
      → window_open a sc.windows ≡ true
      → touched_in a nk (ingest_commit env g nk r no_fence true sc).0.windows ≡ true
  unfolding ingest_commit
  commit-touched a g nk (err e) sc h o = cc
  commit-touched a g nk (ok p) sc h o =
      conclude-touched a nk (publish env g p sc) h (rw ((publish-Bookkeeping env g p sc).1) o)

  -- A local write that was taken while the reconcile's window was open, in a state reached from a
  -- new one, is left alone by that reconcile after any further steps.
  pub write_outlives_reconcile :
      (scope : Scope) (g : Shared) (ctx : Ctx) (se : StoreEntry) (arm : Arming) (g' : Shared)
      (row : StoreEntry) {s t : ScopeState V}
      → Steps env (new_scope_state scope) s
      → window_open arm.window s.windows ≡ true
      → (ingest_commit env g (key_of se) (prepare env ctx s.scope se true) no_fence true s).1 ≡ none
      → Steps env
          (ingest_commit env g (key_of se) (prepare env ctx s.scope se true) no_fence true s).0
          t
      → key_of row ≡ key_of se
      → LeavesAlone env g' arm (key_of se) row t
  write_outlives_reconcile scope g ctx se arm g' row {s} {t} reached o taken r e =
      touched-LeavesAlone g' arm (key_of se) row t e
        (Steps-Touched env arm.window (key_of se) r (
          Steps-below env arm.window commit (open_below env arm.window scope reached o),
          commit-touched arm.window g (key_of se) _ s taken o,
        )).1
    where
      commit :
          Steps env s
            (ingest_commit env g (key_of se) (prepare env ctx s.scope se true) no_fence true s).0
      commit = next here (committed g ctx se no_fence true s)

  deleted-touched :
      (a : ℕ) (nk : NsKey) (r : ScopeState V × Result Error Bool)
      → r.1 ≡ ok true
      → window_open a r.0.windows ≡ true
      → touched_in a nk (delete_result nk r).0.windows ≡ true
  unfolding delete_result record_key
  deleted-touched a nk (sc, ok true) h o =
      ground (arith, touched-record_in a nk nk true sc.windows, eq_refl nk)
  deleted-touched a nk (sc, ok false) h o = cc
  deleted-touched a nk (sc, err e) h o = cc

  -- A local delete that put the default in force, while the reconcile's window was open, is left
  -- alone by that reconcile after any further steps.
  pub delete_outlives_reconcile :
      (scope : Scope) (g : Shared) (nk : NsKey) (arm : Arming) (g' : Shared) (row : StoreEntry)
      {s t : ScopeState V}
      → Steps env (new_scope_state scope) s
      → window_open arm.window s.windows ≡ true
      → (ingest_default env g nk true s).1 ≡ ok true
      → Steps env (publish_delete_in env g nk s).0 t
      → key_of row ≡ nk
      → LeavesAlone env g' arm nk row t
  unfolding publish_delete_in
  delete_outlives_reconcile scope g nk arm g' row {s} {t} reached o notified r e =
      touched-LeavesAlone g' arm nk row t e
        (Steps-Touched env arm.window nk r (
          Steps-below env arm.window (next here (deleted_locally g nk s))
              (open_below env arm.window scope reached o),
          deleted-touched arm.window nk (ingest_default env g nk true s) notified
              (rw ((ingest_default-Bookkeeping env g nk true s).1) o),
        )).1

  -- A delete that the changefeed reported while the reconcile's window was open: the key is left
  -- alone by that reconcile after any further steps.
  pub feed_delete_outlives_reconcile :
      (scope : Scope) (nk : NsKey) (arm : Arming) (g : Shared) (row : StoreEntry)
      {s t : ScopeState V}
      → Steps env (new_scope_state scope) s
      → window_open arm.window s.windows ≡ true
      → Steps env (record_feed_delete nk s) t
      → key_of row ≡ nk
      → LeavesAlone env g arm nk row t
  unfolding record_feed_delete
  feed_delete_outlives_reconcile scope nk arm g row {s} {t} reached o r e =
      touched-LeavesAlone g arm nk row t e
        (Steps-Touched env arm.window nk r (
          open_below env arm.window scope reached o,
          ground (arith, touched-record_in arm.window nk nk true s.windows, eq_refl nk),
        )).1
