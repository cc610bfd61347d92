-- ===== src/Engine/Reconcile/Converge.antt =====
-- Convergence: what a reconcile that nothing overtakes leaves in the cache.
use lib_systemplane.Prelude.{
  ◌≡◌, refl, ap, ◌∙◌, nat_comparable, string_comparable, true, false, none, some, get, arith, ok,
  List, get_or,
}
use lib_systemplane.Engine.State.{
  NsKey, ns_key_comparable, Env, Shared, ScopeState, StoreEntry, CacheEntry, Publication, Arming,
  KeyDef,
}
use lib_systemplane.Engine.Windows.{superseded, clear_stale, close_window, finish_first_reconcile}
use lib_systemplane.Engine.Publish.Serves.{DeepEqualSound, EntriesCoherent}
use lib_systemplane.Engine.Ingest.{prepare, key_of, lookup_key, registered_keys}
use lib_systemplane.Engine.Ingest.Outcome.{ServesRow}
use lib_systemplane.Engine.Reconcile.{
  rows, apply_rows, apply_absent, apply_scope, run_one_reconcile, seen,
}
use lib_systemplane.Engine.Reconcile.Quiet.{Quiet}
use lib_systemplane.Engine.Reconcile.Rows.{DistinctRows, InRows, seen-in, rows-Quiet, rows_serve}
use lib_systemplane.Engine.Reconcile.Bookkeeping.{rows-Bookkeeping, pass-Bookkeeping}
use lib_systemplane.Engine.Reconcile.Absent.{
  OnDefault, Listed, pass_kept, pass_defaults, pass-Quiet,
}

module _ {V Ctx : Type 0} (env : Env V Ctx) (g : Shared) (arm : Arming) (ses : List StoreEntry)
    (sc : ScopeState V) where
  after_rows : ScopeState V
  after_rows = (apply_rows env g arm ses sc).0

  after_pass : ScopeState V
  after_pass = (apply_absent env g arm ses (registered_keys env) after_rows).0

  rows_then : Quiet g arm sc → Quiet g arm after_rows
  unfolding after_rows
  rows_then q = (rows-Quiet env g arm ses sc q).1

  newest-superseded : Quiet g arm sc → superseded arm sc ≡ false
  unfolding superseded
  newest-superseded q = ground arith

  scope_applied :
      Quiet g arm sc
      → apply_scope env g arm true (rows ses) sc ≡ (clear_stale arm after_pass, false, none)
  unfolding apply_scope after_pass after_rows
  scope_applied q =
      let (over1, q1) = rows-Quiet env g arm ses sc q in
      let (over2, q2) = pass-Quiet env g arm ses (registered_keys env) after_rows q1 in
      rw (newest-superseded q, over1, over2) refl

  -- The run in one equation.
  reconciled :
      Quiet g arm sc
      → run_one_reconcile env g arm true (rows ses) sc
        ≡ finish_first_reconcile none (close_window arm (clear_stale arm after_pass))
  unfolding run_one_reconcile
  reconciled q = rw (newest-superseded q, scope_applied q) refl

  entries-end :
      (t : ScopeState V)
      → (finish_first_reconcile none (close_window arm (clear_stale arm t))).entries ≡ t.entries
  unfolding finish_first_reconcile close_window clear_stale
  entries-end t = ground arith

  served_after :
      (j : NsKey) {c : CacheEntry V}
      → Quiet g arm sc
      → get j after_pass.entries ≡ some c
      → get j (run_one_reconcile env g arm true (rows ses) sc).entries ≡ some c
  served_after j q h =
      ap (λ t. get j t.entries) (reconciled q) ∙ ap (get j) (entries-end after_pass) ∙ h

  confirmed :
      (t : ScopeState V)
      → t.reconcile_gen ≡ arm.reconcile
      → t.disconnect_gen ≡ arm.disconnect
      → t.first_reconcile ≡ sc.first_reconcile
      → let u = finish_first_reconcile none (close_window arm (clear_stale arm t)) in
        (u.stale ≡ false) × (u.first_reconcile ≡ some (get_or sc.first_reconcile none))
  unfolding finish_first_reconcile close_window clear_stale
  confirmed t a b c = ground arith

  -- A reconcile whose List succeeds and that nothing overtakes, with no disconnect since its arming,
  -- leaves the scope no longer stale and the first reconcile finished: with success, or the outcome
  -- on record before.
  pub reconcile_confirms :
      Quiet g arm sc
      → sc.disconnect_gen ≡ arm.disconnect
      → let t = run_one_reconcile env g arm true (rows ses) sc in
        (t.stale ≡ false) × (t.first_reconcile ≡ some (get_or sc.first_reconcile none))
  reconcile_confirms q d =
      let a = rows-Bookkeeping env g arm ses sc q in
      let b =
        pass-Bookkeeping env g arm ses (registered_keys env) (apply_rows env g arm ses sc).0
          (rows-Quiet env g arm ses sc q).1 in
      rw (reconciled q) (
        confirmed after_pass (unfold after_pass after_rows in b.2 ∙ a.2 ∙ q.newest)
          (unfold after_pass after_rows in b.3 ∙ a.3 ∙ d)
          (unfold after_pass after_rows in b.7 ∙ a.7))

  -- After a reconcile that nothing overtakes, a registered key that the snapshot has no row of is
  -- on its registered default, at revision 0.
  pub reconcile_defaults :
      (sound : DeepEqualSound env) (j : NsKey) (def : KeyDef V Ctx)
      → Quiet g arm sc
      → lookup_key env j ≡ some def
      → Listed j (registered_keys env)
      → seen j ses ≡ false
      → OnDefault def j (run_one_reconcile env g arm true (rows ses) sc)
  reconcile_defaults sound j def q e l s =
      let (c, held, r, v) =
        pass_defaults env g arm ses (registered_keys env) j after_rows def sound (rows_then q) e s
          l in
      (c, served_after j q (unfold after_pass in held), r, v)

  -- After a reconcile that nothing overtakes, a key whose snapshot row decodes and passes the
  -- registered validator serves that row, or a newer one.
  pub reconcile_serves :
      (sound : DeepEqualSound env) (se : StoreEntry) (p : Publication V)
      → Quiet g arm sc
      → EntriesCoherent env sc
      → DistinctRows ses
      → InRows se ses
      → prepare env env.dispatch_context sc.scope se false ≡ ok p
      → (c : CacheEntry V) × (get
            (key_of se)
            (run_one_reconcile env g arm true (rows ses) sc).entries
          ≡ some c)
        × ServesRow env se c
  unfolding after_rows
  reconcile_serves sound se p q co d i e =
      let (c, held, s) = rows_serve env g arm ses se p sc sound q co d i e in
      let (over, q', kept) =
        pass_kept env g arm ses (registered_keys env) (key_of se) after_rows (rows_then q)
          (seen-in se ses i) in
      (c, served_after (key_of se) q (unfold after_pass in kept ∙ held), s)
