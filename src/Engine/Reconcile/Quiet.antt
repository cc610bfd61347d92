-- ===== src/Engine/Reconcile/Quiet.antt =====
-- A reconcile that nothing overtakes: the engine is open, the arming is the newest one, and its
-- window has recorded no key.
use lib_systemplane.Prelude.{
  ◌≡◌, refl, ap, ◌∙◌, inl, inr, ◌==◌, nat_comparable, string_comparable, Bool, false, ◌||◌, get,
  arith, Result, ok, err, Option-cases, Bool-cases, is_some,
}
use lib_systemplane.Engine.State.{
  NsKey, ns_key_comparable, Env, Shared, ScopeState, StoreEntry, Publication, Error, Arming,
}
use lib_systemplane.Engine.Windows.{touched_in, unusable_in}
use lib_systemplane.Engine.Scope.{cached}
use lib_systemplane.Engine.Publish.{publish}
use lib_systemplane.Engine.Publish.Fence.{get-publish}
use lib_systemplane.Engine.Steps.Frames.{publish-Bookkeeping, ingest_default-Bookkeeping}
use lib_systemplane.Engine.Ingest.{prepare, key_of, ingest_default, lookup_key, default_publication}
use lib_systemplane.Engine.Ingest.Outcome.{ingest_default_registered, ingest_default_unregistered}
use lib_systemplane.Engine.Reconcile.{apply_snapshot_row, apply_prepared, is_unregistered}

pub record Quiet {V : Type 0} (g : Shared) (arm : Arming) (sc : ScopeState V) : Type 0 where
  pub up : g.closed ≡ false
  pub live : sc.reconcile_stop ≡ false
  pub newest : sc.reconcile_gen ≡ arm.reconcile
  pub untouched : (j : NsKey) → touched_in arm.window j sc.windows ≡ false
  pub unfenced : (j : NsKey) → unusable_in arm.window j sc.windows ≡ false

module _ {V Ctx : Type 0} (env : Env V Ctx) (g : Shared) (arm : Arming) where
  pub publish-Quiet :
      (p : Publication V) (sc : ScopeState V) → Quiet g arm sc → Quiet g arm (publish env g p sc).0
  publish-Quiet p sc q =
      let (same, ws) = publish-Bookkeeping env g p sc in
      record {
        up = q.up;
        live = same.8 ∙ q.live;
        newest = same.2 ∙ q.newest;
        untouched = λ j. ap (touched_in arm.window j) ws ∙ q.untouched j;
        unfenced = λ j. ap (unusable_in arm.window j) ws ∙ q.unfenced j;
      }

  pub default-Quiet :
      (nk : NsKey) (deleted : Bool) (sc : ScopeState V)
      → Quiet g arm sc
      → Quiet g arm (ingest_default env g nk deleted sc).0
  default-Quiet nk deleted sc q =
      let (same, ws) = ingest_default-Bookkeeping env g nk deleted sc in
      record {
        up = q.up;
        live = same.8 ∙ q.live;
        newest = same.2 ∙ q.newest;
        untouched = λ j. ap (touched_in arm.window j) ws ∙ q.untouched j;
        unfenced = λ j. ap (unusable_in arm.window j) ws ∙ q.unfenced j;
      }

  -- The row is applied as it was prepared.
  pub row_applied :
      (se : StoreEntry) (sc : ScopeState V)
      → Quiet g arm sc
      → apply_snapshot_row env g arm se sc ≡ (
        apply_prepared env g arm
            (key_of se)
            (prepare env env.dispatch_context sc.scope se false)
            sc,
        false,
      )
  unfolding apply_snapshot_row
  row_applied se sc q = ground (arith, q.untouched (key_of se))

  pub usable_applied :
      (nk : NsKey) (p : Publication V) (sc : ScopeState V)
      → Quiet g arm sc
      → apply_prepared env g arm nk (ok p) sc ≡ (publish env g p sc).0
  unfolding apply_prepared
  usable_applied nk p sc q = rw ((publish-Quiet p sc q).unfenced nk) refl

  pub prepared-Quiet :
      (nk : NsKey) (r : Result Error (Publication V)) (sc : ScopeState V)
      → Quiet g arm sc
      → Quiet g arm (apply_prepared env g arm nk r sc)
  prepared-Quiet nk (ok p) sc q = rw (usable_applied nk p sc q) (publish-Quiet p sc q)
  prepared-Quiet nk (err e) sc q =
      unfold apply_prepared in
      elim (Bool-cases (is_unregistered e || is_some (cached nk sc))) [
        | inl keep ↦ rw keep q
        | inr lost ↦ rw lost (default-Quiet nk false sc q)
      ]

  pub row-Quiet :
      (se : StoreEntry) (sc : ScopeState V)
      → Quiet g arm sc
      → Quiet g arm (apply_snapshot_row env g arm se sc).0
  row-Quiet se sc q = rw (row_applied se sc q) (prepared-Quiet (key_of se) _ sc q)

  pub default-other :
      (nk j : NsKey) (deleted : Bool) (sc : ScopeState V)
      → (nk == j) ≡ false
      → get j (ingest_default env g nk deleted sc).0.entries ≡ get j sc.entries
  default-other nk j deleted sc d = elim (Option-cases (lookup_key env nk)) [
    | inl e ↦ rw (ingest_default_unregistered env g nk deleted sc e) refl
    | inr (def, e) ↦ rw (ingest_default_registered env g nk deleted sc e) (
        ground
          (arith, get-publish env g (default_publication sc.scope nk def.default deleted) sc j))
  ]

  pub prepared-other :
      (nk j : NsKey) (r : Result Error (Publication V)) (sc : ScopeState V)
      → Quiet g arm sc
      → ((p : Publication V) → r ≡ ok p → p.ns_key ≡ nk)
      → (nk == j) ≡ false
      → get j (apply_prepared env g arm nk r sc).entries ≡ get j sc.entries
  prepared-other nk j (ok p) sc q k d =
      rw (usable_applied nk p sc q) (ground (arith, get-publish env g p sc j, k p refl))
  prepared-other nk j (err e) sc q k d =
      unfold apply_prepared in
      elim (Bool-cases (is_unregistered e || is_some (cached nk sc))) [
        | inl keep ↦ rw keep refl
        | inr lost ↦ rw lost (default-other nk j false sc d)
      ]
