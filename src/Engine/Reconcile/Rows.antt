-- ===== src/Engine/Reconcile/Rows.antt =====
-- The pass over the snapshot's rows.
use lib_systemplane.Prelude.{
  ◌≡◌, refl, ap, ◌∙◌, subst, ◌⊎◌, inl, inr, ◌==◌, nat_comparable, string_comparable, Bool, true,
  false, ◌||◌, some, get, arith, Result, ok, err, List, [], ◌∷◌, eq_refl, Bool-cases, is_some,
}
use lib_systemplane.Engine.State.{
  NsKey, ns_key_comparable, Env, Shared, ScopeState, StoreEntry, CacheEntry, Publication, Error,
  Arming,
}
use lib_systemplane.Engine.Scope.{cached}
use lib_systemplane.Engine.Publish.{
  publish, apply_decision, Decision, store, older, same_bytes, same_value,
}
use lib_systemplane.Engine.Publish.Serves.{DeepEqualSound, EntriesCoherent, publish-Serves}
use lib_systemplane.Engine.Publish.Fence.{publish_taken}
use lib_systemplane.Engine.Ingest.{prepare, key_of}
use lib_systemplane.Engine.Ingest.Outcome.{prepared, ServesRow}
use lib_systemplane.Engine.Reconcile.{
  apply_snapshot_row, apply_rows, apply_prepared, apply_unusable_row, is_unregistered, seen,
}
use lib_systemplane.Engine.Steps.Frames.{publish-Bookkeeping, ingest_default-Bookkeeping}
use lib_systemplane.Engine.Steps.{row_applied}
use lib_systemplane.Engine.Steps.Cache.{Step-EntriesCoherent}
use lib_systemplane.Engine.Reconcile.Quiet.{Quiet, row-Quiet, usable_applied, prepared-other}
use lib_systemplane.Engine.Reconcile

-- The rows have different keys, as the store's primary key has it.
abbrev pub DistinctRows : List StoreEntry → Type 0
DistinctRows [] = Unit
DistinctRows (se ∷ ses) = (seen (key_of se) ses ≡ false) × DistinctRows ses

abbrev pub InRows : StoreEntry → List StoreEntry → Type 0
InRows se [] = ⊥
InRows se (r ∷ rs) = (r ≡ se) ⊎ InRows se rs

pub seen-in :
    (se : StoreEntry) (ses : List StoreEntry) → InRows se ses → seen (key_of se) ses ≡ true
unfolding seen
seen-in se [] i = absurd i
seen-in se (r ∷ rs) (inl e) = rw (e, eq_refl (key_of se)) refl
seen-in se (r ∷ rs) (inr i) = ground (arith, seen-in se rs i)

module _ {V Ctx : Type 0} (env : Env V Ctx) (g : Shared) (arm : Arming) where
  decision_answers :
      (p : Publication V) (d : Decision) (sc : ScopeState V)
      → (n : Bool) × ((apply_decision g p d sc).1 ≡ ok n)
  unfolding apply_decision
  decision_answers p store sc = (true, refl)
  decision_answers p older sc = (false, refl)
  decision_answers p same_bytes sc = (false, refl)
  decision_answers p same_value sc = (false, refl)

  publish_answers :
      (p : Publication V) (sc : ScopeState V)
      → Quiet g arm sc
      → (n : Bool) × ((publish env g p sc).1 ≡ ok n)
  publish_answers p sc q = rw (publish_taken env g p sc q.up q.live) (decision_answers p _ _)

  prepared-scope :
      (nk : NsKey) (r : Result Error (Publication V)) (sc : ScopeState V)
      → Quiet g arm sc
      → (apply_prepared env g arm nk r sc).scope ≡ sc.scope
  prepared-scope nk (ok p) sc q =
      ap (λ s. s.scope) (usable_applied env g arm nk p sc q) ∙ (publish-Bookkeeping env g p sc).0.0
  prepared-scope nk (err e) sc q =
      unfold apply_prepared in
      elim (Bool-cases (is_unregistered e || is_some (cached nk sc))) [
        | inl keep ↦ rw keep refl
        | inr lost ↦ rw lost ((ingest_default-Bookkeeping env g nk false sc).0.0)
      ]

  row_prepared :
      (se : StoreEntry) (sc : ScopeState V) (r : Result Error (Publication V))
      → Quiet g arm sc
      → prepare env env.dispatch_context sc.scope se false ≡ r
      → apply_snapshot_row env g arm se sc ≡ (apply_prepared env g arm (key_of se) r sc, false)
  row_prepared se sc r q e =
      Reconcile.Quiet.row_applied env g arm se sc q
      ∙ ap (λ p. (apply_prepared env g arm (key_of se) p sc, false)) e

  row-scope :
      (se : StoreEntry) (sc : ScopeState V)
      → Quiet g arm sc
      → (apply_snapshot_row env g arm se sc).0.scope ≡ sc.scope
  row-scope se sc q = ap (λ r. r.0.scope) (row_prepared se sc _ q refl) ∙ prepared-scope _ _ sc q

  row-other :
      (se : StoreEntry) (j : NsKey) (sc : ScopeState V)
      → Quiet g arm sc
      → (key_of se == j) ≡ false
      → get j (apply_snapshot_row env g arm se sc).0.entries ≡ get j sc.entries
  row-other se j sc q d =
      ap (λ r. get j r.0.entries) (row_prepared se sc _ q refl)
      ∙ prepared-other env g arm (key_of se) j _ sc q
          (λ p e. (prepared env env.dispatch_context sc.scope se false p e).0) d

  row_serves :
      (se : StoreEntry) (p : Publication V) (sc : ScopeState V)
      → DeepEqualSound env
      → Quiet g arm sc
      → EntriesCoherent env sc
      → prepare env env.dispatch_context sc.scope se false ≡ ok p
      → (c : CacheEntry V) × (get (key_of se) (apply_snapshot_row env g arm se sc).0.entries
          ≡ some c)
        × ServesRow env se c
  row_serves se p sc sound q co e =
      let (k, rev, val, raw) = prepared env env.dispatch_context sc.scope se false p e in
      let (n, answer) = publish_answers p sc q in
      let (c, held, s) = publish-Serves env sound g p sc (λ b. rw raw val) co answer in
      (
        c,
        ap (λ r. get (key_of se) r.0.entries) (row_prepared se sc (ok p) q e)
            ∙ ap (λ s. get (key_of se) s.entries) (usable_applied env g arm (key_of se) p sc q)
            ∙ subst (λ j. get j (publish env g p sc).0.entries ≡ some c) k held,
        ground (arith, s, rev, val),
      )

  row_current :
      (se : StoreEntry) (sc : ScopeState V)
      → Quiet g arm sc
      → (apply_snapshot_row env g arm se sc).1 ≡ false
  row_current se sc q = ap (λ r. r.1) (row_prepared se sc _ q refl)

  pub rows-Quiet :
      (ses : List StoreEntry) (sc : ScopeState V)
      → Quiet g arm sc
      → let r = apply_rows env g arm ses sc in (r.1 ≡ false) × Quiet g arm r.0
  unfolding apply_rows
  rows-Quiet [] sc q = (refl, q)
  rows-Quiet (se ∷ ses) sc q =
      rw (row_current se sc q)
        (rows-Quiet ses (apply_snapshot_row env g arm se sc).0 (row-Quiet env g arm se sc q))

  -- A key without a row keeps its entry.
  pub rows_kept :
      (ses : List StoreEntry) (j : NsKey) (sc : ScopeState V)
      → Quiet g arm sc
      → seen j ses ≡ false
      → get j (apply_rows env g arm ses sc).0.entries ≡ get j sc.entries
  unfolding apply_rows seen
  rows_kept [] j sc q s = refl
  rows_kept (se ∷ ses) j sc q s = rw (row_current se sc q) (
      rows_kept ses j (apply_snapshot_row env g arm se sc).0 (row-Quiet env g arm se sc q)
        (ground arith)
      ∙ row-other se j sc q (ground arith))

  -- A usable row, or something newer, is served after the pass.
  pub rows_serve :
      (ses : List StoreEntry) (se : StoreEntry) (p : Publication V) (sc : ScopeState V)
      → DeepEqualSound env
      → Quiet g arm sc
      → EntriesCoherent env sc
      → DistinctRows ses
      → InRows se ses
      → prepare env env.dispatch_context sc.scope se false ≡ ok p
      → (c : CacheEntry V) × (get (key_of se) (apply_rows env g arm ses sc).0.entries ≡ some c)
        × ServesRow env se c
  unfolding apply_rows
  rows_serve [] se p sc sound q co d i e = absurd i
  rows_serve (r ∷ rs) se p sc sound q co (fresh, d) (inl same) e =
      let (c, held, s) = row_serves se p sc sound q co e in
      let head = (apply_snapshot_row env g arm r sc).0 in
      let next_quiet = row-Quiet env g arm r sc q in
      (
        c,
        rw (row_current r sc q) (
            rows_kept rs (key_of se) head next_quiet
              (subst (λ x. seen (key_of x) rs ≡ false) same fresh)
            ∙ ap (λ x. get (key_of se) (apply_snapshot_row env g arm x sc).0.entries) same
            ∙ held),
        s,
      )
  rows_serve (r ∷ rs) se p sc sound q co (fresh, d) (inr i) e = rw (row_current r sc q) (
      rows_serve rs se p (apply_snapshot_row env g arm r sc).0 sound (row-Quiet env g arm r sc q)
        (Step-EntriesCoherent env sound (row_applied g arm r sc) co) d i
        (ap (λ s. prepare env env.dispatch_context s se false) (row-scope r sc q) ∙ e))
