-- ===== src/Engine/Reconcile/Bookkeeping.antt =====
-- The two passes leave the generations, the stale flag and the first outcome alone.
use lib_systemplane.Prelude.{
  ◌≡◌, refl, inl, inr, nat_comparable, string_comparable, false, ◌||◌, arith, Result, ok, err, List,
  [], ◌∷◌, Bool-cases, is_some,
}
use lib_systemplane.Engine.State.{
  NsKey, Env, Shared, ScopeState, StoreEntry, Publication, Error, Arming,
}
use lib_systemplane.Engine.Scope.{cached, mark_confirmed}
use lib_systemplane.Engine.Reconcile.{
  apply_snapshot_row, apply_rows, apply_prepared, apply_absent_key, apply_absent, is_unregistered,
  seen,
}
use lib_systemplane.Engine.Steps.Frames.{
  Bookkeeping, publish-Bookkeeping, ingest_default-Bookkeeping,
}
use lib_systemplane.Engine.Reconcile.Quiet.{Quiet, row_applied, usable_applied, row-Quiet}
use lib_systemplane.Engine.Reconcile.Absent.{absent_cases, absent-Quiet}

module _ {V : Type 0} where
  Bookkeeping-refl : (s : ScopeState V) → Bookkeeping s s
  Bookkeeping-refl s = ground arith

  Bookkeeping-trans : (s t u : ScopeState V) → Bookkeeping s t → Bookkeeping t u → Bookkeeping s u
  Bookkeeping-trans s t u h k = ground arith

module _ {V Ctx : Type 0} (env : Env V Ctx) (g : Shared) (arm : Arming) where
  prepared-Bookkeeping :
      (nk : NsKey) (r : Result Error (Publication V)) (sc : ScopeState V)
      → Quiet g arm sc
      → Bookkeeping sc (apply_prepared env g arm nk r sc)
  prepared-Bookkeeping nk (ok p) sc q =
      rw (usable_applied env g arm nk p sc q) ((publish-Bookkeeping env g p sc).0)
  prepared-Bookkeeping nk (err e) sc q =
      unfold apply_prepared in
      elim (Bool-cases (is_unregistered e || is_some (cached nk sc))) [
        | inl keep ↦ rw keep (Bookkeeping-refl sc)
        | inr lost ↦ rw lost ((ingest_default-Bookkeeping env g nk false sc).0)
      ]

  row-Bookkeeping :
      (se : StoreEntry) (sc : ScopeState V)
      → Quiet g arm sc
      → (apply_snapshot_row env g arm se sc).1 ≡ false
        × Bookkeeping sc (apply_snapshot_row env g arm se sc).0
  row-Bookkeeping se sc q = rw (row_applied env g arm se sc q) (refl, prepared-Bookkeeping _ _ sc q)

  pub rows-Bookkeeping :
      (ses : List StoreEntry) (sc : ScopeState V)
      → Quiet g arm sc
      → Bookkeeping sc (apply_rows env g arm ses sc).0
  unfolding apply_rows
  rows-Bookkeeping [] sc q = Bookkeeping-refl sc
  rows-Bookkeeping (se ∷ ses) sc q =
      let (current, same) = row-Bookkeeping se sc q in
      let head = (apply_snapshot_row env g arm se sc).0 in
      rw current (
        Bookkeeping-trans sc head (apply_rows env g arm ses head).0 same
          (rows-Bookkeeping ses head (row-Quiet env g arm se sc q)))

  absent-Bookkeeping :
      (nk : NsKey) (sc : ScopeState V)
      → Quiet g arm sc
      → (apply_absent_key env g arm nk sc).1 ≡ false
        × Bookkeeping sc (apply_absent_key env g arm nk sc).0
  unfolding mark_confirmed
  absent-Bookkeeping nk sc q = elim (absent_cases env g arm nk sc q) [
    | inl (e, _) ↦ rw e (refl, Bookkeeping-refl sc)
    | inr e ↦ rw e (refl, (ingest_default-Bookkeeping env g nk false sc).0)
  ]

  pub pass-Bookkeeping :
      (ses : List StoreEntry) (nks : List NsKey) (sc : ScopeState V)
      → Quiet g arm sc
      → Bookkeeping sc (apply_absent env g arm ses nks sc).0
  unfolding apply_absent
  pass-Bookkeeping ses [] sc q = Bookkeeping-refl sc
  pass-Bookkeeping ses (nk ∷ nks) sc q = elim (Bool-cases (seen nk ses)) [
    | inl skip ↦ rw skip (pass-Bookkeeping ses nks sc q)
    | inr work ↦
        let (current, same) = absent-Bookkeeping nk sc q in
        let head = (apply_absent_key env g arm nk sc).0 in
        rw (work, current)
          (Bookkeeping-trans sc head (apply_absent env g arm ses nks head).0 same
            (pass-Bookkeeping ses nks head (absent-Quiet env g arm nk sc q)))
  ]
