-- ===== src/Engine/Reconcile/Absent.antt =====
-- The pass over the registered keys that the snapshot has no row of.
use lib_systemplane.Prelude.{
  ◌≡◌, refl, ap, ◌∙◌, ◌⊎◌, inl, inr, ◌==◌, nat_comparable, string_comparable, true, false, some,
  get, arith, ok, List, [], ◌∷◌, eq→≡, Option-cases, Bool-cases,
}
use lib_systemplane.Engine.State.{
  NsKey, ns_key_comparable, Env, Shared, ScopeState, StoreEntry, CacheEntry, KeyDef, Arming,
}
use lib_systemplane.Engine.Scope.{mark_confirmed}
use lib_systemplane.Engine.Publish.{publish, entry_of}
use lib_systemplane.Engine.Publish.Serves.{DeepEqualSound}
use lib_systemplane.Engine.Ingest.{ingest_default, lookup_key, default_publication}
use lib_systemplane.Engine.Ingest.Outcome.{
  ingest_default_registered, publish_zero, publish_zero_taken,
}
use lib_systemplane.Engine.Reconcile.{apply_absent_key, apply_absent, keeps_cached_value, seen}
use lib_systemplane.Engine.Reconcile.Quiet.{Quiet, default-Quiet, default-other}

-- The registered default is in force under the key.
abbrev pub OnDefault : {V Ctx : Type 0} → KeyDef V Ctx → NsKey → ScopeState V → Type 0
OnDefault {V} def nk sc =
    (c : CacheEntry V) × (get nk sc.entries ≡ some c) × (c.revision ≡ 0) × (c.value ≡ def.default)

differs :
    (nk j : NsKey) (ses : List StoreEntry)
    → seen nk ses ≡ false
    → seen j ses ≡ true
    → (nk == j) ≡ false
differs nk j ses a b = ground (arith, eq→≡ nk j)

-- The registry's list names the key.
abbrev pub Listed : NsKey → List NsKey → Type 0
Listed j [] = ⊥
Listed j (nk ∷ nks) = (nk ≡ j) ⊎ Listed j nks

module _ {V Ctx : Type 0} (env : Env V Ctx) (g : Shared) (arm : Arming) where
  -- The two things that the pass does to a key.
  pub absent_cases :
      (nk : NsKey) (sc : ScopeState V)
      → Quiet g arm sc
      → ((apply_absent_key env g arm nk sc ≡ (mark_confirmed nk sc, false))
          × ((keeps_cached_value env arm nk sc).1 ≡ true))
        ⊎ ((apply_absent_key env g arm nk sc ≡ ((ingest_default env g nk false sc).0, false)))
  unfolding apply_absent_key
  absent_cases nk sc q = ground (arith, q.untouched nk, q.unfenced nk)

  agreed_cached :
      (nk : NsKey) (sc : ScopeState V) (def : KeyDef V Ctx)
      → DeepEqualSound env
      → lookup_key env nk ≡ some def
      → (keeps_cached_value env arm nk sc).1 ≡ true
      → OnDefault def nk sc
  agreed_cached nk sc def sound e h = elim (Option-cases (get nk sc.entries)) [
    | inl n ↦ absurd (unfold keeps_cached_value in ground arith)
    | inr (c, n) ↦ (
      c,
      n,
      unfold keeps_cached_value in ground arith,
      unfold keeps_cached_value in ground (arith, sound c.value def.default),
    )
  ]

  pub absent-Quiet :
      (nk : NsKey) (sc : ScopeState V)
      → Quiet g arm sc
      → Quiet g arm (apply_absent_key env g arm nk sc).0
  absent-Quiet nk sc q = elim (absent_cases nk sc q) [
    | inl (e, _) ↦ rw e (
        unfold mark_confirmed in
        record {
          up = q.up;
          live = q.live;
          newest = q.newest;
          untouched = q.untouched;
          unfenced = q.unfenced;
        })
    | inr e ↦ rw e (default-Quiet env g arm nk false sc q)
  ]

  absent-other :
      (nk j : NsKey) (sc : ScopeState V)
      → Quiet g arm sc
      → (nk == j) ≡ false
      → get j (apply_absent_key env g arm nk sc).0.entries ≡ get j sc.entries
  absent-other nk j sc q d = elim (absent_cases nk sc q) [
    | inl (e, _) ↦ rw e (unfold mark_confirmed in refl)
    | inr e ↦ rw e (default-other env g arm nk j false sc d)
  ]

  default_on :
      (nk : NsKey) (sc : ScopeState V) (def : KeyDef V Ctx)
      → Quiet g arm sc
      → lookup_key env nk ≡ some def
      → OnDefault def nk (ingest_default env g nk false sc).0
  default_on nk sc def q e =
      let p = default_publication sc.scope nk def.default false in
      let answer : (publish env g p sc).1 ≡ ok true =
        publish_zero_taken env g p sc refl q.up q.live in
      (
        entry_of p,
        rw (ingest_default_registered env g nk false sc e)
            (publish_zero env g p sc true refl answer).0,
        unfold entry_of in refl,
        unfold entry_of in refl,
      )

  pub absent-OnDefault :
      (nk : NsKey) (sc : ScopeState V) (def : KeyDef V Ctx)
      → DeepEqualSound env
      → Quiet g arm sc
      → lookup_key env nk ≡ some def
      → OnDefault def nk (apply_absent_key env g arm nk sc).0
  absent-OnDefault nk sc def sound q e = elim (absent_cases nk sc q) [
    | inl (a, agreed) ↦ rw a (unfold mark_confirmed in agreed_cached nk sc def sound e agreed)
    | inr a ↦ rw a (default_on nk sc def q e)
  ]

  absent_superseded :
      (nk : NsKey) (sc : ScopeState V)
      → Quiet g arm sc
      → (apply_absent_key env g arm nk sc).1 ≡ false
  absent_superseded nk sc q = elim (absent_cases nk sc q) [
    | inl (e, _) ↦ ap (λ r. r.1) e
    | inr e ↦ ap (λ r. r.1) e
  ]

  -- A key that the snapshot has a row of is skipped, and every key is left Quiet.
  pub pass_kept :
      (ses : List StoreEntry) (nks : List NsKey) (j : NsKey) (sc : ScopeState V)
      → Quiet g arm sc
      → seen j ses ≡ true
      → let r = apply_absent env g arm ses nks sc in
        (r.1 ≡ false) × Quiet g arm r.0 × (get j r.0.entries ≡ get j sc.entries)
  unfolding apply_absent
  pass_kept ses [] j sc q s = (refl, q, refl)
  pass_kept ses (nk ∷ nks) j sc q s = elim (Bool-cases (seen nk ses)) [
    | inl skip ↦ rw skip (pass_kept ses nks j sc q s)
    | inr work ↦
        rw (work, absent_superseded nk sc q)
          (let (f, q', e) =
              pass_kept ses nks j (apply_absent_key env g arm nk sc).0 (absent-Quiet nk sc q) s in
            (f, q', e ∙ absent-other nk j sc q (differs nk j ses work s)))
  ]

  OnDefault-kept :
      (nk j : NsKey) (sc : ScopeState V) (def : KeyDef V Ctx)
      → DeepEqualSound env
      → Quiet g arm sc
      → lookup_key env j ≡ some def
      → OnDefault def j sc
      → OnDefault def j (apply_absent_key env g arm nk sc).0
  OnDefault-kept nk j sc def sound q e (c, held, r, v) = elim (Bool-cases (nk == j)) [
    | inl same ↦ rw (eq→≡ nk j same) (absent-OnDefault j sc def sound q e)
    | inr d ↦ (c, absent-other nk j sc q d ∙ held, r, v)
  ]

  pass_keeps_default :
      (ses : List StoreEntry) (nks : List NsKey) (j : NsKey) (sc : ScopeState V)
      (def : KeyDef V Ctx)
      → DeepEqualSound env
      → Quiet g arm sc
      → lookup_key env j ≡ some def
      → OnDefault def j sc
      → OnDefault def j (apply_absent env g arm ses nks sc).0
  unfolding apply_absent
  pass_keeps_default ses [] j sc def sound q e o = o
  pass_keeps_default ses (nk ∷ nks) j sc def sound q e o = elim (Bool-cases (seen nk ses)) [
    | inl skip ↦ rw skip (pass_keeps_default ses nks j sc def sound q e o)
    | inr work ↦
        rw (work, absent_superseded nk sc q)
          (pass_keeps_default ses nks j (apply_absent_key env g arm nk sc).0 def sound
            (absent-Quiet nk sc q) e (OnDefault-kept nk j sc def sound q e o))
  ]

  pub pass_defaults :
      (ses : List StoreEntry) (nks : List NsKey) (j : NsKey) (sc : ScopeState V)
      (def : KeyDef V Ctx)
      → DeepEqualSound env
      → Quiet g arm sc
      → lookup_key env j ≡ some def
      → seen j ses ≡ false
      → Listed j nks
      → OnDefault def j (apply_absent env g arm ses nks sc).0
  unfolding apply_absent
  pass_defaults ses [] j sc def sound q e s l = absurd l
  pass_defaults ses (nk ∷ nks) j sc def sound q e s (inl same) =
      rw (same, s, absent_superseded j sc q)
        (pass_keeps_default ses nks j (apply_absent_key env g arm j sc).0 def sound
          (absent-Quiet j sc q) e (absent-OnDefault j sc def sound q e))
  pass_defaults ses (nk ∷ nks) j sc def sound q e s (inr l) = elim (Bool-cases (seen nk ses)) [
    | inl skip ↦ rw skip (pass_defaults ses nks j sc def sound q e s l)
    | inr work ↦
        rw (work, absent_superseded nk sc q)
          (pass_defaults ses nks j (apply_absent_key env g arm nk sc).0 def sound
            (absent-Quiet nk sc q) e s l)
  ]

  pub pass-Quiet :
      (ses : List StoreEntry) (nks : List NsKey) (sc : ScopeState V)
      → Quiet g arm sc
      → let r = apply_absent env g arm ses nks sc in (r.1 ≡ false) × Quiet g arm r.0
  unfolding apply_absent
  pass-Quiet ses [] sc q = (refl, q)
  pass-Quiet ses (nk ∷ nks) sc q = elim (Bool-cases (seen nk ses)) [
    | inl skip ↦ rw skip (pass-Quiet ses nks sc q)
    | inr work ↦
        rw (work, absent_superseded nk sc q)
          (pass-Quiet ses nks (apply_absent_key env g arm nk sc).0 (absent-Quiet nk sc q))
  ]
