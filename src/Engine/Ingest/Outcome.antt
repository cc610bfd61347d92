-- ===== src/Engine/Ingest/Outcome.antt =====
-- What the answers of `ingest` and `ingestDefault` mean for the cache.
use lib_systemplane.Prelude.{
  ◌<◌, ◌≡◌, refl, sym, ap, ◌∙◌, subst, ◌⊎◌, inl, inr, nat_comparable, string_comparable, Bool, true,
  false, Option, none, some, get, arith, Result, ok, err, eq_refl, Option-cases,
}
use lib_systemplane.Engine.State.{
  NsKey, ns_key_comparable, Env, Shared, Scope, ScopeState, StoreEntry, CacheEntry, Publication,
  Error, unregistered_key, KeyDef,
}
use lib_systemplane.Engine.Windows.{record_key}
use lib_systemplane.Engine.Scope.{no_fence}
use lib_systemplane.Engine.Publish.{publish, decide, entry_of, store, apply_decision}
use lib_systemplane.Engine.Publish.Fence.{
  publish_refused, publish_open, publish_taken, get-publish, settled,
}
use lib_systemplane.Engine.Publish.Serves.{EntriesCoherent, DeepEqualSound, publish-Serves}
use lib_systemplane.Engine.Ingest.{
  ingest, ingest_begin, ingest_commit, conclude, prepare, key_of, ingest_default, lookup_key,
  default_publication,
}

-- The cache entry serves the stored row, or a newer one.
abbrev pub ServesRow : {V Ctx : Type 0} → Env V Ctx → StoreEntry → CacheEntry V → Type 0
ServesRow env se c =
    (se.revision < c.revision)
    ⊎ ((c.revision ≡ se.revision) × (env.unmarshal se.value ≡ some c.value))

module _ {V Ctx : Type 0} (env : Env V Ctx) where
  pub prepared :
      (ctx : Ctx) (scope : Scope) (se : StoreEntry) (pregraded : Bool) (p : Publication V)
      → prepare env ctx scope se pregraded ≡ ok p
      → (p.ns_key ≡ key_of se)
        × (p.revision ≡ se.revision)
        × (env.unmarshal se.value ≡ some p.value)
        × (p.raw ≡ se.value)
  unfolding prepare
  prepared ctx scope se pregraded p h = ground arith

  conclude_ok :
      (nk : NsKey) (r : ScopeState V × Result Error Bool)
      → (conclude nk true r).1 ≡ none
      → (n : Bool) × (r.1 ≡ ok n) × ((conclude nk true r).0.entries ≡ r.0.entries)
  unfolding conclude record_key
  conclude_ok nk (sc, ok n) h = (n, refl, refl)
  conclude_ok nk (sc, err e) h = cc

  commit_serves :
      (sound : DeepEqualSound env) (g : Shared) (ctx : Ctx) (scope : Scope) (se : StoreEntry)
      (r : Result Error (Publication V)) (sc : ScopeState V)
      → prepare env ctx scope se true ≡ r
      → EntriesCoherent env sc
      → (ingest_commit env g (key_of se) r no_fence true sc).1 ≡ none
      → (c : CacheEntry V) × (get
            (key_of se)
            (ingest_commit env g (key_of se) r no_fence true sc).0.entries
          ≡ some c)
        × ServesRow env se c
  unfolding ingest_commit
  commit_serves sound g ctx scope se (err e) sc q co h = cc
  commit_serves sound g ctx scope se (ok p) sc q co h =
      let (k, rev, val, raw) = prepared ctx scope se true p q in
      let (n, o, same) = conclude_ok (key_of se) (publish env g p sc) h in
      let (c, e, s) = publish-Serves env sound g p sc (λ b. rw raw val) co o in
      (
        c,
        ap (get (key_of se)) same ∙ subst (λ j. get j (publish env g p sc).0.entries ≡ some c) k e,
        ground (arith, s, rev, val),
      )

  -- A pregraded ingress, the one of a local write, that answers without an error leaves the row,
  -- or a newer one, in the cache.
  pub ingest_serves :
      (sound : DeepEqualSound env) (g : Shared) (ctx : Ctx) (se : StoreEntry) (sc : ScopeState V)
      → EntriesCoherent env sc
      → (ingest env g ctx se no_fence true sc).1 ≡ none
      → (c : CacheEntry V) × (get (key_of se) (ingest env g ctx se no_fence true sc).0.entries
          ≡ some c)
        × ServesRow env se c
  unfolding ingest ingest_begin record_key
  ingest_serves sound g ctx se sc co h =
      commit_serves sound g ctx sc.scope se (prepare env ctx sc.scope se true)
        (ingest_begin (key_of se) sc) refl co h

  conclude_err :
      (nk : NsKey) (r : ScopeState V × Result Error Bool) (e : Error)
      → (conclude nk true r).1 ≡ some e
      → (r.1 ≡ err e) × ((conclude nk true r).0 ≡ record_key nk false r.0)
  unfolding conclude record_key
  conclude_err nk (sc, ok n) e h = cc
  conclude_err nk (sc, err f) e h = ground arith

  commit_refused :
      (g : Shared) (nk : NsKey) (r : Result Error (Publication V)) (sc : ScopeState V) (e : Error)
      → (ingest_commit env g nk r no_fence true sc).1 ≡ some e
      → (ingest_commit env g nk r no_fence true sc).0 ≡ record_key nk false sc
  unfolding ingest_commit
  commit_refused g nk (err f) sc e h = refl
  commit_refused g nk (ok p) sc e h =
      let (refused, same) = conclude_err nk (publish env g p sc) e h in
      same ∙ ap (record_key nk false) (publish_refused env g p sc refused)

  -- A pregraded ingress that answers with an error changes nothing but the reconcile's windows.
  pub ingest_refused :
      (g : Shared) (ctx : Ctx) (se : StoreEntry) (sc : ScopeState V) (e : Error)
      → (ingest env g ctx se no_fence true sc).1 ≡ some e
      → let sc' = (ingest env g ctx se no_fence true sc).0 in
        sc' ≡ record sc { windows = sc'.windows }
  unfolding ingest ingest_begin record_key
  ingest_refused g ctx se sc e h =
      let same =
        commit_refused g (key_of se) (prepare env ctx sc.scope se true)
          (ingest_begin (key_of se) sc) e h in
      rw same refl

  decide_zero :
      (c : Option (CacheEntry V)) (p : Publication V) → p.revision ≡ 0 → decide env c p ≡ store
  unfolding decide
  decide_zero none p h = refl
  decide_zero (some c) p h = ground arith

  -- Revision 0 always wins the fence.
  pub publish_zero :
      (g : Shared) (p : Publication V) (sc : ScopeState V) (n : Bool)
      → p.revision ≡ 0
      → (publish env g p sc).1 ≡ ok n
      → (get p.ns_key (publish env g p sc).0.entries ≡ some (entry_of p)) × (n ≡ true)
  unfolding settled
  publish_zero g p sc n z h =
      let (up, live) = publish_open env g p sc h in
      let d = decide_zero (get p.ns_key sc.entries) p z in
      (
        get-publish env g p sc p.ns_key ∙ rw (up, live, eq_refl p.ns_key, d) refl,
        unfold publish apply_decision in ground arith,
      )

  pub publish_zero_taken :
      (g : Shared) (p : Publication V) (sc : ScopeState V)
      → p.revision ≡ 0
      → g.closed ≡ false
      → sc.reconcile_stop ≡ false
      → (publish env g p sc).1 ≡ ok true
  unfolding apply_decision
  publish_zero_taken g p sc z up live =
      rw (publish_taken env g p sc up live, decide_zero (get p.ns_key sc.entries) p z) refl

  pub ingest_default_unregistered :
      (g : Shared) (nk : NsKey) (deleted : Bool) (sc : ScopeState V)
      → lookup_key env nk ≡ none
      → ingest_default env g nk deleted sc ≡ (sc, err unregistered_key)
  unfolding ingest_default
  ingest_default_unregistered g nk deleted sc e = rw (e, ingest_default)

  pub ingest_default_registered :
      (g : Shared) (nk : NsKey) (deleted : Bool) (sc : ScopeState V) {def : KeyDef V Ctx}
      → lookup_key env nk ≡ some def
      → ingest_default env g nk deleted sc
        ≡ publish env g (default_publication sc.scope nk def.default deleted) sc
  unfolding ingest_default
  ingest_default_registered g nk deleted sc e = rw (e, ingest_default)

  -- A no-row ingress that answers without an error puts the registered default in force, at
  -- revision 0, whatever was cached.
  pub ingest_default_serves :
      (g : Shared) (nk : NsKey) (deleted : Bool) (sc : ScopeState V) (n : Bool)
      → (ingest_default env g nk deleted sc).1 ≡ ok n
      → (def : KeyDef V Ctx) × (lookup_key env nk ≡ some def)
        × (get nk (ingest_default env g nk deleted sc).0.entries
            ≡ some (entry_of (default_publication sc.scope nk def.default deleted)))
        × (n ≡ true)
  ingest_default_serves g nk deleted sc n h = elim (Option-cases (lookup_key env nk)) [
    | inl e ↦
        let unknown = ap (λ r. r.1) (ingest_default_unregistered g nk deleted sc e) in
        absurd (let clash : err unregistered_key ≡ ok n = sym unknown ∙ h in cc)
    | inr (def, e) ↦
        let same = ingest_default_registered g nk deleted sc e in
        let p = default_publication sc.scope nk def.default deleted in
        let (held, told) = publish_zero g p sc n refl (rw (← same) h) in
        (def, e, rw same held, told)
  ]
