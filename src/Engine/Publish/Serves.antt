-- ===== src/Engine/Publish/Serves.antt =====
-- What a caller may conclude from the answer of `publish`.
use lib_systemplane.Prelude.{
  ℕ, ◌≤◌, ◌<◌, ◌≡◌, refl, ◌≢◌, ◌⊎◌, inr, nat_comparable, string_comparable, Bool, true, false,
  Option, none, some, get, arith, ok, is_empty, bytes_equal→≡, List, eq_refl,
}
use lib_systemplane.Engine.State.{
  NsKey, ns_key_comparable, ns_key_beq_iff, Env, Shared, ScopeState, CacheEntry, Publication,
}
use lib_systemplane.Engine.Publish.{decide, entry_of, refresh_provenance, refresh_raw, publish}
use lib_systemplane.Engine.Publish.Fence.{settled, settled_total, get-publish, publish_open}

module _ {V Ctx : Type 0} (env : Env V Ctx) where
  settled-ge :
      (p : Publication V) (c c' : CacheEntry V)
      → p.revision ≢ 0
      → settled (decide env (some c) p) (some c) p ≡ some c'
      → c.revision ≤ c'.revision
  unfolding settled decide entry_of refresh_provenance refresh_raw
  settled-ge p c c' h e = ground arith

  -- A publication that has a revision takes no key of the scope back to an older revision.
  pub publish_monotone :
      (g : Shared) (p : Publication V) (sc : ScopeState V) (j : NsKey) (c c' : CacheEntry V)
      → p.revision ≢ 0
      → get j sc.entries ≡ some c
      → get j (publish env g p sc).0.entries ≡ some c'
      → c.revision ≤ c'.revision
  publish_monotone g p sc j c c' r before after =
      ground (arith, get-publish env g p sc j, ns_key_beq_iff p.ns_key j, settled-ge p c c' r)

-- A decoded value belongs to its bytes, where there are any.
abbrev pub Coherent : {V Ctx : Type 0} → Env V Ctx → List ℕ → V → Type 0
Coherent env raw v = is_empty raw ≡ false → env.unmarshal raw ≡ some v

-- The entry serves the publication, or a newer one.
abbrev pub Serves : {V : Type 0} → Publication V → CacheEntry V → Type 0
Serves p c = (p.revision < c.revision) ⊎ ((c.revision ≡ p.revision) × (c.value ≡ p.value))

-- `reflect.DeepEqual` answers yes only for equal values.
abbrev pub DeepEqualSound : {V Ctx : Type 0} → Env V Ctx → Type 0
DeepEqualSound {V} env = (a b : V) → env.deep_equal a b ≡ true → a ≡ b

module _ {V Ctx : Type 0} (env : Env V Ctx) (sound : DeepEqualSound env) where
  settled-Serves :
      (p : Publication V) (c c' : CacheEntry V)
      → Coherent env p.raw p.value
      → Coherent env c.raw c.value
      → settled (decide env (some c) p) (some c) p ≡ some c'
      → Serves p c'
  unfolding settled decide entry_of refresh_provenance refresh_raw
  settled-Serves p c c' hp hc e =
      ground (arith, bytes_equal→≡ p.raw c.raw, sound p.value c.value, hp, hc)

  settled-some :
      (c : Option (CacheEntry V)) (p : Publication V)
      → Coherent env p.raw p.value
      → ((d : CacheEntry V) → c ≡ some d → Coherent env d.raw d.value)
      → (c' : CacheEntry V) × (settled (decide env c p) c p ≡ some c') × Serves p c'
  unfolding settled decide entry_of
  settled-some none p hp hc = (entry_of p, refl, inr (refl, refl))
  settled-some (some c) p hp hc =
      let (c', e) = settled_total env p (some c) in (c', e, settled-Serves p c c' hp (hc c refl) e)

  settled-Coherent :
      (c : Option (CacheEntry V)) (p : Publication V) (c' : CacheEntry V)
      → Coherent env p.raw p.value
      → ((d : CacheEntry V) → c ≡ some d → Coherent env d.raw d.value)
      → settled (decide env c p) c p ≡ some c'
      → Coherent env c'.raw c'.value
  unfolding settled decide entry_of refresh_provenance refresh_raw
  settled-Coherent none p c' hp hc e = ground (arith, hp)
  settled-Coherent (some c) p c' hp hc e = ground (arith, sound p.value c.value, hp, hc c refl)

-- Every cached value belongs to its cached bytes.
abbrev pub EntriesCoherent : {V Ctx : Type 0} → Env V Ctx → ScopeState V → Type 0
EntriesCoherent {V} env sc =
    (j : NsKey) (c : CacheEntry V) → get j sc.entries ≡ some c → Coherent env c.raw c.value

module _ {V Ctx : Type 0} (env : Env V Ctx) (sound : DeepEqualSound env) (g : Shared)
    (p : Publication V) (sc : ScopeState V) where
  pub publish-EntriesCoherent :
      Coherent env p.raw p.value
      → EntriesCoherent env sc
      → EntriesCoherent env (publish env g p sc).0
  publish-EntriesCoherent hp hs j c' e = ground (
    arith,
    get-publish env g p sc j,
    hs j c',
    settled-Coherent env sound (get p.ns_key sc.entries) p c' hp (hs p.ns_key),
  )

  -- A publication that is answered without an error is served by the cache from then on, or a
  -- newer one is.
  pub publish-Serves :
      {notify : Bool}
      → Coherent env p.raw p.value
      → EntriesCoherent env sc
      → (publish env g p sc).1 ≡ ok notify
      → (c : CacheEntry V) × (get p.ns_key (publish env g p sc).0.entries ≡ some c) × Serves p c
  publish-Serves hp hs h =
      let (c, e, s) = settled-some env sound (get p.ns_key sc.entries) p hp (hs p.ns_key) in
      (
        c,
        ground (
          arith,
          get-publish env g p sc p.ns_key,
          eq_refl p.ns_key,
          publish_open env g p sc h,
          e,
        ),
        s,
      )
