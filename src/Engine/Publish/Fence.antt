-- ===== src/Engine/Publish/Fence.antt =====
-- The revision fence of `publish`: which entry a publication leaves in the cache.
use lib_systemplane.Prelude.{
  ◌≡◌, refl, ap, ◌∙◌, inl, inr, ◌==◌, nat_comparable, string_comparable, if◌then◌else◌, Bool, false,
  not, ◌||◌, Option, none, some, get, del, get-put, arith, ok, err, Option-cases, Bool-cases,
  map_option,
}
use lib_systemplane.Engine.State.{
  NsKey, ns_key_comparable, ns_key_beq_iff, Env, Shared, ScopeState, CacheEntry, Publication, Error,
}
use lib_systemplane.Engine.Dispatch.Frame.{dispatch-frame}
use lib_systemplane.Engine.Publish.{
  Decision, store, older, same_bytes, same_value, decide, entry_of, refresh_provenance, refresh_raw,
  keep_with, apply_decision, publish,
}

module _ {V : Type 0} where
  -- The entry that a decision leaves.
  unfoldable pub settled : Decision → Option (CacheEntry V) → Publication V → Option (CacheEntry V)
  settled store c p = some (entry_of p)
  settled older c p = c
  settled same_bytes none p = none
  settled same_bytes (some c) p = some (refresh_provenance p c)
  settled same_value none p = none
  settled same_value (some c) p = some (refresh_raw p c)

  get-keep_with :
      (p : Publication V) (f : CacheEntry V → CacheEntry V) (sc : ScopeState V) (j : NsKey)
      → get j (keep_with p f sc).entries
        ≡ (if p.ns_key == j then map_option f (get p.ns_key sc.entries) else get j sc.entries)
  unfolding keep_with
  get-keep_with p f sc j = elim (Option-cases (get p.ns_key sc.entries)) [
    | inl e ↦ rw (e, keep_with) (ground (arith, ns_key_beq_iff p.ns_key j))
    | inr (c, e) ↦ rw (e, keep_with) (get-put p.ns_key j (f c) sc.entries)
  ]

  pub entries-apply_decision :
      (g : Shared) (p : Publication V) (d : Decision) (sc : ScopeState V) (j : NsKey)
      → get j (apply_decision g p d sc).0.entries
        ≡ (if p.ns_key == j then settled d (get p.ns_key sc.entries) p else get j sc.entries)
  unfolding apply_decision settled
  entries-apply_decision g p store sc j =
      ap (λ s. get j s.entries) (dispatch-frame g p _) ∙ get-put p.ns_key j (entry_of p) sc.entries
  entries-apply_decision g p older sc j = ground (arith, ns_key_beq_iff p.ns_key j)
  entries-apply_decision g p same_bytes sc j =
      ground (arith, get-keep_with p (refresh_provenance p) sc j)
  entries-apply_decision g p same_value sc j = ground (arith, get-keep_with p (refresh_raw p) sc j)

module _ {V Ctx : Type 0} (env : Env V Ctx) (p : Publication V) where
  -- Whatever is decided, the key has an entry afterwards.
  pub settled_total :
      (c : Option (CacheEntry V)) → (c' : CacheEntry V) × (settled (decide env c p) c p ≡ some c')
  unfolding settled decide
  settled_total none = (entry_of p, refl)
  settled_total (some c) = total (decide env (some c) p)
    where
      total : (d : Decision) → (c' : CacheEntry V) × (settled d (some c) p ≡ some c')
      total store = (entry_of p, refl)
      total older = (c, refl)
      total same_bytes = (refresh_provenance p c, refl)
      total same_value = (refresh_raw p c, refl)

module _ {V Ctx : Type 0} (env : Env V Ctx) (g : Shared) (p : Publication V)
    (sc : ScopeState V) where
  -- What `publish` leaves under every key, on every branch.
  pub get-publish :
      (j : NsKey)
      → get j (publish env g p sc).0.entries ≡ (
          if g.closed || sc.reconcile_stop || not (p.ns_key == j)
          then get j sc.entries
          else settled (decide env (get p.ns_key sc.entries) p) (get p.ns_key sc.entries) p)
  unfolding publish
  get-publish j = ground (
    arith,
    entries-apply_decision g p (decide env (get p.ns_key sc.entries) p)
        (record sc { unconfirmed = del p.ns_key sc.unconfirmed }) j,
  )

  -- A refused publication changes nothing.
  pub publish_refused : {e : Error} → (publish env g p sc).1 ≡ err e → (publish env g p sc).0 ≡ sc
  unfolding publish
  publish_refused h = elim (Bool-cases (g.closed || sc.reconcile_stop)) [
    | inl dropped ↦ ground arith
    | inr taken ↦ ground (arith, taken)
  ]

  -- Only an open engine and a scope that is not torn down answer without an error.
  pub publish_open :
      {notify : Bool}
      → (publish env g p sc).1 ≡ ok notify
      → (g.closed ≡ false) × (sc.reconcile_stop ≡ false)
  unfolding publish
  publish_open h = ground arith

  -- The decision on an open engine, with everything that `publish` changes.
  pub publish_taken :
      g.closed ≡ false
      → sc.reconcile_stop ≡ false
      → publish env g p sc
        ≡ apply_decision g p
            (decide env (get p.ns_key sc.entries) p)
            (record sc { unconfirmed = del p.ns_key sc.unconfirmed })
  unfolding publish
  publish_taken h k = ground arith
