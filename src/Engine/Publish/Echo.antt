-- ===== src/Engine/Publish/Echo.antt =====
-- A publication and its echo: the changefeed re-reads the row that a local write has published.
use lib_systemplane.Prelude.{
  ◌≡◌, refl, sym, inl, inr, ap, ◌∙◌, ◌≢◌, nat_comparable, string_comparable, Bool, true, false,
  some, get, del, arith, ok, eq_refl,
}
use lib_systemplane.Engine.State.{
  ns_key_comparable, Env, Shared, ScopeState, CacheEntry, Publication,
}
use lib_systemplane.Engine.Dispatch.Frame.{dispatch-frame}
use lib_systemplane.Engine.Publish.{
  Decision, store, older, same_bytes, same_value, decide, refresh_provenance, refresh_raw,
  apply_decision, publish, keep_with, accept, stored,
}
use lib_systemplane.Engine.Publish.Serves.{
  DeepEqualSound, Coherent, EntriesCoherent, Serves, publish-Serves,
}
use lib_systemplane.Engine.Publish.Fence.{settled, get-publish, publish_open, publish_taken}

module _ {V : Type 0} where
  keep_frame :
      (p : Publication V) (f : CacheEntry V → CacheEntry V) (sc : ScopeState V)
      → keep_with p f sc ≡ record sc { entries = (keep_with p f sc).entries }
  unfolding keep_with
  keep_frame p f sc = ground arith

  -- `publish` writes the entries, the fences, the unconfirmed set and the workers only.
  pub apply_decision-frame :
      (g : Shared) (p : Publication V) (d : Decision) (sc : ScopeState V)
      → let sc' = (apply_decision g p d sc).0 in
        sc' ≡ record sc { entries = sc'.entries; fences = sc'.fences; workers = sc'.workers }
  unfolding apply_decision accept
  apply_decision-frame g p store sc = ground (arith, dispatch-frame g p (stored p sc))
  apply_decision-frame g p older sc = refl
  apply_decision-frame g p same_bytes sc = ground (arith, keep_frame p (refresh_provenance p) sc)
  apply_decision-frame g p same_value sc = ground (arith, keep_frame p (refresh_raw p) sc)

module _ {V Ctx : Type 0} (env : Env V Ctx) where
  pub publish-frame :
      (g : Shared) (p : Publication V) (sc : ScopeState V)
      → let sc' = (publish env g p sc).0 in
        sc' ≡ record sc {
          entries = sc'.entries;
          fences = sc'.fences;
          unconfirmed = sc'.unconfirmed;
          workers = sc'.workers;
        }
  unfolding publish
  publish-frame g p sc = ground (
    arith,
    apply_decision-frame g p (decide env (get p.ns_key sc.entries) p)
        (record sc { unconfirmed = del p.ns_key sc.unconfirmed }),
  )

module _ {V : Type 0} where
  quiet :
      (g : Shared) (q : Publication V) (d : Decision) (sc : ScopeState V)
      → d ≢ store
      → let r = apply_decision g q d sc in
        (r.1 ≡ ok false) × (r.0.workers ≡ sc.workers) × (r.0.fences ≡ sc.fences)
  unfolding apply_decision keep_with
  quiet g q store sc h = absurd (h refl)
  quiet g q older sc h = ground arith
  quiet g q same_bytes sc h = ground arith
  quiet g q same_value sc h = ground arith

-- The row of the publication as the store hands it over: under its key and its revision, a value
-- that `reflect.DeepEqual` equates, in any spelling and with any provenance.
abbrev pub EchoOf : {V Ctx : Type 0} → Env V Ctx → Publication V → Publication V → Type 0
EchoOf env p q =
    (q.ns_key ≡ p.ns_key) × (q.revision ≡ p.revision) × (env.deep_equal q.value p.value ≡ true)

module _ {V Ctx : Type 0} (env : Env V Ctx) (sound : DeepEqualSound env) where
  echo_decided :
      (p q : Publication V) (c' : CacheEntry V)
      → p.revision ≢ 0
      → EchoOf env p q
      → Serves p c'
      → decide env (some c') q ≢ store
  unfolding decide
  echo_decided p q c' r (k, n, e) (inl newer) h = ground arith
  echo_decided p q c' r (k, n, e) (inr (at, same)) h =
      let alike : env.deep_equal q.value c'.value ≡ true = ap (env.deep_equal q.value) same ∙ e in
      ground (arith, alike)

  -- The cached value and its revision under an echo.
  echo_kept :
      (q : Publication V) (c : CacheEntry V) (d : Decision)
      → d ≢ store
      → (c' : CacheEntry V) × (settled d (some c) q ≡ some c')
        × (c'.value ≡ c.value)
        × (c'.revision ≡ c.revision)
  unfolding settled refresh_provenance refresh_raw
  echo_kept q c store h = absurd (h refl)
  echo_kept q c older h = (c, refl, refl, refl)
  echo_kept q c same_bytes h = (refresh_provenance q c, refl, refl, refl)
  echo_kept q c same_value h = (refresh_raw q c, refl, refl, refl)

  -- The echo of a publication with a revision, whose value belongs to its bytes: the row under that
  -- revision with an equal value, in the same bytes or in the store's own spelling. It is taken
  -- without an error, notifies nobody, leaves every delivery worker and every fence as it was, and
  -- leaves the key its cached value and revision; if `reflect.DeepEqual` equates equal values only
  -- and the cached values belong to their cached bytes.
  pub publish_echo :
      (g : Shared) (p q : Publication V) (sc : ScopeState V) {notify : Bool}
      → p.revision ≢ 0
      → Coherent env p.raw p.value
      → EntriesCoherent env sc
      → EchoOf env p q
      → (publish env g p sc).1 ≡ ok notify
      → let sc' = (publish env g p sc).0 in
        let echo = publish env g q sc' in
        (echo.1 ≡ ok false)
        × (echo.0.workers ≡ sc'.workers)
        × (echo.0.fences ≡ sc'.fences)
        × ((c : CacheEntry V) × (c' : CacheEntry V) × (get p.ns_key sc'.entries ≡ some c)
            × (get p.ns_key echo.0.entries ≡ some c')
            × (c'.value ≡ c.value)
            × (c'.revision ≡ c.revision))
  publish_echo g p q sc r hp hs like h =
      let sc' = (publish env g p sc).0 in
      let (up, live) = publish_open env g p sc h in
      let (c, held, serves) = publish-Serves env sound g p sc hp hs h in
      let live' : sc'.reconcile_stop ≡ false =
        ap (λ s. s.reconcile_stop) (publish-frame env g p sc) ∙ live in
      let held' : get q.ns_key sc'.entries ≡ some c = ap (λ k. get k sc'.entries) like.0 ∙ held in
      let fresh = echo_decided p q c r like serves in
      let (c', kept, value, revision) = echo_kept q c (decide env (some c) q) fresh in
      let taken = publish_taken env g q sc' up live' in
      let still =
        quiet g q (decide env (some c) q)
          (record sc' { unconfirmed = del q.ns_key sc'.unconfirmed }) fresh in
      let echo = publish env g q sc' in
      let same =
        taken
        ∙ ap
            (λ o.
              apply_decision g q (decide env o q)
                (record sc' { unconfirmed = del q.ns_key sc'.unconfirmed }))
            held' in
      (
        ap (λ x. x.1) same ∙ still.0,
        ap (λ x. x.0.workers) same ∙ still.1,
        ap (λ x. x.0.fences) same ∙ still.2,
        (
          c,
          c',
          held,
          ap (λ k. get k echo.0.entries) (sym like.0)
              ∙ ground (
                arith,
                get-publish env g q sc' q.ns_key,
                eq_refl q.ns_key,
                held',
                kept,
                up,
                live',
              ),
          value,
          revision,
        ),
      )
