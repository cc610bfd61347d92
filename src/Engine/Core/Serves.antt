-- ===== src/Engine/Core/Serves.antt =====
-- What `Publish` and `PublishDelete` promise about the next `Lookup`.
use lib_systemplane.Prelude.{
  ℕ, ◌<◌, ◌≡◌, refl, sym, ap, ◌∙◌, subst, ◌⊎◌, inl, inr, ◌==◌, nat_comparable, string_comparable,
  Bool, true, false, Option, none, some, get, get-put, get-put_self, arith, eq→≡, Option-cases,
  Bool-cases,
}
use lib_systemplane.Engine.State.{
  NsKey, ns_key_comparable, scope_comparable, Env, Scope, ScopeState, StoreEntry, CacheEntry,
  Published, Error, closed, scope_not_tracked,
}
use lib_systemplane.Engine.Scope.{no_fence, cached}
use lib_systemplane.Engine.Publish.Serves.{EntriesCoherent, DeepEqualSound}
use lib_systemplane.Engine.Ingest.{ingest, key_of}
use lib_systemplane.Engine.Ingest.Outcome.{ingest_serves, ingest_refused}
use lib_systemplane.Engine.Core.{
  Engine, tracked_scope, state_at, tracked_state, write_state, update_tracked, published_of,
  is_stale, lookup, publish_entry,
}

module _ {V : Type 0} where
  state-write :
      (o : Option ℕ) (e : Engine V) (sc sc' : ScopeState V)
      → state_at o e ≡ some sc
      → state_at o (write_state o sc' e) ≡ some sc'
  unfolding state_at write_state
  state-write none e sc sc' h = cc
  state-write (some p) e sc sc' h = get-put_self p sc' e.heap

  scopes-write :
      (o : Option ℕ) (sc : ScopeState V) (e : Engine V) → (write_state o sc e).scopes ≡ e.scopes
  unfolding write_state
  scopes-write none sc e = refl
  scopes-write (some p) sc e = refl

  pub tracked-update :
      (scope : Scope) (e : Engine V) (sc sc' : ScopeState V)
      → tracked_state scope e ≡ some sc
      → tracked_state scope (update_tracked scope sc' e) ≡ some sc'
  unfolding tracked_state update_tracked
  tracked-update scope e sc sc' h =
      let o = tracked_scope scope e in rw (scopes-write o sc' e) (state-write o e sc sc' h)

  pub lookup-of :
      (scope : Scope) (nk : NsKey) (e : Engine V) (sc : ScopeState V) (c : CacheEntry V)
      → tracked_state scope e ≡ some sc
      → get nk sc.entries ≡ some c
      → (lookup scope nk e).1 ≡ some (published_of (is_stale nk sc) c)
  unfolding lookup
  lookup-of scope nk e sc c h k = rw (h, lookup) (rw k refl)

  -- The two states read alike.
  abbrev Alike : ScopeState V → ScopeState V → Type 0
  Alike s t = (t.entries ≡ s.entries) × (t.stale ≡ s.stale) × (t.unconfirmed ≡ s.unconfirmed)

  lookup_state : NsKey → Option (ScopeState V) → Bool × Option (Published V)
  unfolding is_stale cached published_of
  lookup_state nk none = (false, none)
  lookup_state nk (some sc) = elim (cached nk sc) [
    | none ↦ (is_stale nk sc, none)
    | some c ↦ (is_stale nk sc, some (published_of (is_stale nk sc) c))
  ]

  lookup-state :
      (scope : Scope) (nk : NsKey) (e : Engine V)
      → lookup scope nk e ≡ lookup_state nk (tracked_state scope e)
  unfolding lookup lookup_state
  lookup-state scope nk e = ground arith

  Alike-lookup :
      (nk : NsKey) (s t : ScopeState V)
      → Alike s t
      → lookup_state nk (some t) ≡ lookup_state nk (some s)
  unfolding lookup_state
  Alike-lookup nk s t (a, b, c) = rw (a, b, c) refl

  write-lookup :
      (nk : NsKey) (o q : Option ℕ) (e : Engine V) (s t : ScopeState V)
      → state_at o e ≡ some s
      → Alike s t
      → lookup_state nk (state_at q (write_state o t e)) ≡ lookup_state nk (state_at q e)
  unfolding state_at write_state
  write-lookup nk none q e s t h a = cc
  write-lookup nk (some p) none e s t h a = refl
  write-lookup nk (some p) (some q) e s t h a = elim (Bool-cases (p == q)) [
    | inl same ↦
        rw (get-put p q t e.heap, same)
          (Alike-lookup nk s t a
            ∙ ap (lookup_state nk) (sym (subst (λ j. get j e.heap ≡ some s) (eq→≡ p q same) h)))
    | inr differ ↦ rw (get-put p q t e.heap, differ) refl
  ]

  lookup-update :
      (scope other : Scope) (nk : NsKey) (e : Engine V) (s t : ScopeState V)
      → tracked_state scope e ≡ some s
      → Alike s t
      → lookup other nk (update_tracked scope t e) ≡ lookup other nk e
  unfolding tracked_state update_tracked tracked_scope
  lookup-update scope other nk e s t h a =
      let o = get scope e.scopes in
      lookup-state other nk (update_tracked scope t e)
      ∙ ap (λ m. lookup_state nk (state_at (get other m) (update_tracked scope t e)))
          (scopes-write o t e)
      ∙ write-lookup nk o (get other e.scopes) e s t h a
      ∙ sym (lookup-state other nk e)

module _ {V Ctx : Type 0} (env : Env V Ctx) where
  publish_closed :
      (ctx : Ctx) (scope : Scope) (se : StoreEntry) (e : Engine V)
      → e.shared.closed ≡ true
      → publish_entry env ctx scope se e ≡ (e, some closed)
  unfolding publish_entry
  publish_closed ctx scope se e up = ground arith

  publish_untracked :
      (ctx : Ctx) (scope : Scope) (se : StoreEntry) (e : Engine V)
      → e.shared.closed ≡ false
      → tracked_state scope e ≡ none
      → publish_entry env ctx scope se e ≡ (e, some scope_not_tracked)
  unfolding publish_entry
  publish_untracked ctx scope se e up h = ground arith

  publish_tracked :
      (ctx : Ctx) (scope : Scope) (se : StoreEntry) (e : Engine V) (sc : ScopeState V)
      → e.shared.closed ≡ false
      → tracked_state scope e ≡ some sc
      → publish_entry env ctx scope se e ≡ (
        update_tracked scope (ingest env e.shared ctx se no_fence true sc).0 e,
        (ingest env e.shared ctx se no_fence true sc).1,
      )
  unfolding publish_entry
  publish_tracked ctx scope se e sc up h = ground arith

  -- `Publish` that returns nil: the next `Lookup` of the key in the scope serves this write, or a
  -- newer one, if `reflect.DeepEqual` equates equal values only and the scope's cached values
  -- belong to their cached bytes.
  pub publish_serves_lookup :
      (sound : DeepEqualSound env) (ctx : Ctx) (scope : Scope) (se : StoreEntry) (e : Engine V)
      → ((sc : ScopeState V) → tracked_state scope e ≡ some sc → EntriesCoherent env sc)
      → (publish_entry env ctx scope se e).1 ≡ none
      → (r : Published V) × ((lookup scope (key_of se) (publish_entry env ctx scope se e).0).1
          ≡ some r)
        × ((se.revision < r.revision)
            ⊎ ((r.revision ≡ se.revision) × (env.unmarshal se.value ≡ some r.value)))
  publish_serves_lookup sound ctx scope se e co h = elim (Bool-cases e.shared.closed) [
    | inl down ↦
        let answer = ap (λ r. r.1) (publish_closed ctx scope se e down) in
        absurd (let clash : some closed ≡ none = sym answer ∙ h in cc)
    | inr up ↦ elim (Option-cases (tracked_state scope e)) [
      | inl gone ↦
          let answer = ap (λ r. r.1) (publish_untracked ctx scope se e up gone) in
          absurd (let clash : some scope_not_tracked ≡ none = sym answer ∙ h in cc)
      | inr (sc, here) ↦
          let same = publish_tracked ctx scope se e sc up here in
          let sc' = (ingest env e.shared ctx se no_fence true sc).0 in
          let (c, held, newer) =
            ingest_serves env sound e.shared ctx se sc (co sc here)
              (sym (ap (λ r. r.1) same) ∙ h) in
          (
            published_of (is_stale (key_of se) sc') c,
            ap (λ s. (lookup scope (key_of se) s.0).1) same
                ∙ lookup-of scope (key_of se) (update_tracked scope sc' e) sc' c
                    (tracked-update scope e sc sc' here) held,
            unfold published_of in newer,
          )
    ]
  ]

  -- `Publish` that returns an error: every `Lookup`, of any key in any scope, answers as before.
  pub publish_refused_lookup :
      (ctx : Ctx) (scope other : Scope) (se : StoreEntry) (nk : NsKey) (e : Engine V) {x : Error}
      → (publish_entry env ctx scope se e).1 ≡ some x
      → lookup other nk (publish_entry env ctx scope se e).0 ≡ lookup other nk e
  publish_refused_lookup ctx scope other se nk e {x} h = elim (Bool-cases e.shared.closed) [
    | inl down ↦ rw (publish_closed ctx scope se e down) refl
    | inr up ↦ elim (Option-cases (tracked_state scope e)) [
      | inl gone ↦ rw (publish_untracked ctx scope se e up gone) refl
      | inr (sc, here) ↦
          let same = publish_tracked ctx scope se e sc up here in
          let sc' = (ingest env e.shared ctx se no_fence true sc).0 in
          let kept = ingest_refused env e.shared ctx se sc x (sym (ap (λ r. r.1) same) ∙ h) in
          rw same (
            lookup-update scope other nk e sc sc' here
              (ap (λ s. s.entries) kept, ap (λ s. s.stale) kept, ap (λ s. s.unconfirmed) kept))
    ]
  ]
