-- ===== src/Engine/Core/Deletes.antt =====
-- What `PublishDelete` promises about the next `Lookup`.
use lib_systemplane.Prelude.{
  ◌≡◌, refl, sym, ap, ◌∙◌, inl, inr, nat_comparable, string_comparable, Bool, true, false, none,
  some, get, arith, Result, ok, err, Option-cases, Bool-cases,
}
use lib_systemplane.Engine.State.{
  NsKey, ns_key_comparable, scope_comparable, Env, Scope, ScopeState, Published, Error, closed,
  scope_not_tracked, KeyDef, Shared,
}
use lib_systemplane.Engine.Windows.{record_key}
use lib_systemplane.Engine.Ingest.{lookup_key, default_publication, ingest_default}
use lib_systemplane.Engine.Ingest.Outcome.{ingest_default_serves}
use lib_systemplane.Engine.Feed.{publish_delete_in, delete_result}
use lib_systemplane.Engine.Publish.{entry_of}
use lib_systemplane.Engine.Core.{
  Engine, tracked_state, update_tracked, published_of, is_stale, lookup, publish_delete,
}
use lib_systemplane.Engine.Core.Serves.{tracked-update, lookup-of}

module _ {V Ctx : Type 0} (env : Env V Ctx) where
  delete_closed :
      (scope : Scope) (nk : NsKey) (e : Engine V)
      → e.shared.closed ≡ true
      → publish_delete env scope nk e ≡ (e, some closed)
  unfolding publish_delete
  delete_closed scope nk e up = ground arith

  delete_untracked :
      (scope : Scope) (nk : NsKey) (e : Engine V)
      → e.shared.closed ≡ false
      → tracked_state scope e ≡ none
      → publish_delete env scope nk e ≡ (e, some scope_not_tracked)
  unfolding publish_delete
  delete_untracked scope nk e up h = ground arith

  delete_tracked :
      (scope : Scope) (nk : NsKey) (e : Engine V) (sc : ScopeState V)
      → e.shared.closed ≡ false
      → tracked_state scope e ≡ some sc
      → publish_delete env scope nk e ≡ (
        update_tracked scope (publish_delete_in env e.shared nk sc).0 e,
        (publish_delete_in env e.shared nk sc).1,
      )
  unfolding publish_delete
  delete_tracked scope nk e sc up h = ground arith

  delete_result_ok :
      (nk : NsKey) (r : ScopeState V × Result Error Bool)
      → (delete_result nk r).1 ≡ none
      → (n : Bool) × (r.1 ≡ ok n) × ((delete_result nk r).0.entries ≡ r.0.entries)
  unfolding delete_result record_key
  delete_result_ok nk (sc, ok true) h = (true, refl, refl)
  delete_result_ok nk (sc, ok false) h = (false, refl, refl)
  delete_result_ok nk (sc, err e) h = cc

  deleted_in :
      (g : Shared) (nk : NsKey) (sc : ScopeState V)
      → (publish_delete_in env g nk sc).1 ≡ none
      → (def : KeyDef V Ctx) × (lookup_key env nk ≡ some def)
        × (get nk (publish_delete_in env g nk sc).0.entries
            ≡ some (entry_of (default_publication sc.scope nk def.default true)))
  unfolding publish_delete_in
  deleted_in g nk sc h =
      let (n, answer, same) = delete_result_ok nk (ingest_default env g nk true sc) h in
      let (def, found, held, _) = ingest_default_serves env g nk true sc n answer in
      (def, found, ap (get nk) same ∙ held)

  -- `PublishDelete` that returns nil: the key is registered, and the next `Lookup` of it in the
  -- scope serves the registered default at revision 0.
  pub delete_serves_default :
      (scope : Scope) (nk : NsKey) (e : Engine V)
      → (publish_delete env scope nk e).1 ≡ none
      → (def : KeyDef V Ctx) × (r : Published V) × (lookup_key env nk ≡ some def)
        × ((lookup scope nk (publish_delete env scope nk e).0).1 ≡ some r)
        × (r.value ≡ def.default)
        × (r.revision ≡ 0)
  delete_serves_default scope nk e h = elim (Bool-cases e.shared.closed) [
    | inl down ↦
        let answer = ap (λ r. r.1) (delete_closed scope nk e down) in
        absurd (let clash : some closed ≡ none = sym answer ∙ h in cc)
    | inr up ↦ elim (Option-cases (tracked_state scope e)) [
      | inl gone ↦
          let answer = ap (λ r. r.1) (delete_untracked scope nk e up gone) in
          absurd (let clash : some scope_not_tracked ≡ none = sym answer ∙ h in cc)
      | inr (sc, here) ↦
          let same = delete_tracked scope nk e sc up here in
          let sc' = (publish_delete_in env e.shared nk sc).0 in
          let (def, found, held) = deleted_in e.shared nk sc (sym (ap (λ r. r.1) same) ∙ h) in
          let c = entry_of (default_publication sc.scope nk def.default true) in
          (
            def,
            published_of (is_stale nk sc') c,
            found,
            ap (λ s. (lookup scope nk s.0).1) same
                ∙ lookup-of scope nk (update_tracked scope sc' e) sc' c
                    (tracked-update scope e sc sc' here) held,
            unfold published_of entry_of in refl,
            unfold published_of entry_of in refl,
          )
    ]
  ]
