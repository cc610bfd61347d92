-- ===== src/Engine/Steps/Cache.antt =====
-- The cache under every interleaving: a predicate on the entries that `publish` keeps is kept.
use lib_systemplane.Prelude.{
  ◌≡◌, refl, nat_comparable, string_comparable, true, false, some, GoMap, get, has, arith, is_empty,
}
use lib_systemplane.Engine.State.{
  NsKey, ns_key_comparable, Env, Shared, Scope, ScopeState, CacheEntry, Publication,
}
use lib_systemplane.Engine.Windows.{
  record_key, close_window, clear_stale, arm_reconcile, take_reconcile, finish_first_reconcile,
}
use lib_systemplane.Engine.Scope.{
  begin_retry, end_retry, begin_refresh, end_refresh, stop_reconcile_worker, mark_stale,
  mark_unconfirmed, mark_confirmed, bump_deletes, new_scope_state,
}
use lib_systemplane.Engine.Dispatch.{stop_scope_workers}
use lib_systemplane.Engine.Publish.{publish}
use lib_systemplane.Engine.Publish.Fence.{get-publish, settled_total}
use lib_systemplane.Engine.Publish.Serves.{
  Coherent, EntriesCoherent, DeepEqualSound, publish-EntriesCoherent,
}
use lib_systemplane.Engine.Steps.{Step, Steps, here, next}
use lib_systemplane.Engine.Steps.Windows.{every}
use lib_systemplane.Engine.Steps.Stable.{Stable, Step-Stable, Steps-Stable}

module _ {V Ctx : Type 0} (env : Env V Ctx) (Q : GoMap NsKey (CacheEntry V) → Type 0)
    (published : (g : Shared) (p : Publication V) (sc : ScopeState V)
      → Coherent env p.raw p.value
      → Q sc.entries
      → Q (publish env g p sc).0.entries) where
  same : (s t : ScopeState V) → t.entries ≡ s.entries → Q s.entries → Q t.entries
  same s t e h = rw e h

  entries_stable : Stable env every (λ sc. Q sc.entries)
  unfolding record_key bump_deletes mark_unconfirmed mark_confirmed clear_stale close_window
      arm_reconcile take_reconcile finish_first_reconcile mark_stale begin_retry end_retry
      begin_refresh end_refresh stop_reconcile_worker stop_scope_workers
  entries_stable = record {
    recorded = λ nk u sc h. h;
    published = published;
    bumped = λ nk sc h. h;
    unconfirmed = λ nk sc h. h;
    confirmed = λ nk sc h. h;
    stale_cleared = λ a arm sc h. same sc (clear_stale arm sc) (ground arith) h;
    closed = λ arm sc h. h;
    armed = λ a sc h. h;
    taken = λ sc h. same sc (take_reconcile sc).0 (ground arith) h;
    started = λ sc h. h;
    finished = λ e sc h. same sc (finish_first_reconcile e sc) (ground arith) h;
    went_stale = λ a sc h. h;
    retry_opened = λ rk sc h. same sc (begin_retry rk sc).0 (ground arith) h;
    retry_closed = λ rk sc h. h;
    refresh_opened = λ nk d sc h. same sc (begin_refresh nk d sc).0 (ground arith) h;
    refresh_closed = λ nk sc h. same sc (end_refresh nk sc).0 (ground arith) h;
    stopped = λ sc h. h;
    swept = λ sc h. h;
  }

module _ {V Ctx : Type 0} (env : Env V Ctx) where
  has-publish :
      (g : Shared) (p : Publication V) (sc : ScopeState V) (j : NsKey)
      → has j sc.entries ≡ true
      → has j (publish env g p sc).0.entries ≡ true
  has-publish g p sc j h =
      ground (arith, get-publish env g p sc j, settled_total env p (get p.ns_key sc.entries))

  -- A key that a scope's cache holds is held after any further steps: no error, no panic and no
  -- race ever takes a value back to a miss.
  pub cached_forever :
      (j : NsKey) {s t : ScopeState V}
      → Steps env s t
      → has j s.entries ≡ true
      → has j t.entries ≡ true
  cached_forever j r =
      Steps-Stable env
        (entries_stable env (λ m. has j m ≡ true) (λ g p sc c h. has-publish g p sc j h))
        (λ k. refl) r

  pub Step-EntriesCoherent :
      (sound : DeepEqualSound env) {s t : ScopeState V}
      → Step env s t
      → EntriesCoherent env s
      → EntriesCoherent env t
  Step-EntriesCoherent sound x h =
      Step-Stable env
        (entries_stable env
          (λ m. (j : NsKey) (c : CacheEntry V) → get j m ≡ some c → Coherent env c.raw c.value)
          (λ g p sc c h. publish-EntriesCoherent env sound g p sc c h))
        x refl h

  pub reached-EntriesCoherent :
      (sound : DeepEqualSound env) (scope : Scope) {t : ScopeState V}
      → Steps env (new_scope_state scope) t
      → EntriesCoherent env t
  reached-EntriesCoherent sound scope here = unfold new_scope_state get in (λ j c e. cc)
  reached-EntriesCoherent sound scope (next r x) =
      Step-EntriesCoherent sound x (reached-EntriesCoherent sound scope r)

  -- In every state that a new scope reaches, a cached value that has bytes is the one that they
  -- decode to, if `reflect.DeepEqual` equates equal values only.
  pub cache_coherent :
      (sound : DeepEqualSound env) (scope : Scope) (j : NsKey) (c : CacheEntry V) {t : ScopeState V}
      → Steps env (new_scope_state scope) t
      → get j t.entries ≡ some c
      → is_empty c.raw ≡ false
      → env.unmarshal c.raw ≡ some c.value
  cache_coherent sound scope j c r held b = reached-EntriesCoherent sound scope r j c held b
