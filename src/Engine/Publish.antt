-- ===== src/Engine/Publish.antt =====
-- `Engine.publish` (internal/engine/publish.go), the one writer of a scope's entries.
pub mod Fence
pub mod Serves
pub mod Echo
use lib_systemplane.Prelude.{
  ℕ, ◌==◌, nat_comparable, ltb, if◌then◌else◌, not, ◌&&◌, ◌||◌, Bool, true, false, Option, none,
  some, List, get, put, del, get_or, is_empty, inc64, bytes_equal, Result, ok, err,
}
use lib_systemplane.Engine.State.{
  NsKey, ns_key_comparable, Env, Shared, ScopeState, CacheEntry, KeyFence, Publication, Error,
  closed, scope_not_tracked,
}
use lib_systemplane.Engine.Scope.{key_fence}
use lib_systemplane.Engine.Dispatch.{dispatch}

-- What the switch of `publish` decides against the cached entry.
pub data Decision : Type 0 where
  store older same_bytes same_value : Decision

module _ {V Ctx : Type 0} (env : Env V Ctx) where
  unfoldable pub decide : Option (CacheEntry V) → Publication V → Decision
  decide none p = store
  decide (some c) p =
      if p.revision == 0 || ltb c.revision p.revision
      then store
      else if ltb p.revision c.revision
      then older
      else if not (is_empty p.raw) && bytes_equal p.raw c.raw
      then same_bytes
      else if env.deep_equal p.value c.value
      then same_value
      else store

module _ {V : Type 0} where
  unfoldable pub entry_of : Publication V → CacheEntry V
  entry_of p = record {
    value = p.value;
    raw = p.raw;
    revision = p.revision;
    updated_at = p.updated_at;
    updated_by = p.updated_by;
  }

  -- The two branches that keep the cached value and take the provenance.
  unfoldable pub refresh_provenance : Publication V → CacheEntry V → CacheEntry V
  refresh_provenance p c = record c { updated_at = p.updated_at; updated_by = p.updated_by }

  unfoldable pub refresh_raw : Publication V → CacheEntry V → CacheEntry V
  unfolding refresh_provenance
  refresh_raw p c = record (refresh_provenance p c) {
    raw = if is_empty p.raw then c.raw else p.raw;
  }

  unfoldable pub count_publication : Publication V → KeyFence → KeyFence
  count_publication p f = record {
    deletes = if p.deleted then inc64 f.deletes else f.deletes;
    publications = inc64 f.publications;
  }

  unfoldable pub stored : Publication V → ScopeState V → ScopeState V
  unfolding entry_of count_publication key_fence
  stored p sc = record sc {
    entries = put p.ns_key (entry_of p) sc.entries;
    fences = put p.ns_key (count_publication p (key_fence p.ns_key sc)) sc.fences;
  }

  -- The branch that stores: the entry, the fence, the delivery.
  unfoldable pub accept : Shared → Publication V → ScopeState V → ScopeState V
  unfolding stored
  accept g p sc = dispatch g p (stored p sc)

  unfoldable pub keep_with :
      Publication V → (CacheEntry V → CacheEntry V) → ScopeState V → ScopeState V
  keep_with p f sc = elim (get p.ns_key sc.entries) [
    | none ↦ sc
    | some c ↦ record sc { entries = put p.ns_key (f c) sc.entries }
  ]

  unfoldable pub apply_decision :
      Shared → Publication V → Decision → ScopeState V → ScopeState V × Result Error Bool
  unfolding accept keep_with refresh_provenance refresh_raw
  apply_decision g p store sc = (accept g p sc, ok true)
  apply_decision g p older sc = (sc, ok false)
  apply_decision g p same_bytes sc = (keep_with p (refresh_provenance p) sc, ok false)
  apply_decision g p same_value sc = (keep_with p (refresh_raw p) sc, ok false)

module _ {V Ctx : Type 0} (env : Env V Ctx) where
  unfoldable pub publish : Shared → Publication V → ScopeState V → ScopeState V × Result Error Bool
  unfolding decide apply_decision
  publish g p sc =
      if g.closed
      then (sc, err closed)
      else if sc.reconcile_stop
      then (sc, err scope_not_tracked)
      else apply_decision g p (decide env (get p.ns_key sc.entries) p)
          (record sc { unconfirmed = del p.ns_key sc.unconfirmed })
