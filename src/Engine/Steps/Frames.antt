-- ===== src/Engine/Steps/Frames.antt =====
-- Which fields the compound sections leave alone.
use lib_systemplane.Prelude.{
  ◌≡◌, inl, inr, nat_comparable, string_comparable, Bool, arith, Option-cases,
}
use lib_systemplane.Engine.State.{NsKey, Env, Shared, ScopeState, Publication}
use lib_systemplane.Engine.Publish.{publish}
use lib_systemplane.Engine.Publish.Echo.{publish-frame}
use lib_systemplane.Engine.Ingest.{ingest_default, default_publication, lookup_key}

-- The reconcile's bookkeeping: all that a publication never writes.
abbrev pub Bookkeeping : {V : Type 0} → ScopeState V → ScopeState V → Type 0
Bookkeeping s t =
    (t.scope ≡ s.scope)
    × (t.next_address ≡ s.next_address)
    × (t.reconcile_gen ≡ s.reconcile_gen)
    × (t.disconnect_gen ≡ s.disconnect_gen)
    × (t.stale ≡ s.stale)
    × (t.resync_pending ≡ s.resync_pending)
    × (t.resync_signal ≡ s.resync_signal)
    × (t.first_reconcile ≡ s.first_reconcile)
    × (t.reconcile_stop ≡ s.reconcile_stop)

module _ {V Ctx : Type 0} (env : Env V Ctx) where
  pub publish-Bookkeeping :
      (g : Shared) (p : Publication V) (sc : ScopeState V)
      → Bookkeeping sc (publish env g p sc).0 × ((publish env g p sc).0.windows ≡ sc.windows)
  publish-Bookkeeping g p sc = ground (arith, publish-frame env g p sc)

  pub ingest_default-Bookkeeping :
      (g : Shared) (nk : NsKey) (deleted : Bool) (sc : ScopeState V)
      → Bookkeeping sc (ingest_default env g nk deleted sc).0
        × ((ingest_default env g nk deleted sc).0.windows ≡ sc.windows)
  unfolding ingest_default
  ingest_default-Bookkeeping g nk deleted sc = elim (Option-cases (lookup_key env nk)) [
    | inl e ↦ rw (e, ingest_default) (ground arith)
    | inr (def, e) ↦
        rw (e, ingest_default)
          (publish-Bookkeeping g (default_publication sc.scope nk def.default deleted) sc)
  ]
