-- ===== src/Engine/Steps/Overtaken.antt =====
-- What a reconcile that was overtaken by a disconnect or a newer resync can still do: nothing.
use lib_systemplane.Prelude.{
  ℕ, ◌+◌, ◌%◌, ◌^◌, ◌<◌, ◌≤◌, ◌≡◌, refl, ap, ◌∙◌, ◌≢◌, ◌⊎◌, inl, inr, nat_comparable,
  string_comparable, true, arith, inc64,
}
use lib_systemplane.Engine.State.{Env, Shared, ScopeState, Arming, NsKey, StoreEntry}
use lib_systemplane.Engine.Windows.{clear_stale}
use lib_systemplane.Engine.Scope.{mark_stale}
use lib_systemplane.Engine.Reconcile.{on_resync, apply_snapshot_row, apply_absent_key}
use lib_systemplane.Engine.Steps.{
  Step, Steps, here, next, Kind, disconnecting, resyncing, kind, cleared, disconnected, resynced,
}
use lib_systemplane.Engine.Steps.Stable.{Step-Stable}
use lib_systemplane.Engine.Steps.Freshness.{
  disconnect_gen_stable, reconcile_gen_stable, stale_stable,
}

abbrev is_disconnecting : Kind → ℕ
is_disconnecting disconnecting = 1
is_disconnecting _ = 0

abbrev is_resyncing : Kind → ℕ
is_resyncing resyncing = 1
is_resyncing _ = 0

-- The arming captured the disconnect generation at most `age` disconnects before `gen`.
abbrev pub ArmedBefore : ℕ → ℕ → Arming → Type 0
ArmedBefore age gen arm =
    (k : ℕ) × (k ≤ age) × (arm.disconnect < 2 ^ 64) × ((arm.disconnect + k) % 2 ^ 64 ≡ gen)

ArmedBefore-ne :
    (arm : Arming) (age gen n now : ℕ)
    → ArmedBefore age gen arm
    → now ≡ ((gen + 1) % 2 ^ 64 + n) % 2 ^ 64
    → age + n + 1 < 2 ^ 64
    → now ≢ arm.disconnect
ArmedBefore-ne arm age gen n now (k, le, room, e) at lt same = omega arith

module _ {V Ctx : Type 0} {env : Env V Ctx} where
  -- The disconnects, and the resyncs, of a run.
  unfoldable pub disconnects : {s t : ScopeState V} → Steps env s t → ℕ
  disconnects here = 0
  disconnects (next r x) = disconnects r + is_disconnecting (kind x)

  unfoldable pub resyncs : {s t : ScopeState V} → Steps env s t → ℕ
  resyncs here = 0
  resyncs (next r x) = resyncs r + is_resyncing (kind x)

  -- Every `clear_stale` of a run was made with an arming of which `Q` holds.
  abbrev pub ClearsWith : (Arming → Type 0) → {s t : ScopeState V} → Step env s t → Type 0
  ClearsWith Q (cleared arm sc) = Q arm
  ClearsWith Q _ = Unit

  abbrev pub AllClear : (Arming → Type 0) → {s t : ScopeState V} → Steps env s t → Type 0
  AllClear Q here = Unit
  AllClear Q (next r x) = AllClear Q r × ClearsWith Q x

module _ {V Ctx : Type 0} (env : Env V Ctx) where
  Step-disconnect_gen :
      {s t : ScopeState V} (x : Step env s t)
      → s.disconnect_gen < 2 ^ 64
      → t.disconnect_gen ≡ (s.disconnect_gen + is_disconnecting (kind x)) % 2 ^ 64
  unfolding kind mark_stale
  Step-disconnect_gen (disconnected sc) h = refl
  Step-disconnect_gen {s} x h =
      Step-Stable env (disconnect_gen_stable env s.disconnect_gen) x refl refl ∙ omega arith

  resync-gen :
      (g : Shared) (sc : ScopeState V) → (on_resync g sc).reconcile_gen ≡ inc64 sc.reconcile_gen
  unfolding on_resync
  resync-gen g sc = ground arith

  Step-reconcile_gen :
      {s t : ScopeState V} (x : Step env s t)
      → s.reconcile_gen < 2 ^ 64
      → t.reconcile_gen ≡ (s.reconcile_gen + is_resyncing (kind x)) % 2 ^ 64
  unfolding kind
  Step-reconcile_gen (resynced g sc) h = resync-gen g sc
  Step-reconcile_gen {s} x h =
      Step-Stable env (reconcile_gen_stable env s.reconcile_gen) x refl refl ∙ omega arith

  run_disconnect_gen :
      {s t : ScopeState V} (r : Steps env s t)
      → s.disconnect_gen < 2 ^ 64
      → t.disconnect_gen ≡ (s.disconnect_gen + disconnects r) % 2 ^ 64
  unfolding disconnects
  run_disconnect_gen here h = omega arith
  run_disconnect_gen (next r x) h =
      let before = run_disconnect_gen r h in
      omega (arith, before, Step-disconnect_gen x (omega (arith, before)))

  run_reconcile_gen :
      {s t : ScopeState V} (r : Steps env s t)
      → s.reconcile_gen < 2 ^ 64
      → t.reconcile_gen ≡ (s.reconcile_gen + resyncs r) % 2 ^ 64
  unfolding resyncs
  run_reconcile_gen here h = omega arith
  run_reconcile_gen (next r x) h =
      let before = run_reconcile_gen r h in
      omega (arith, before, Step-reconcile_gen x (omega (arith, before)))

  clear-ne :
      (arm : Arming) (t : ScopeState V)
      → (t.disconnect_gen ≢ arm.disconnect) ⊎ (t.reconcile_gen ≢ arm.reconcile)
      → clear_stale arm t ≡ t
  unfolding clear_stale
  clear-ne arm t h = ground arith

  -- A reconcile that captured the disconnect generation before a disconnect does not clear the
  -- stale flag after it, unless 2 ^ 64 disconnects came in between.
  pub disconnect_blocks_clear :
      (arm : Arming) {s t : ScopeState V} (r : Steps env s t)
      → s.disconnect_gen < 2 ^ 64
      → arm.disconnect ≡ s.disconnect_gen
      → 0 < disconnects r
      → disconnects r < 2 ^ 64
      → clear_stale arm t ≡ t
  disconnect_blocks_clear arm {s} {t} r b e lo hi =
      clear-ne arm t (inl (omega (arith, run_disconnect_gen r b)))

  -- The reconcile of `arm` reports itself superseded by the row and by the absent key, changes
  -- nothing, and does not clear the stale flag.
  abbrev pub Superseded : Shared → Arming → StoreEntry → NsKey → ScopeState V → Type 0
  Superseded g arm row nk t =
      (apply_snapshot_row env g arm row t ≡ (t, true))
      × (apply_absent_key env g arm nk t ≡ (t, true))
      × (clear_stale arm t ≡ t)

  overtaken :
      (g : Shared) (arm : Arming) (row : StoreEntry) (nk : NsKey) (t : ScopeState V)
      → t.reconcile_gen ≢ arm.reconcile
      → Superseded g arm row nk t
  unfolding apply_snapshot_row apply_absent_key
  overtaken g arm row nk t h = (ground arith, ground arith, clear-ne arm t (inr h))

  -- A reconcile of a generation that a later resync has replaced applies no row and no absence,
  -- reports itself superseded, and does not clear the stale flag, unless 2 ^ 64 resyncs came in
  -- between.
  pub resync_overtakes :
      (g : Shared) (arm : Arming) (row : StoreEntry) (nk : NsKey) {s t : ScopeState V}
      (r : Steps env s t)
      → s.reconcile_gen < 2 ^ 64
      → arm.reconcile ≡ s.reconcile_gen
      → 0 < resyncs r
      → resyncs r < 2 ^ 64
      → Superseded g arm row nk t
  resync_overtakes g arm row nk {s} {t} r b e lo hi =
      overtaken g arm row nk t (omega (arith, run_reconcile_gen r b))

  stale-Step :
      {s t : ScopeState V} (x : Step env s t)
      → ClearsWith (λ arm. s.disconnect_gen ≢ arm.disconnect) x
      → s.stale ≡ true
      → t.stale ≡ true
  unfolding kind
  stale-Step (cleared arm sc) c h = ap (λ s. s.stale) (clear-ne arm sc (inl c)) ∙ h
  stale-Step x c h = Step-Stable env (stale_stable env) x refl h

  ClearsWith-mono :
      {P Q : Arming → Type 0} {s t : ScopeState V} (x : Step env s t)
      → ((arm : Arming) → P arm → Q arm)
      → ClearsWith P x
      → ClearsWith Q x
  ClearsWith-mono (cleared arm sc) f c = f arm c
  ClearsWith-mono _ f c = tt

  -- After a disconnect the scope stays stale until a reconcile clears it that was armed after that
  -- disconnect: with clears from armings before it alone, each as old as it may be, every later
  -- state is stale, as long as the oldest of them and the last state are fewer than 2 ^ 64
  -- disconnects apart.
  pub stale_until_rearmed :
      (age : ℕ) (s : ScopeState V) {t : ScopeState V} (r : Steps env (mark_stale s) t)
      → s.disconnect_gen < 2 ^ 64
      → AllClear (ArmedBefore age s.disconnect_gen) r
      → age + disconnects r + 1 < 2 ^ 64
      → t.stale ≡ true
  unfolding disconnects mark_stale
  stale_until_rearmed age s here b c n = refl
  stale_until_rearmed age s (next {t} r x) b c n =
      stale-Step x
        (ClearsWith-mono x
          (λ arm old.
            ArmedBefore-ne arm age s.disconnect_gen (disconnects r) _ old
              (run_disconnect_gen r (omega arith)) (omega arith))
          c.1)
        (stale_until_rearmed age s r b c.0 (omega arith))
