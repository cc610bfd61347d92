-- ===== src/Engine/Steps/Windows.antt =====
-- The reconcile windows under every interleaving: what a window has recorded stays recorded.
use lib_systemplane.Prelude.{
  ℕ, ◌+◌, ◌<◌, ◌≡◌, refl, ap, nat_comparable, string_comparable, Bool, true, ◌||◌, arith, List, [],
  ◌∷◌, All,
}
use lib_systemplane.Engine.State.{NsKey, ns_key_comparable, Env, Scope, ScopeState, Window}
use lib_systemplane.Engine.Windows.{
  record_key, close_window, clear_stale, arm_reconcile, take_reconcile, finish_first_reconcile,
  touched_in, unusable_in, record_in, delete_window, find_window, note,
}
use lib_systemplane.Engine.Windows.Laws.{
  window_open, touched-record_in, unusable-record_in, touched-delete_window, unusable-delete_window,
}
use lib_systemplane.Engine.Scope.{
  begin_retry, end_retry, begin_refresh, end_refresh, stop_reconcile_worker, mark_stale,
  mark_unconfirmed, mark_confirmed, bump_deletes, new_scope_state,
}
use lib_systemplane.Engine.Dispatch.{stop_scope_workers}
use lib_systemplane.Engine.Publish.{publish}
use lib_systemplane.Engine.Publish.Echo.{publish-frame}
use lib_systemplane.Engine.Steps.{Steps, Kind}
use lib_systemplane.Engine.Steps.Stable.{Stable, Steps-Stable}

abbrev pub every : Kind → Bool
every k = true

module _ {V Ctx : Type 0} (env : Env V Ctx) where
  -- A predicate on the heap of windows that recording, closing and arming keep.
  module _ (Q : ℕ → List Window → Type 0)
      (recorded : (n : ℕ) (nk : NsKey) (u : Bool) (ws : List Window)
        → Q n ws
        → Q n (record_in nk u ws))
      (deleted : (n gen : ℕ) (ws : List Window) → Q n ws → Q n (delete_window gen ws))
      (armed : (n : ℕ) (w : Window) (ws : List Window)
        → w.address ≡ n
        → Q n ws
        → Q (n + 1) (w ∷ ws)) where
    same :
        (s t : ScopeState V)
        → t.next_address ≡ s.next_address
        → t.windows ≡ s.windows
        → Q s.next_address s.windows
        → Q t.next_address t.windows
    same s t e f h = rw (e, f) h

    windows_stable : Stable env every (λ sc. Q sc.next_address sc.windows)
    unfolding record_key bump_deletes mark_unconfirmed mark_confirmed clear_stale close_window
        arm_reconcile take_reconcile finish_first_reconcile mark_stale begin_retry end_retry
        begin_refresh end_refresh stop_reconcile_worker stop_scope_workers
    windows_stable = record {
      recorded = λ nk u sc h. recorded sc.next_address nk u sc.windows h;
      published = λ g p sc c h.
          same sc (publish env g p sc).0 (ap (λ s. s.next_address) (publish-frame env g p sc))
            (ap (λ s. s.windows) (publish-frame env g p sc)) h;
      bumped = λ nk sc h. h;
      unconfirmed = λ nk sc h. h;
      confirmed = λ nk sc h. h;
      stale_cleared = λ a arm sc h. same sc (clear_stale arm sc) (ground arith) (ground arith) h;
      closed = λ arm sc h. deleted _ _ _ h;
      armed = λ a sc h. armed _ _ _ refl (deleted _ _ _ h);
      taken = λ sc h. same sc (take_reconcile sc).0 (ground arith) (ground arith) h;
      started = λ sc h. h;
      finished = λ e sc h. same sc (finish_first_reconcile e sc) (ground arith) (ground arith) h;
      went_stale = λ a sc h. h;
      retry_opened = λ rk sc h. same sc (begin_retry rk sc).0 (ground arith) (ground arith) h;
      retry_closed = λ rk sc h. h;
      refresh_opened =
          λ nk d sc h. same sc (begin_refresh nk d sc).0 (ground arith) (ground arith) h;
      refresh_closed = λ nk sc h. same sc (end_refresh nk sc).0 (ground arith) (ground arith) h;
      stopped = λ sc h. h;
      swept = λ sc h. h;
    }

-- Every window lies below the next address.
abbrev pub Fresh : ℕ → List Window → Type 0
Fresh n ws = All (λ w. w.address < n) ws

record_in-Fresh :
    (n : ℕ) (nk : NsKey) (u : Bool) (ws : List Window) → Fresh n ws → Fresh n (record_in nk u ws)
unfolding record_in note
record_in-Fresh n nk u [] h = tt
record_in-Fresh n nk u (w ∷ ws) h = (ground arith, record_in-Fresh n nk u ws h.1)

delete_window-Fresh : (n gen : ℕ) (ws : List Window) → Fresh n ws → Fresh n (delete_window gen ws)
unfolding delete_window
delete_window-Fresh n gen [] h = tt
delete_window-Fresh n gen (w ∷ ws) h = (ground arith, delete_window-Fresh n gen ws h.1)

Fresh-mono : (n : ℕ) (ws : List Window) → Fresh n ws → Fresh (n + 1) ws
Fresh-mono n [] h = tt
Fresh-mono n (w ∷ ws) h = (omega arith, Fresh-mono n ws h.1)

lt_of_open : (a n : ℕ) (ws : List Window) → Fresh n ws → window_open a ws ≡ true → a < n
unfolding window_open find_window
lt_of_open a n [] h o = cc
lt_of_open a n (w ∷ ws) h o = ground (arith, lt_of_open a n ws h.1)

-- The key has an outcome in the window: answered, or tried and not usable.
abbrev pub outcome_in : ℕ → NsKey → List Window → Bool
outcome_in a nk ws = touched_in a nk ws || unusable_in a nk ws

module _ (a : ℕ) (nk : NsKey) where
  abbrev pub Touched : ℕ → List Window → Type 0
  Touched n ws = (a < n) × (touched_in a nk ws ≡ true)

  abbrev pub Outcome : ℕ → List Window → Type 0
  Outcome n ws = (a < n) × (outcome_in a nk ws ≡ true)

  Touched-armed :
      (n : ℕ) (w : Window) (ws : List Window)
      → w.address ≡ n
      → Touched n ws
      → Touched (n + 1) (w ∷ ws)
  unfolding touched_in find_window
  Touched-armed n w ws e h = ground arith

  Outcome-armed :
      (n : ℕ) (w : Window) (ws : List Window)
      → w.address ≡ n
      → Outcome n ws
      → Outcome (n + 1) (w ∷ ws)
  unfolding touched_in unusable_in find_window
  Outcome-armed n w ws e h = ground arith

  Touched-recorded :
      (n : ℕ) (j : NsKey) (u : Bool) (ws : List Window)
      → Touched n ws
      → Touched n (record_in j u ws)
  Touched-recorded n j u ws h = ground (arith, touched-record_in a nk j u ws)

  Outcome-recorded :
      (n : ℕ) (j : NsKey) (u : Bool) (ws : List Window)
      → Outcome n ws
      → Outcome n (record_in j u ws)
  Outcome-recorded n j u ws h =
      ground (arith, touched-record_in a nk j u ws, unusable-record_in a nk j u ws)

  Touched-deleted : (n gen : ℕ) (ws : List Window) → Touched n ws → Touched n (delete_window gen ws)
  Touched-deleted n gen ws h = ground (arith, touched-delete_window a gen nk ws)

  Outcome-deleted : (n gen : ℕ) (ws : List Window) → Outcome n ws → Outcome n (delete_window gen ws)
  Outcome-deleted n gen ws h =
      ground (arith, touched-delete_window a gen nk ws, unusable-delete_window a gen nk ws)

module _ {V Ctx : Type 0} (env : Env V Ctx) where
  -- No interleaving forgets that a key was answered in a window.
  pub Steps-Touched :
      (a : ℕ) (nk : NsKey) {s t : ScopeState V}
      → Steps env s t
      → Touched a nk s.next_address s.windows
      → Touched a nk t.next_address t.windows
  Steps-Touched a nk r =
      Steps-Stable env
        (windows_stable env (Touched a nk) (Touched-recorded a nk) (Touched-deleted a nk)
          (Touched-armed a nk))
        (λ k. refl) r

  pub Steps-Outcome :
      (a : ℕ) (nk : NsKey) {s t : ScopeState V}
      → Steps env s t
      → Outcome a nk s.next_address s.windows
      → Outcome a nk t.next_address t.windows
  Steps-Outcome a nk r =
      Steps-Stable env
        (windows_stable env (Outcome a nk) (Outcome-recorded a nk) (Outcome-deleted a nk)
          (Outcome-armed a nk))
        (λ k. refl) r

  pub Steps-below :
      (a : ℕ) {s t : ScopeState V} → Steps env s t → a < s.next_address → a < t.next_address
  Steps-below a r =
      Steps-Stable env
        (windows_stable env (λ n ws. a < n) (λ n nk u ws h. h) (λ n gen ws h. h)
          (λ n w ws e h. omega arith))
        (λ k. refl) r

  -- In a state reached from a new one an open window lies below the next address.
  pub open_below :
      (a : ℕ) (scope : Scope) {s : ScopeState V}
      → Steps env (new_scope_state scope) s
      → window_open a s.windows ≡ true
      → a < s.next_address
  open_below a scope {s} r o = lt_of_open a s.next_address s.windows (fresh r) o
    where
      fresh :
          {t : ScopeState V} → Steps env (new_scope_state scope) t → Fresh t.next_address t.windows
      fresh r =
          Steps-Stable env
            (windows_stable env Fresh record_in-Fresh delete_window-Fresh
              (λ n w ws e h. (omega arith, Fresh-mono n ws h)))
            (λ k. refl) r (unfold new_scope_state in tt)
