-- ===== src/Debounce/Closed.antt =====
-- A closed debouncer.
use lib_systemplane.Prelude.{
  Comparable, ◌≡◌, nat_comparable, string_comparable, true, false, arith, List, [], ◌∷◌, ◌++◌, sym,
  ◌∙◌, subst,
}
use lib_systemplane.Debounce.{
  Debouncer, Firing, submit, fire, close, expire, run_firing, invoke, DebounceStep, DebounceRun,
  here, next, submits, expires, fires, invokes, closes,
}

module _ {K F : Type 0} where
  -- Of calls under way, some have been made: each at most once, newest first in the record.
  pub data Made (calls : List (Firing K F)) (record_before : List F)
      : List (Firing K F) → List F → Type 0 where
    none_made : Made calls record_before calls record_before
    one_made :
        (before after : List (Firing K F)) (f : Firing K F) {l : List F}
        → Made calls record_before (before ++ (f ∷ after)) l
        → Made calls record_before (before ++ after) (f.fn ∷ l)

module _ {K F : Type 0} ⦃e : Comparable K⦄ where
  -- Nothing of the debouncer moves but the calls under way.
  abbrev Shut : List (Firing K F) → List F → Debouncer K F → Type 0
  Shut calls invoked d =
      (d.closed ≡ true)
      × (d.quiet_window ≡ true)
      × (d.timers ≡ [])
      × Made calls invoked d.running d.invoked

  shut_submit :
      (key : K) (fn : F) (d : Debouncer K F)
      → d.quiet_window ≡ true
      → d.closed ≡ true
      → submit key fn d ≡ d
  unfolding submit
  shut_submit key fn d q c = ground arith

  shut_firing :
      (before after : List (Firing K F)) (f : Firing K F) (d : Debouncer K F)
      → d.closed ≡ true
      → run_firing before f after d ≡ record d { in_flight = before ++ after }
  unfolding run_firing fire
  shut_firing before after f d c = ground arith

  shut_close : (d : Debouncer K F) → d.closed ≡ true → close d ≡ d
  unfolding close
  shut_close d c = ground arith

  step-Shut :
      (calls : List (Firing K F)) (l : List F) {s t : Debouncer K F}
      → DebounceStep s t
      → Shut calls l s
      → Shut calls l t
  unfolding expire invoke
  step-Shut calls l (submits key fn d) h =
      subst (Shut calls l) (sym (shut_submit key fn d h.1 h.0)) h
  step-Shut calls l (expires before after f d x) h = h
  step-Shut calls l (fires before after f d x) h =
      subst (Shut calls l) (sym (shut_firing before after f d h.0)) h
  step-Shut calls l (invokes before after f d x) (c, q, t, m) =
      (c, q, t, one_made before after f (subst (λ r. Made calls l r d.invoked) x m))
  step-Shut calls l (closes d) h = subst (Shut calls l) (sym (shut_close d h.0)) h

  run-Shut :
      (calls : List (Firing K F)) (l : List F) {s t : Debouncer K F}
      → DebounceRun s t
      → Shut calls l s
      → Shut calls l t
  run-Shut calls l here h = h
  run-Shut calls l (next r x) h = step-Shut calls l x (run-Shut calls l r h)

  close_open :
      (d : Debouncer K F)
      → d.closed ≡ false
      → ((close d).closed ≡ true)
        × ((close d).quiet_window ≡ d.quiet_window)
        × ((close d).timers ≡ [])
        × ((close d).running ≡ d.running)
        × ((close d).invoked ≡ d.invoked)
  unfolding close
  close_open d c = ground arith

  close-Shut :
      (d : Debouncer K F)
      → d.quiet_window ≡ true
      → d.closed ≡ false
      → Shut d.running d.invoked (close d)
  close-Shut d q c =
      let (shut, window, empty, calls, ran) = close_open d c in
      (
        shut,
        window ∙ q,
        empty,
        subst (λ r. Made d.running d.invoked r (close d).invoked) (sym calls)
            (subst (λ l. Made d.running d.invoked d.running l) (sym ran) none_made),
      )

  -- After `Close` of an open debouncer with a quiet window no timer is kept, and no function runs
  -- any more but those whose `fire` had given the lock back before `Close` took it, each at most
  -- once: timers that fired and come late to the lock, and later submissions, run nothing.
  pub closed_runs_nothing :
      (d : Debouncer K F) {t : Debouncer K F}
      → d.quiet_window ≡ true
      → d.closed ≡ false
      → DebounceRun (close d) t
      → (t.timers ≡ []) × Made d.running d.invoked t.running t.invoked
  closed_runs_nothing d q c r =
      let (_, _, empty, made) = run-Shut d.running d.invoked r (close-Shut d q c) in (empty, made)
