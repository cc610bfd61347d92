-- ===== src/Debounce.antt =====
-- The trailing-edge debouncer: internal/debounce/debounce.go. `time.AfterFunc` is the environment's:
-- a timer that it has started is `armed`, and one that fired is a call of `fire` on its way to the
-- lock, `in_flight`. `Stop` takes an armed timer back and does nothing to one that fired. A
-- function is a name of type `F`. A call of `fire` that found its entry gives the lock back before it
-- calls its function, so it is `running` until that call, and `invoked` records the calls, newest
-- first.
pub mod Closed
pub mod Generations
use lib_systemplane.Prelude.{
  Comparable, ℕ, zero, suc, ◌+◌, ◌%◌, ◌^◌, ◌≤◌, ◌<◌, ◌≡◌, refl, sym, ap, ◌∙◌, subst, fun_ext, ◌≢◌,
  ◌⊎◌, inl, inr, ◌↔◌, ◌==◌, nat_comparable, string_comparable, if◌then◌else◌, Bool, true, false,
  not, ◌&&◌, ◌||◌, Option, none, some, GoMap, get, put, del, has, get-put, get-del, get-put_self,
  get-del_self, arith, Result, ok, err, is_empty, bytes_equal, bytes_equal→≡, List, [], ◌∷◌, ◌++◌,
  eq_refl, eq→≡, Option-cases, Bool-cases, map_option, is_some, get_or, inc64, ltb, leb, All,
  length, length-append, map, String,
}

pub record TimerEntry : Type 0 where
  pub timer : ℕ
  pub generation : ℕ

-- `d.timers[key].generation`, zero where the key has no entry.
abbrev pub generation_of : Option TimerEntry → ℕ
generation_of none = 0
generation_of (some t) = t.generation

pub record Firing (K F : Type 0) : Type 0 where
  pub timer : ℕ
  pub key : K
  pub generation : ℕ
  pub fn : F

pub record Debouncer (K F : Type 0) : Type 0 where
  pub quiet_window : Bool
  pub closed : Bool
  pub timers : GoMap K TimerEntry
  pub next_timer : ℕ
  pub armed : List (Firing K F)
  pub in_flight : List (Firing K F)
  pub running : List (Firing K F)
  pub invoked : List F

module _ {K F : Type 0} where
  -- `New`: the window is zero or negative where `quiet_window` is false.
  unfoldable pub new : Bool → Debouncer K F
  new quiet = record {
    quiet_window = quiet;
    closed = false;
    timers = [];
    next_timer = 0;
    armed = [];
    in_flight = [];
    running = [];
    invoked = [];
  }

  -- `timer.Stop()`
  unfoldable pub stop_timer : ℕ → List (Firing K F) → List (Firing K F)
  stop_timer t [] = []
  stop_timer t (f ∷ fs) = if f.timer == t then stop_timer t fs else f ∷ stop_timer t fs

  stop_existing : Option TimerEntry → List (Firing K F) → List (Firing K F)
  unfolding stop_timer
  stop_existing none fs = fs
  stop_existing (some t) fs = stop_timer t.timer fs

  stop_every : GoMap K TimerEntry → List (Firing K F) → List (Firing K F)
  unfolding stop_timer
  stop_every [] fs = fs
  stop_every ((k, t) ∷ m) fs = stop_every m (stop_timer t.timer fs)

module _ {K F : Type 0} ⦃e : Comparable K⦄ where
  unfoldable pub submit : K → F → Debouncer K F → Debouncer K F
  unfolding stop_existing
  submit key fn d =
      if not d.quiet_window
      then record d { invoked = fn ∷ d.invoked }
      else if d.closed
      then d
      else let existing = get key d.timers in
        let generation : ℕ = inc64 (generation_of existing) in
        let firing : Firing K F = record {
          timer = d.next_timer;
          key = key;
          generation = generation;
          fn = fn;
        } in
        record d {
          timers = put key (record { timer = d.next_timer; generation = generation }) d.timers;
          next_timer = d.next_timer + 1;
          armed = firing ∷ stop_existing existing d.armed;
        }

  -- `fire` up to its unlock, of a timer that has fired.
  unfoldable pub fire : Firing K F → Debouncer K F → Debouncer K F
  fire f d =
      if d.closed
      then d
      else if is_some (get f.key d.timers) && generation_of (get f.key d.timers) == f.generation
      then record d { timers = del f.key d.timers; running = f ∷ d.running }
      else d

  unfoldable pub close : Debouncer K F → Debouncer K F
  unfolding stop_every
  close d =
      if d.closed
      then d
      else record d { closed = true; timers = []; armed = stop_every d.timers d.armed }

  -- The runtime starts the goroutine of an armed timer.
  unfoldable pub expire :
      List (Firing K F) → Firing K F → List (Firing K F) → Debouncer K F → Debouncer K F
  expire before f after d = record d { armed = before ++ after; in_flight = f ∷ d.in_flight }

  -- A goroutine in flight gets the lock.
  unfoldable pub run_firing :
      List (Firing K F) → Firing K F → List (Firing K F) → Debouncer K F → Debouncer K F
  unfolding fire
  run_firing before f after d = fire f (record d { in_flight = before ++ after })

  -- `d.invokeWithRecover(fn)`, after the unlock.
  unfoldable pub invoke :
      List (Firing K F) → Firing K F → List (Firing K F) → Debouncer K F → Debouncer K F
  invoke before f after d = record d { running = before ++ after; invoked = f.fn ∷ d.invoked }

  pub data DebounceStep : Debouncer K F → Debouncer K F → Type 0 where
    submits : (key : K) (fn : F) (d : Debouncer K F) → DebounceStep d (submit key fn d)
    expires :
        (before after : List (Firing K F)) (f : Firing K F) (d : Debouncer K F)
        → d.armed ≡ before ++ (f ∷ after)
        → DebounceStep d (expire before f after d)
    fires :
        (before after : List (Firing K F)) (f : Firing K F) (d : Debouncer K F)
        → d.in_flight ≡ before ++ (f ∷ after)
        → DebounceStep d (run_firing before f after d)
    invokes :
        (before after : List (Firing K F)) (f : Firing K F) (d : Debouncer K F)
        → d.running ≡ before ++ (f ∷ after)
        → DebounceStep d (invoke before f after d)
    closes : (d : Debouncer K F) → DebounceStep d (close d)

  pub data DebounceRun (s : Debouncer K F) : Debouncer K F → Type 0 where
    here : DebounceRun s s
    next : {t u : Debouncer K F} → DebounceRun s t → DebounceStep t u → DebounceRun s u
