-- ===== src/Debounce/Generations.antt =====
-- Generations are counted per entry, and an entry is deleted when its timer fires: a key's next
-- submission starts at generation 1 again.
use lib_systemplane.Prelude.{
  Comparable, ℕ, ◌≡◌, refl, subst, ◌≢◌, nat_comparable, string_comparable, true, false, some, get,
  put, del, arith, [], ◌∷◌, eq_refl,
}
use lib_systemplane.Debounce.{
  Debouncer, Firing, TimerEntry, new, submit, fire, expire, run_firing, invoke, DebounceRun, here,
  next, submits, expires, fires, invokes, stop_timer,
}

module _ {K F : Type 0} ⦃e : Comparable K⦄ where
  -- A firing whose generation is not the key's current one changes nothing and runs nothing.
  pub fire-outdated :
      (f : Firing K F) (d : Debouncer K F) (t : TimerEntry)
      → get f.key d.timers ≡ some t
      → t.generation ≢ f.generation
      → fire f d ≡ d
  unfolding fire
  fire-outdated f d t h n = ground arith

module _ {K F : Type 0} ⦃e : Comparable K⦄ (key : K) (first second third : F) where
  firing_of : ℕ → ℕ → F → Firing K F
  firing_of t g fn = record { timer = t; key = key; generation = g; fn = fn }

  -- `first` was submitted and its timer fired; so were `second`'s, whose call ran. The call for
  -- `first` has not got the lock yet.
  delayed : Debouncer K F
  delayed = record {
    quiet_window = true;
    closed = false;
    timers = [];
    next_timer = 2;
    armed = [];
    in_flight = firing_of 0 1 first ∷ [];
    running = [];
    invoked = second ∷ [];
  }

  second_ran :
      invoke [] (firing_of 1 2 second) [] (
        run_firing [] (firing_of 1 2 second) (firing_of 0 1 first ∷ []) (
          expire []
            (firing_of 1 2 second)
            []
            (submit key second (expire [] (firing_of 0 1 first) [] (submit key first (new true))))))
      ≡ delayed
  unfolding new submit expire run_firing invoke fire delayed firing_of get put del stop_timer
  second_ran = ground (arith, eq_refl key)

  second_armed :
      (submit key second (expire [] (firing_of 0 1 first) [] (submit key first (new true)))).armed
      ≡ firing_of 1 2 second ∷ []
  unfolding new submit expire run_firing invoke fire delayed firing_of get put del stop_timer
  second_armed = ground (arith, eq_refl key)

  second_running :
      (run_firing [] (firing_of 1 2 second) (firing_of 0 1 first ∷ []) (
        expire [] (firing_of 1 2 second) [] (
          submit key second
            (expire [] (firing_of 0 1 first) [] (submit key first (new true)))))).running
      ≡ firing_of 1 2 second ∷ []
  unfolding new submit expire run_firing fire firing_of get put del stop_timer
  second_running = ground (arith, eq_refl key)

  first_armed : (submit key first (new true)).armed ≡ firing_of 0 1 first ∷ []
  unfolding new submit firing_of get
  first_armed = refl

  second_in_flight :
      (expire [] (firing_of 1 2 second) [] (
        submit key second
          (expire [] (firing_of 0 1 first) [] (submit key first (new true))))).in_flight
      ≡ firing_of 1 2 second ∷ firing_of 0 1 first ∷ []
  unfolding new submit expire firing_of get
  second_in_flight = refl

  reaches_delayed : DebounceRun (new true) delayed
  reaches_delayed =
      let a = next here (submits key first (new true)) in
      let b = next a (expires [] [] (firing_of 0 1 first) _ first_armed) in
      let c = next b (submits key second _) in
      let d = next c (expires [] [] (firing_of 1 2 second) _ second_armed) in
      let e =
        next d (fires [] (firing_of 0 1 first ∷ []) (firing_of 1 2 second) _ second_in_flight) in
      subst (DebounceRun (new true)) second_ran
        (next e (invokes [] [] (firing_of 1 2 second) _ second_running))

  -- The call for `first` runs after `third` was submitted.
  overtaken : Debouncer K F
  overtaken =
      invoke [] (firing_of 0 1 first) []
        (run_firing [] (firing_of 0 1 first) [] (submit key third delayed))

  -- Then `third`'s timer fires and gets the lock.
  lost : Debouncer K F
  lost = run_firing [] (firing_of 2 1 third) [] (expire [] (firing_of 2 1 third) [] overtaken)

  lost_outcome :
      (lost.armed ≡ [])
      × (lost.in_flight ≡ [])
      × (lost.running ≡ [])
      × (lost.timers ≡ [])
      × (lost.invoked ≡ first ∷ second ∷ [])
  unfolding lost overtaken submit expire run_firing invoke fire delayed firing_of get put del
      stop_timer
  lost_outcome = ground (arith, eq_refl key)

  third_armed : overtaken.armed ≡ firing_of 2 1 third ∷ []
  unfolding overtaken submit expire run_firing invoke fire delayed firing_of get put del stop_timer
  third_armed = ground (arith, eq_refl key)

  third_fires : (expire [] (firing_of 2 1 third) [] overtaken).in_flight ≡ firing_of 2 1 third ∷ []
  unfolding overtaken submit expire run_firing invoke fire delayed firing_of get put del stop_timer
  third_fires = ground (arith, eq_refl key)

  first_in_flight : (submit key third delayed).in_flight ≡ firing_of 0 1 first ∷ []
  unfolding submit delayed
  first_in_flight = refl

  first_running :
      (run_firing [] (firing_of 0 1 first) [] (submit key third delayed)).running
      ≡ firing_of 0 1 first ∷ []
  unfolding submit run_firing fire delayed firing_of get put del stop_timer
  first_running = ground (arith, eq_refl key)

  reaches_lost : DebounceRun (submit key third delayed) lost
  unfolding lost overtaken
  reaches_lost =
      let a =
        next here (fires [] [] (firing_of 0 1 first) (submit key third delayed) first_in_flight) in
      let b = next a (invokes [] [] (firing_of 0 1 first) _ first_running) in
      let c = next b (expires [] [] (firing_of 2 1 third) _ third_armed) in
      next c (fires [] [] (firing_of 2 1 third) _ third_fires)

  -- Whatever three functions are submitted for a key, some schedule never runs the last of them:
  -- the call of the first one's timer gets the lock only after the second one has run and the
  -- third has been submitted, finds its own generation again, and takes the third's place.
  pub last_submission_lost :
      (s t : Debouncer K F) × DebounceRun (new true) s
      × DebounceRun (submit key third s) t
      × (t.armed ≡ [])
      × (t.in_flight ≡ [])
      × (t.running ≡ [])
      × (t.timers ≡ [])
      × (t.invoked ≡ first ∷ second ∷ [])
  last_submission_lost =
      let (armed, flying, calls, timers, ran) = lost_outcome in
      (delayed, lost, reaches_delayed, reaches_lost, armed, flying, calls, timers, ran)
