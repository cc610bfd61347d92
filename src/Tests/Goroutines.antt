-- ===== src/Tests/Goroutines.antt =====
-- Delivery workers, activations and debounced calls.
use lib_systemplane.Prelude.{
  inl, ℕ, arith, not, is_some, some, ◌≤◌, ◌≡◌, refl, nat_comparable, true, false, none, [], ◌∷◌,
}
use lib_systemplane.Engine.State.{Change}
use lib_systemplane.Engine.Dispatch.{store_pending as put_pending, send_signal as ping, take}
use lib_systemplane.Engine.Worker.{
  Worker, WorkerRun, begin, step, stores, signals, receives, takes, delivers, parked, new_run,
  store_change, signal_change, receive, take_change, deliver_change,
}
use lib_systemplane.Engine.Worker.Delivery.{
  Subsequence, head?, delivered_in_order, parked_delivered_newest,
}
use lib_systemplane.Engine.Activation.{
  is_idle, Slot, Run, begin as opened, call, section, activates, blocks, released, dropped, starts,
  brought_up, read, declines, fresh, activate, block, release_step, release, launch, failed_lately,
  supersede, releasing, succeeded, dropping, deciding,
}
use lib_systemplane.Engine.Activation.Blocked.{blocked_scope_untracked, activations_alone}
use lib_systemplane.Engine.Activation.Ends.{Sections, none_yet, more, activation_ends}
use lib_systemplane.Debounce.Closed.{Made, closed_runs_nothing}
use lib_systemplane.Debounce.Generations.{last_submission_lost}
use lib_systemplane.Debounce.{
  Debouncer, Firing, new, submit, close, fire, run_firing, invoke, DebounceRun, here, next, fires,
  invokes,
}

abbrev change : ℕ → Change ℕ
change v = record { tenant = ""; namespace = "payments"; key = "fee_bps"; revision = v; value = v }

-- Two publications before the worker wakes, then a delivery.
handed_over : Worker ℕ
unfolding store_change signal_change receive take_change deliver_change put_pending ping take
handed_over = deliver_change (change 2) (
    take_change (
      receive (
        signal_change (signal_change (store_change (change 2) (store_change (change 1) new_run))))))

handed_over_run : WorkerRun handed_over
unfolding handed_over store_change signal_change receive take_change deliver_change put_pending ping
    take
handed_over_run =
    let stored = step (step begin (stores (change 1) _)) (stores (change 2) _) in
    let a = step (step stored (signals _ (omega arith))) (signals _ (omega arith)) in
    let b = step (step a (receives _ refl refl)) (takes _ refl refl refl) in
    step b (delivers _ (change 2) refl)

delivered_in_order_example : Subsequence handed_over.delivered handed_over.submitted
delivered_in_order_example = delivered_in_order handed_over_run

handed_over_parked : handed_over.phase ≡ parked
unfolding handed_over deliver_change
handed_over_parked = refl

handed_over_quiet : handed_over.mailbox.signal ≡ false
unfolding handed_over store_change signal_change receive take_change deliver_change put_pending ping
    take
handed_over_quiet = refl

handed_over_signalled : handed_over.signalling ≡ 0
unfolding handed_over store_change signal_change receive take_change deliver_change put_pending ping
    take
handed_over_signalled = refl

parked_delivered_newest_example : head? handed_over.delivered ≡ head? handed_over.submitted
parked_delivered_newest_example =
    parked_delivered_newest handed_over_run handed_over_parked handed_over_quiet
      handed_over_signalled

-- A scope that comes up, is blocked while its activation is in flight, and is dropped.
up_and_blocked : Slot
unfolding activate block release_step release launch failed_lately supersede
up_and_blocked = block (record (activate 5 0 fresh).0 {
  tracked = true;
  phase = releasing true;
  reconciled = some true;
})

up_then_blocked : Run up_and_blocked
unfolding up_and_blocked activate block release_step release launch failed_lately supersede
up_then_blocked =
    let a = call opened (activates 5 0 fresh) in
    let b = section (section a (starts _ refl)) (brought_up _ (some true) refl refl) in
    let c = section b (succeeded _ refl refl) in call c (blocks _)

gone : Slot
unfolding up_and_blocked release_step
gone =
    release_step false 9
      (record (release_step true 3 up_and_blocked) { tracked = false; phase = releasing false })

gone-Run : Run gone
unfolding gone up_and_blocked activate block release_step release launch failed_lately supersede
gone-Run =
    let d = section up_then_blocked (released _ true 3 refl) in
    let e = section (section d (dropped _ refl)) (read _ refl) in
    section (section e (declines _ false refl (inl refl))) (released _ false 9 refl)

gone_open : gone.workers_closed ≡ false
unfolding gone up_and_blocked activate block release_step release launch failed_lately supersede
gone_open = refl

gone_blocked : gone.blocked ≡ true
unfolding gone up_and_blocked activate block release_step release launch failed_lately supersede
gone_blocked = refl

gone_done : gone.activating ≡ none
unfolding gone up_and_blocked activate block release_step release launch failed_lately supersede
gone_done = refl

blocked_scope_untracked_example : gone.tracked ≡ false
blocked_scope_untracked_example = blocked_scope_untracked gone-Run gone_open gone_blocked gone_done

activations_alone_example :
    (gone.earlier ≡ []) × (is_idle gone.phase ≡ not (is_some gone.activating))
activations_alone_example = activations_alone gone-Run

last-Sections :
    Sections (record fresh { phase = dropping }) 2 (record fresh { phase = deciding true })
last-Sections = more (more none_yet (dropped _ refl)) (read _ refl)

activation_ends_example : 2 ≤ 12
activation_ends_example = activation_ends last-Sections

-- A timer that had fired when `Close` came, and a call that was past the check.
late : Firing ℕ ℕ
late = record { timer = 0; key = 4; generation = 1; fn = 70 }

under_way : Firing ℕ ℕ
under_way = record { timer = 1; key = 5; generation = 1; fn = 80 }

two_firings : Debouncer ℕ ℕ
unfolding new
two_firings = record (new true) { in_flight = late ∷ []; running = under_way ∷ []; next_timer = 2 }

closed_run :
    DebounceRun
      (close two_firings)
      (invoke [] under_way [] (run_firing [] late [] (close two_firings)))
unfolding two_firings close run_firing fire
closed_run = next (next here (fires [] [] late _ refl)) (invokes [] [] under_way _ refl)

two_firings_window : two_firings.quiet_window ≡ true
unfolding two_firings new
two_firings_window = refl

two_firings_open : two_firings.closed ≡ false
unfolding two_firings new
two_firings_open = refl

closed_runs_nothing_example :
    let t = invoke [] under_way [] (run_firing [] late [] (close two_firings)) in
    (t.timers ≡ []) × Made two_firings.running two_firings.invoked t.running t.invoked
closed_runs_nothing_example =
    closed_runs_nothing two_firings two_firings_window two_firings_open closed_run

last_submission_lost_example :
    (s t : Debouncer ℕ ℕ) × DebounceRun (new true) s
    × DebounceRun (submit 4 72 s) t
    × (t.armed ≡ [])
    × (t.in_flight ≡ [])
    × (t.running ≡ [])
    × (t.timers ≡ [])
    × (t.invoked ≡ 70 ∷ 71 ∷ [])
last_submission_lost_example = last_submission_lost 4 70 71 72
