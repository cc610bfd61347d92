-- ===== src/Engine/Worker.antt =====
-- The delivery worker of one key: `runWorker` of internal/engine/dispatch.go against the publishers
-- that submit to its mailbox. A publisher stores its change, unlocks and then sends the signal:
-- `signalling` counts the publishers in between. `submitted` and `delivered` record the history, newest first.
pub mod Delivery
use lib_systemplane.Prelude.{
  ℕ, zero, suc, ◌+◌, ◌-◌, ◌%◌, ◌^◌, ◌≤◌, ◌<◌, ◌≡◌, refl, sym, ap, ◌∙◌, subst, fun_ext, ◌≢◌, ◌⊎◌,
  inl, inr, ◌↔◌, ◌==◌, nat_comparable, string_comparable, if◌then◌else◌, Bool, true, false, not,
  ◌&&◌, ◌||◌, Option, none, some, GoMap, get, put, del, has, get-put, get-del, get-put_self,
  get-del_self, arith, Result, ok, err, is_empty, bytes_equal, bytes_equal→≡, List, [], ◌∷◌, ◌++◌,
  eq_refl, eq→≡, Option-cases, Bool-cases, map_option, is_some, get_or, inc64, ltb, leb, All,
  length, length-append, map, String,
}
use lib_systemplane.Engine.State.{Change, DispatchWorker}
use lib_systemplane.Engine.Dispatch.{store_pending, send_signal, take, stop, new_worker}

pub data Phase (V : Type 0) : Type 0 where
  parked awake ended : Phase V
  delivering : Change V → Phase V

pub record Worker (V : Type 0) : Type 0 where
  pub mailbox : DispatchWorker V
  pub phase : Phase V
  pub cancelled : Bool
  pub signalling : ℕ
  pub submitted : List (Change V)
  pub delivered : List (Change V)

module _ {V : Type 0} where
  abbrev pub new_run : Worker V
  new_run = record {
    mailbox = new_worker;
    phase = parked;
    cancelled = false;
    signalling = 0;
    submitted = [];
    delivered = [];
  }

  -- `submit` up to its unlock.
  unfoldable pub store_change : Change V → Worker V → Worker V
  unfolding store_pending
  store_change ch w = record w {
    mailbox = store_pending ch w.mailbox;
    signalling = w.signalling + 1;
    submitted = ch ∷ w.submitted;
  }

  -- The rest of `submit`.
  unfoldable pub signal_change : Worker V → Worker V
  unfolding send_signal
  signal_change w = record w { mailbox = send_signal w.mailbox; signalling = w.signalling - 1 }

  -- The receive of `w.signal`.
  unfoldable pub receive : Worker V → Worker V
  receive w = record w { mailbox = record (w.mailbox) { signal = false }; phase = awake }

  phase_of : Option (Change V) → Phase V
  phase_of none = parked
  phase_of (some ch) = delivering ch

  -- `if ch, ok := w.take(); ok { e.deliver(…) }`
  unfoldable pub take_change : Worker V → Worker V
  unfolding take phase_of
  take_change w = let (m, ch) = take w.mailbox in record w { mailbox = m; phase = phase_of ch }

  unfoldable pub deliver_change : Change V → Worker V → Worker V
  deliver_change ch w = record w { phase = parked; delivered = ch ∷ w.delivered }

  unfoldable pub stop_worker : Worker V → Worker V
  unfolding stop
  stop_worker w = record w { mailbox = stop w.mailbox }

  pub data WorkerStep : Worker V → Worker V → Type 0 where
    stores : (ch : Change V) (w : Worker V) → WorkerStep w (store_change ch w)
    signals : (w : Worker V) → 0 < w.signalling → WorkerStep w (signal_change w)
    receives :
        (w : Worker V) → w.phase ≡ parked → w.mailbox.signal ≡ true → WorkerStep w (receive w)
    takes :
        (w : Worker V)
        → w.phase ≡ awake
        → w.cancelled ≡ false
        → w.mailbox.done ≡ false
        → WorkerStep w (take_change w)
    delivers :
        (w : Worker V) (ch : Change V)
        → w.phase ≡ delivering ch
        → WorkerStep w (deliver_change ch w)
    returns :
        (w : Worker V)
        → (w.phase ≡ parked) ⊎ (w.phase ≡ awake)
        → (w.cancelled ≡ true) ⊎ (w.mailbox.done ≡ true)
        → WorkerStep w (record w { phase = ended })
    stops : (w : Worker V) → WorkerStep w (stop_worker w)
    cancels : (w : Worker V) → WorkerStep w (record w { cancelled = true })

  pub data WorkerRun : Worker V → Type 0 where
    begin : WorkerRun new_run
    step : {w x : Worker V} → WorkerRun w → WorkerStep w x → WorkerRun x
