-- ===== src/Engine/Worker/Delivery.antt =====
-- What the mailbox of a delivery worker keeps of a key's changes.
use lib_systemplane.Prelude.{
  ◌≡◌, refl, ltb, nat_comparable, string_comparable, Bool, true, false, ◌||◌, Option, none, some,
  arith, List, [], ◌∷◌, is_some,
}
use lib_systemplane.Engine.State.{Change}
use lib_systemplane.Engine.Worker.{
  Phase, parked, awake, ended, delivering, Worker, store_change, signal_change, receive,
  take_change, deliver_change, stop_worker, WorkerStep, WorkerRun, begin, step, stores, signals,
  receives, takes, delivers, returns, stops, cancels,
}

-- `xs` is `ys` with some elements left out.
pub data Subsequence {A : Type 0} : List A → List A → Type 0 where
  nothing : Subsequence [] []
  left_out : {xs ys : List A} (y : A) → Subsequence xs ys → Subsequence xs (y ∷ ys)
  kept : {xs ys : List A} (y : A) → Subsequence xs ys → Subsequence (y ∷ xs) (y ∷ ys)

Subsequence-tail :
    {A : Type 0} {x : A} {xs ys : List A} → Subsequence (x ∷ xs) ys → Subsequence xs ys
Subsequence-tail (left_out y s) = left_out y (Subsequence-tail s)
Subsequence-tail (kept y s) = left_out y s

abbrev pub head? : {A : Type 0} → List A → Option A
head? [] = none
head? (x ∷ xs) = some x

module _ {V : Type 0} where
  abbrev in_flight : Phase V → List (Change V) → List (Change V)
  in_flight (delivering ch) l = ch ∷ l
  in_flight _ l = l

  abbrev waiting : Option (Change V) → List (Change V) → List (Change V)
  waiting (some ch) l = ch ∷ l
  waiting none l = l

  -- Delivered, being delivered or waiting in the mailbox, newest first.
  abbrev pub outstanding : Worker V → List (Change V)
  outstanding w = waiting w.mailbox.pending (in_flight w.phase w.delivered)

  abbrev is_awake : Phase V → Bool
  is_awake awake = true
  is_awake _ = false

  abbrev is_ended : Phase V → Bool
  is_ended ended = true
  is_ended _ = false

  -- A worker that waits for its signal, and was not stopped.
  abbrev pub is_parked : Phase V → Bool
  is_parked parked = true
  is_parked _ = false

  pub record Inv (w : Worker V) : Type 0 where
    pub ordered : Subsequence (outstanding w) w.submitted
    pub newest : head? (outstanding w) ≡ head? w.submitted
    pub awaited :
        is_some w.mailbox.pending ≡ true
        → (w.mailbox.signal || is_awake w.phase || is_ended w.phase || ltb 0 w.signalling) ≡ true

  resubmitted :
      (ch : Change V) (o : Option (Change V)) (l ys : List (Change V))
      → Subsequence (waiting o l) ys
      → Subsequence (ch ∷ l) (ch ∷ ys)
  resubmitted ch none l ys s = kept ch s
  resubmitted ch (some old) l ys s = kept ch (Subsequence-tail s)

  -- A step that moves a change from the mailbox to the goroutine, or on from there.
  moved :
      (w x : Worker V)
      → outstanding x ≡ outstanding w
      → x.submitted ≡ w.submitted
      → (is_some x.mailbox.pending ≡ true
          → (x.mailbox.signal || is_awake x.phase || is_ended x.phase || ltb 0 x.signalling) ≡ true)
      → Inv w
      → Inv x
  moved w x e f a v = record {
    ordered = rw (e, f) (v.ordered);
    newest = rw (e, f) (v.newest);
    awaited = a;
  }

  Step-Inv : {w x : Worker V} → WorkerStep w x → Inv w → Inv x
  unfolding store_change signal_change receive take_change deliver_change stop_worker
  Step-Inv (signals w p) v = moved w (signal_change w) refl refl (λ h. refl) v
  Step-Inv (stores ch w) v = record {
    ordered =
        resubmitted ch w.mailbox.pending (in_flight w.phase w.delivered) w.submitted v.ordered;
    newest = refl;
    awaited = λ h. ground arith;
  }
  Step-Inv (receives w p s) v = moved w (receive w) (ground arith) refl (λ h. refl) v
  Step-Inv (takes w p c d) v = moved w (take_change w) (ground arith) refl (ground arith) v
  Step-Inv (delivers w ch p) v =
      moved w (deliver_change ch w) (ground arith) refl (ground (arith, v.awaited)) v
  Step-Inv (returns w p c) v = moved w _ (ground arith) refl (ground arith) v
  Step-Inv (stops w) v = moved w (stop_worker w) refl refl v.awaited v
  Step-Inv (cancels w) v = moved w (record w { cancelled = true }) refl refl v.awaited v

  pub WorkerRun-Inv : {w : Worker V} → WorkerRun w → Inv w
  WorkerRun-Inv begin = record { ordered = nothing; newest = refl; awaited = λ h. cc }
  WorkerRun-Inv (step r x) = Step-Inv x (WorkerRun-Inv r)

  not_in_flight :
      (p : Phase V) (l ys : List (Change V)) → Subsequence (in_flight p l) ys → Subsequence l ys
  not_in_flight parked l ys s = s
  not_in_flight awake l ys s = s
  not_in_flight ended l ys s = s
  not_in_flight (delivering ch) l ys s = Subsequence-tail s

  not_waiting :
      (o : Option (Change V)) (l ys : List (Change V))
      → Subsequence (waiting o l) ys
      → Subsequence l ys
  not_waiting none l ys s = s
  not_waiting (some ch) l ys s = Subsequence-tail s

  -- In every run, what a key's subscribers were handed is a subsequence of what was published: in
  -- the order of publication, each at most once.
  pub delivered_in_order : {w : Worker V} → WorkerRun w → Subsequence w.delivered w.submitted
  delivered_in_order {w} r = not_in_flight w.phase w.delivered w.submitted (
      not_waiting w.mailbox.pending (in_flight w.phase w.delivered) w.submitted
        (WorkerRun-Inv r).ordered)

  -- In every run, a worker that waits with no signal, while no publisher is between its store and
  -- its signal, has handed over the newest change.
  pub parked_delivered_newest :
      {w : Worker V}
      → WorkerRun w
      → w.phase ≡ parked
      → w.mailbox.signal ≡ false
      → w.signalling ≡ 0
      → head? w.delivered ≡ head? w.submitted
  parked_delivered_newest {w} r p s n = ground (arith, WorkerRun-Inv r)
