-- ===== src/Engine/Activation/Blocked.antt =====
-- Block against every interleaving with an activation in flight.
use lib_systemplane.Prelude.{
  ◌≡◌, ◌≢◌, sym, ◌∙◌, List, [], ◌∷◌, ◌++◌, nat_comparable, string_comparable, Bool, true, false,
  not, none, some, arith, is_some,
}
use lib_systemplane.Engine.Activation.{
  Phase, is_idle, dropping, reading, releasing, deciding, Slot, Section, Call, Run, activate, block,
  unblock, reactivate, release_step, begin, call, section, section_of_earlier, activates, blocks,
  unblocks, reactivates, reconciles, closes, closes_workers, rebuilds, starts, brought_up,
  not_brought_up, succeeded, failed, cancelled, released, dropped, read, retries, declines,
}

-- Where the goroutine may stand with a blocked scope and no rebuild asked for: on its way down.
abbrev pub winding_down : Phase → Bool
winding_down dropping = true
winding_down reading = true
winding_down (deciding false) = true
winding_down (releasing false) = true
winding_down _ = false

abbrev is_dropping : Phase → Bool
is_dropping dropping = true
is_dropping _ = false

pub record Inv (s : Slot) : Type 0 where
  pub alone : s.earlier ≡ []
  pub single : is_idle s.phase ≡ not (is_some s.activating)
  pub down : s.blocked ≡ true → s.activating ≡ some false → winding_down s.phase ≡ true
  pub gone :
      s.blocked ≡ true → s.activating ≡ some false → is_dropping s.phase ≡ false → s.tracked ≡ false
  pub off : s.workers_closed ≡ false → s.blocked ≡ true → s.activating ≡ none → s.tracked ≡ false

Call-Inv : {s t : Slot} → Call s t → Inv s → Inv t
unfolding activate block unblock reactivate
Call-Inv (activates delay now s) v = ground arith
Call-Inv (blocks s) v = ground arith
Call-Inv (unblocks s) v = ground arith
Call-Inv (reactivates s) v = ground arith
Call-Inv (reconciles ok s h) v = ground arith
Call-Inv (closes s) v = ground arith
Call-Inv (closes_workers s h) v = ground arith

Section-Inv : {s t : Slot} → Section s t → Inv s → Inv t
unfolding release_step
Section-Inv (rebuilds s h) v = ground arith
Section-Inv (starts s h) v = ground arith
Section-Inv (brought_up s o h c) v = ground arith
Section-Inv (not_brought_up s h) v = ground arith
Section-Inv (succeeded s h d) v = ground arith
Section-Inv (failed s h d) v = ground arith
Section-Inv (cancelled s h c) v = ground arith
Section-Inv (released s up now h) v = ground arith
Section-Inv (dropped s h) v = ground arith
Section-Inv (read s h) v = ground arith
Section-Inv (retries s h c) v = ground arith
Section-Inv (declines s allowed h c) v = ground arith

append_cons : {A : Type 0} (before after : List A) (a : A) → before ++ (a ∷ after) ≢ []
append_cons [] after a h = cc
append_cons (b ∷ before) after a h = cc

-- The activation invariant holds after any calls and goroutine sections, in any order.
pub Run-Inv : {s : Slot} → Run s → Inv s
Run-Inv begin = ground arith
Run-Inv (call r c) = Call-Inv c (Run-Inv r)
Run-Inv (section r x) = Section-Inv x (Run-Inv r)
Run-Inv (section_of_earlier before after p r e x) =
    absurd (append_cons before after p (sym e ∙ (Run-Inv r).alone))

-- While the engine takes work, a blocked scope with no activation in flight is not tracked,
-- whatever calls and goroutine sections led there.
pub blocked_scope_untracked :
    {s : Slot}
    → Run s
    → s.workers_closed ≡ false
    → s.blocked ≡ true
    → s.activating ≡ none
    → s.tracked ≡ false
blocked_scope_untracked r w b a = (Run-Inv r).off w b a

-- A scope never has two activation goroutines: whatever calls of Activate, Block and Reactivate and
-- whatever sections led there, none was launched before the one in front of it had ended, and one
-- is under way exactly while `activating` holds the scope.
pub activations_alone :
    {s : Slot} → Run s → (s.earlier ≡ []) × (is_idle s.phase ≡ not (is_some s.activating))
activations_alone r = ((Run-Inv r).alone, (Run-Inv r).single)
