-- ===== src/Engine/Activation/Ends.antt =====
-- The loop of `endActivation` ends.
use lib_systemplane.Prelude.{
  ℕ, zero, suc, ◌+◌, ◌≤◌, ◌<◌, nat_comparable, string_comparable, Bool, true, Option, some, arith,
}
use lib_systemplane.Engine.Activation.{
  Phase, idle, bringing, waiting, dropping, reading, launched, releasing, deciding, Slot, Section,
  release_step, rebuilds, starts, brought_up, not_brought_up, succeeded, failed, cancelled,
  released, dropped, read, retries, declines,
}

-- How far a phase is from the end of a pass, and a pending rebuild is one more pass.
abbrev pub rank : Phase → ℕ
rank idle = 0
rank (releasing _) = 1
rank waiting = 2
rank bringing = 3
rank (deciding _) = 4
rank (launched _) = 4
rank reading = 5
rank dropping = 6

abbrev pub pending : Option Bool → ℕ
pending (some true) = 6
pending _ = 0

abbrev pub remaining : Slot → ℕ
remaining s = rank s.phase + pending s.activating

Section-decreases : {s t : Slot} → Section s t → remaining t < remaining s
unfolding release_step
Section-decreases (rebuilds s h) = ground arith
Section-decreases (starts s h) = ground arith
Section-decreases (brought_up s o h c) = ground arith
Section-decreases (not_brought_up s h) = ground arith
Section-decreases (succeeded s h d) = ground arith
Section-decreases (failed s h d) = ground arith
Section-decreases (cancelled s h c) = ground arith
Section-decreases (released s up now h) = ground arith
Section-decreases (dropped s h) = ground arith
Section-decreases (read s h) = ground arith
Section-decreases (retries s h c) = ground arith
Section-decreases (declines s allowed h c) = ground arith

-- `n` sections in a row, with no call in between.
pub data Sections (s : Slot) : ℕ → Slot → Type 0 where
  none_yet : Sections s zero s
  more : {n : ℕ} {t u : Slot} → Sections s n t → Section t u → Sections s (suc n) u

Sections-measure : {s t : Slot} {n : ℕ} → Sections s n t → n + remaining t ≤ remaining s
Sections-measure none_yet = omega arith
Sections-measure (more r x) = omega (arith, Sections-measure r, Section-decreases x)

remaining_bound : (s : Slot) → remaining s ≤ 12
remaining_bound s = ground arith

-- With no further call, the activation goroutine makes at most twelve sections, rebuilds included.
pub activation_ends : {s t : Slot} {n : ℕ} → Sections s n t → n ≤ 12
activation_ends {s} r = omega (arith, Sections-measure r, remaining_bound s)
