-- ===== src/Engine/Windows/Laws.antt =====
-- What `record`, closing and arming do to the sets that a reconcile reads.
use lib_systemplane.Prelude.{
  ℕ, ◌≡◌, refl, ◌==◌, nat_comparable, string_comparable, if◌then◌else◌, Bool, false, not, ◌&&◌,
  ◌||◌, none, some, get-put, get-del, arith, List, [], ◌∷◌,
}
use lib_systemplane.Engine.State.{NsKey, ns_key_comparable, Window}
use lib_systemplane.Engine.Windows.{
  note, record_in, delete_window, find_window, touched_in, unusable_in,
}

unfoldable pub window_open : ℕ → List Window → Bool
window_open a ws = elim (find_window a ws) [ none ↦ false | some w ↦ w.is_open ]

-- A usable outcome marks the key touched in the open windows, and nothing ever unmarks it.
pub touched-record_in :
    (a : ℕ) (j nk : NsKey) (usable : Bool) (ws : List Window)
    → touched_in a j (record_in nk usable ws)
      ≡ (touched_in a j ws || usable && (nk == j) && window_open a ws)
unfolding touched_in record_in find_window note window_open
touched-record_in a j nk usable [] = ground arith
touched-record_in a j nk usable (w ∷ ws) =
    ground (arith, touched-record_in a j nk usable ws, get-put nk j tt w.touched)

pub unusable-record_in :
    (a : ℕ) (j nk : NsKey) (usable : Bool) (ws : List Window)
    → unusable_in a j (record_in nk usable ws)
      ≡ (if (nk == j) && window_open a ws then not usable else unusable_in a j ws)
unfolding unusable_in record_in find_window note window_open
unusable-record_in a j nk usable [] = ground arith
unusable-record_in a j nk usable (w ∷ ws) = ground (
  arith,
  unusable-record_in a j nk usable ws,
  get-put nk j tt w.unusable,
  get-del nk j w.unusable,
)

pub open-record_in :
    (a : ℕ) (nk : NsKey) (usable : Bool) (ws : List Window)
    → window_open a (record_in nk usable ws) ≡ window_open a ws
unfolding record_in find_window note window_open
open-record_in a nk usable [] = refl
open-record_in a nk usable (w ∷ ws) = ground (arith, open-record_in a nk usable ws)

pub touched-delete_window :
    (a gen : ℕ) (j : NsKey) (ws : List Window)
    → touched_in a j (delete_window gen ws) ≡ touched_in a j ws
unfolding touched_in delete_window find_window
touched-delete_window a gen j [] = refl
touched-delete_window a gen j (w ∷ ws) = ground (arith, touched-delete_window a gen j ws)

pub unusable-delete_window :
    (a gen : ℕ) (j : NsKey) (ws : List Window)
    → unusable_in a j (delete_window gen ws) ≡ unusable_in a j ws
unfolding unusable_in delete_window find_window
unusable-delete_window a gen j [] = refl
unusable-delete_window a gen j (w ∷ ws) = ground (arith, unusable-delete_window a gen j ws)
