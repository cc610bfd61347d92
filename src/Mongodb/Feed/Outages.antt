-- ===== src/Mongodb/Feed/Outages.antt =====
-- The markers that a subscriber hears.
use lib_systemplane.Prelude.{
  ◌≡◌, refl, Bool, true, false, if◌then◌else◌, Option, none, some, List, [], ◌∷◌,
}
use lib_systemplane.Engine.State.{Op, resync, disconnect}
use lib_systemplane.Mongodb.Feed.{Flags, begin_disconnect, hear, Stand, opening, reading, polling}

-- After an outage its end, after an open a loss.
follows : Op → List Op → Bool
follows op [] = true
follows resync (disconnect ∷ l) = true
follows disconnect (resync ∷ l) = true
follows _ _ = false

unfoldable pub alternates : List Op → Bool
unfolding follows
alternates [] = true
alternates (op ∷ l) = if follows op l then alternates l else false

last_of : List Op → Option Op
last_of [] = none
last_of (op ∷ l) = some op

-- The flags and the reader agree with the last marker, while teardown has not begun.
fits : Stand → Bool → Bool → Option Op → Bool
fits opening false false none = true
fits opening false true (some disconnect) = true
fits reading true false (some resync) = true
fits polling true false (some resync) = true
fits polling false true (some disconnect) = true
fits _ _ _ _ = false

abbrev Agrees : Stand → Flags → List Op → Type 0
Agrees s f heard =
    ((if f.closing then true else fits s f.connected f.disconnected (last_of heard)) ≡ true)
    × (alternates heard ≡ true)

lost :
    (c d k : Bool) (heard : List Op)
    → Agrees reading (record { connected = c; disconnected = d; closing = k }) heard
    → let r = begin_disconnect (record { connected = c; disconnected = d; closing = k }) in
      Agrees opening r.0 (hear r.1 heard)
unfolding fits last_of alternates follows begin_disconnect hear
lost c d true heard h = h
lost true false false (resync ∷ l) h = (refl, h.1)
lost c d k heard h = absurd (let clash : false ≡ true = h.0 in cc)
