-- ===== src/Mongodb/Feed.antt =====
-- The markers of a feed: `beginDisconnect`, `beginResync`, `beginResyncAfterOutage`,
-- `markConnectedLocked` of internal/mongodb/mongodb_changestream.go and `joiningOpLocked` of
-- mongodb_events.go. Each section under `f.mu` is a step, and its marker is none where it announces
-- nothing.
pub mod Outages
use lib_systemplane.Prelude.{
  Bool, true, false, not, ◌||◌, if◌then◌else◌, Option, none, some, List, [], ◌∷◌,
}
use lib_systemplane.Engine.State.{Op, resync, disconnect}

pub record Flags : Type 0 where
  pub connected : Bool
  pub disconnected : Bool
  pub closing : Bool

-- `newFeed`.
abbrev pub new_flags : Flags
new_flags = record { connected = false; disconnected = false; closing = false }

unfoldable pub begin_disconnect : Flags → Flags × Option Op
begin_disconnect f =
    if f.closing || f.disconnected
    then (f, none)
    else (record f { connected = false; disconnected = true }, some disconnect)

abbrev pub mark_connected : Flags → Flags
mark_connected f = record f { connected = true; disconnected = false }

unfoldable pub begin_resync : Flags → Flags × Option Op
begin_resync f = if f.closing then (f, none) else (mark_connected f, some resync)

unfoldable pub begin_resync_after_outage : Flags → Flags × Option Op
begin_resync_after_outage f =
    if f.closing || not f.disconnected then (f, none) else (mark_connected f, some resync)

-- `joiningOpLocked`.
unfoldable pub joining_op : Flags → Option Op
joining_op f = if f.connected then some resync else if f.disconnected then some disconnect else none

-- Teardown sets `closing`.
abbrev pub begin_teardown : Flags → Flags
begin_teardown f = record f { closing = true }

unfoldable pub hear : Option Op → List Op → List Op
hear none heard = heard
hear (some op) heard = op ∷ heard

-- Where the feed's reader stands: before the next announcement of an open, in a change stream, or
-- in the polling loop.
pub data Stand : Type 0 where
  opening reading polling : Stand

-- The sections of `runFeed`, `pollForever` and teardown, with the marker that each broadcasts.
pub data FeedStep : Stand → Flags → Stand → Flags × Option Op → Type 0 where
  opens : (f : Flags) → FeedStep opening f reading (begin_resync f)
  loses : (f : Flags) → FeedStep reading f opening (begin_disconnect f)
  starts_polling : (f : Flags) → FeedStep opening f polling (begin_resync f)
  poll_fails : (f : Flags) → FeedStep polling f polling (begin_disconnect f)
  poll_succeeds : (f : Flags) → FeedStep polling f polling (begin_resync_after_outage f)
  closes : (s : Stand) (f : Flags) → FeedStep s f s (begin_teardown f, none)

-- A feed before a subscriber joins.
pub data Feeding : Stand → Flags → Type 0 where
  created : Feeding opening new_flags
  goes_on :
      {s t : Stand} {f : Flags} {g : Flags × Option Op}
      → Feeding s f
      → FeedStep s f t g
      → Feeding t g.0

-- What a subscriber has heard since it joined, newest first. Its join and its joining marker are
-- one section, since it holds the lock of its deliveries.
pub data Hears : Stand → Flags → List Op → Type 0 where
  joins : {s : Stand} {f : Flags} → Feeding s f → Hears s f (hear (joining_op f) [])
  then_hears :
      {s t : Stand} {f : Flags} {g : Flags × Option Op} {heard : List Op}
      → Hears s f heard
      → FeedStep s f t g
      → Hears t g.0 (hear g.1 heard)
