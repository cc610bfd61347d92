-- ===== src/Postgres/Backoff.antt =====
-- `reconnectBackoff` of internal/postgres/postgres_listen.go, and its use by `runFeed` and
-- `reconnect`. `exponential` and `jitter` stand for `backoff.Exponential` and `backoff.FullJitter`
-- of the shared library, the latter with its random draw. Times are in milliseconds, and a feed
-- makes fewer than 2 ^ 63 attempts.
use lib_systemplane.Prelude.{
  ℕ, ◌+◌, ◌≤◌, ◌≡◌, refl, subst, arith, leb, if◌then◌else◌, Bool, ◌||◌, List, [], ◌∷◌, suc,
}

pub record ReconnectBackoff : Type 0 where
  pub attempt : ℕ

abbrev pub backoff_base : ℕ
backoff_base = 500

abbrev pub backoff_cap : ℕ
backoff_cap = 30000

abbrev pub min : ℕ → ℕ → ℕ
min a b = if leb a b then a else b

-- `connectionEnded`.
unfoldable pub connection_ended : Bool → ℕ → ReconnectBackoff → ReconnectBackoff
connection_ended consumed lifetime b =
    if consumed || leb backoff_cap lifetime then record b { attempt = 0 } else b

-- A feed's connections: a delay that was waited before an attempt, or the end of a connection.
pub data Happened : Type 0 where
  waited : ℕ → Happened
  ended : Bool → ℕ → Happened

-- The attempts since the last connection that carried a notification or outlived the cap.
unfoldable pub spent : List Happened → ℕ
spent [] = 0
spent (waited d ∷ h) = suc (spent h)
spent (ended consumed lifetime ∷ h) = if consumed || leb backoff_cap lifetime then 0 else spent h

module _ (exponential : ℕ → ℕ → ℕ) (jitter : ℕ → ℕ → ℕ) where
  unfoldable pub ceiling : ReconnectBackoff → ℕ
  ceiling b = min (exponential backoff_base b.attempt) backoff_cap

  -- `next`: the delay, and the sequence after it.
  unfoldable pub next_delay : ℕ → ReconnectBackoff → ℕ × ReconnectBackoff
  unfolding ceiling
  next_delay draw b = (jitter draw (ceiling b), record b { attempt = b.attempt + 1 })

  -- The backoff of a running feed, and what happened, newest first.
  pub data Backs : ReconnectBackoff → List Happened → Type 0 where
    connected : Backs (record { attempt = 0 }) []
    dials :
        {b : ReconnectBackoff} {h : List Happened} (draw : ℕ)
        → Backs b h
        → Backs (next_delay draw b).1 (waited (next_delay draw b).0 ∷ h)
    ends :
        {b : ReconnectBackoff} {h : List Happened} (consumed : Bool) (lifetime : ℕ)
        → Backs b h
        → Backs (connection_ended consumed lifetime b) (ended consumed lifetime ∷ h)

  -- Each wait is below the cap, and below the exponential of the attempts spent when it began.
  abbrev pub Paced : List Happened → Type 0
  Paced [] = Unit
  Paced (waited d ∷ h) = (d ≤ backoff_cap) × (d ≤ exponential backoff_base (spent h)) × Paced h
  Paced (ended consumed lifetime ∷ h) = Paced h

  Backs-spent : {b : ReconnectBackoff} {h : List Happened} → Backs b h → b.attempt ≡ spent h
  unfolding next_delay connection_ended spent
  Backs-spent connected = refl
  Backs-spent (dials draw r) = omega (arith, Backs-spent r)
  Backs-spent (ends consumed lifetime r) = ground (arith, Backs-spent r)

  ceiling_bounds :
      (b : ReconnectBackoff)
      → (ceiling b ≤ backoff_cap) × (ceiling b ≤ exponential backoff_base b.attempt)
  unfolding ceiling
  ceiling_bounds b = ground arith

  -- A feed's reconnects are paced: however often its connections drop, each wait is at most the cap
  -- of 30 seconds and at most the exponential of the number of attempts since the last useful
  -- connection, if the jitter is no more than what it is drawn from.
  pub reconnects-Paced :
      ((draw d : ℕ) → jitter draw d ≤ d)
      → {b : ReconnectBackoff} {h : List Happened} → Backs b h
      → (b.attempt ≡ spent h) × Paced h
  unfolding next_delay
  reconnects-Paced bound connected = (Backs-spent connected, tt)
  reconnects-Paced bound (dials {b} {h} draw r) =
      let (capped, grown) = ceiling_bounds b in
      let drawn = bound draw (ceiling b) in
      let same = Backs-spent r in
      (
        Backs-spent (dials draw r),
        (
          omega arith,
          subst (λ n. jitter draw (ceiling b) ≤ exponential backoff_base n) same (omega arith),
          (reconnects-Paced bound r).1,
        ),
      )
  reconnects-Paced bound (ends consumed lifetime r) =
      (Backs-spent (ends consumed lifetime r), (reconnects-Paced bound r).1)
