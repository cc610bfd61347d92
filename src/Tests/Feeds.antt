-- ===== src/Tests/Feeds.antt =====
-- Two round trips of a poller, and a subscriber that joins during an outage.
use lib_systemplane.Prelude.{
  leb, subst, ◌*◌, ◌^◌, ℕ, ◌≤◌, ◌≡◌, refl, arith, ◌⊎◌, inl, inr, String, ◌==◌, string_comparable,
  nat_comparable, if◌then◌else◌, true, false, Option, none, some, List, [], ◌∷◌, ◌++◌, get, put,
  has,
}
use lib_systemplane.Engine.State.{ns_key_comparable, ns_key_beq}
use lib_systemplane.Mongodb.Polling.{
  Doc, Announcement, emit_event, documents, PollState, new_poll_state, boundary_dedup_hit, bury,
  is_echo, advance, scan_doc, scan_docs, diff_deletes, snapshot_keys, finish_round, poll_once,
}
use lib_systemplane.Mongodb.Polling.Told.{Decoded, Told}
use lib_systemplane.Mongodb.Polling.Rounds.{Sorted, Polls, starts, read_is_announced}
use lib_systemplane.Mongodb.Polling.Deletes.{Gone, Marked, Buried, deletes_announced}
use lib_systemplane.Mongodb.Feed.{begin_disconnect, begin_resync, new_flags, Flags}
use lib_systemplane.Postgres.Backoff.{
  ReconnectBackoff, Happened, waited, ended, connection_ended, spent, next_delay, Backs, connected,
  dials, ends, Paced, reconnects-Paced,
}
use lib_systemplane.Tests.Fixture.{fee_key}

hash : String → ℕ
hash s = if s == "" then 0 else if s == "40" then 1 else 2

fee : String → ℕ → ℕ → Doc
fee value revision time = record {
  ns_key = fee_key;
  value = value;
  revision = revision;
  updated_at = time;
  deleted = value == "";
}

fee-Marked : (v : String) (revision time : ℕ) → Marked hash (fee v revision time)
unfolding fee hash
fee-Marked v revision time = ground arith

-- The silent first round trip, which read one document.
first_docs : List (Option Doc)
unfolding fee
first_docs = some (fee "40" 3 9) ∷ []

first-Sorted : Sorted (Marked hash) (new_poll_state 5) (documents first_docs true)
unfolding first_docs fee new_poll_state
first-Sorted = (
  (ground arith, tt),
  λ doc read. elim read [
    | inl same ↦ subst (Marked hash) same (fee-Marked "40" 3 9)
    | inr none_read ↦ absurd none_read
  ],
)

polled : PollState
unfolding hash first_docs
polled =
    (poll_once hash false (documents first_docs true) (some (some fee_key ∷ []))
      (new_poll_state 5)).state

polled_told : List Announcement
unfolding hash first_docs
polled_told =
    (poll_once hash false (documents first_docs true) (some (some fee_key ∷ []))
      (new_poll_state 5)).announced
    ++ []

polled_run : Polls (Marked hash) hash first_docs polled polled_told
unfolding polled polled_told hash
polled_run = starts 5 first_docs (some (some fee_key ∷ [])) first-Sorted

-- The same millisecond again: the document as it was, and then its tombstone.
second_docs : List (Option Doc)
unfolding fee
second_docs = some (fee "40" 3 9) ∷ none ∷ some (fee "" 4 9) ∷ []

second-Sorted : Sorted (Marked hash) polled (documents second_docs true)
unfolding hash fee first_docs polled second_docs poll_once scan_docs scan_doc is_echo emit_event
    boundary_dedup_hit advance bury finish_round snapshot_keys diff_deletes new_poll_state get put
    ns_key_beq
second-Sorted = (
  (omega arith, (omega arith, tt)),
  λ doc read. elim read [
    | inl same ↦ subst (Marked hash) same (fee-Marked "40" 3 9)
    | inr (inl same) ↦ subst (Marked hash) same (fee-Marked "" 4 9)
    | inr (inr none_read) ↦ absurd none_read
  ],
)

second_read : Decoded (fee "" 4 9) second_docs
unfolding second_docs
second_read = inr (inl refl)

read_is_announced_example :
    Told
      (Marked hash)
      hash
      first_docs
      (fee "" 4 9).ns_key
      (fee "" 4 9).updated_at
      (hash (fee "" 4 9).value)
      ((poll_once hash true (documents second_docs false) none polled).announced ++ polled_told)
read_is_announced_example =
    read_is_announced (Marked hash) hash polled_run second_docs false none (fee "" 4 9)
      second-Sorted second_read

not_first : polled.first ≡ false
unfolding hash fee first_docs polled second_docs poll_once scan_docs scan_doc is_echo emit_event
    boundary_dedup_hit advance bury finish_round snapshot_keys diff_deletes new_poll_state get put
    ns_key_beq
not_first = refl

fee_known : has fee_key polled.known ≡ true
unfolding hash fee first_docs polled second_docs poll_once scan_docs scan_doc is_echo emit_event
    boundary_dedup_hit advance bury finish_round snapshot_keys diff_deletes new_poll_state get put
    ns_key_beq
fee_known = refl

fee_lost : has fee_key (snapshot_keys []) ≡ false
unfolding snapshot_keys get
fee_lost = refl

deletes_announced_example :
    (Gone fee_key (poll_once hash true (documents second_docs true) (some []) polled).gone
      ⊎ ((doc : Doc) × Decoded doc second_docs
          × (doc.deleted ≡ true)
          × Buried hash first_docs fee_key doc.updated_at (
              (poll_once hash true (documents second_docs true) (some []) polled).announced
              ++ polled_told)))
    × ((poll_once hash true (documents second_docs true) (some []) polled).state.known
        ≡ snapshot_keys [])
deletes_announced_example =
    deletes_announced hash first_docs polled_run second_docs [] fee_key second-Sorted not_first
      fee_known fee_lost

up : Flags
up = (begin_resync new_flags).0

down : Flags
unfolding up
down = (begin_disconnect up).0

doubling : ℕ → ℕ → ℕ
doubling base n = base * 2 ^ n

clamped : ℕ → ℕ → ℕ
clamped draw d = if leb draw d then draw else d

clamped_bound : (draw d : ℕ) → clamped draw d ≤ d
unfolding clamped
clamped_bound draw d = ground arith

once : ReconnectBackoff
unfolding doubling clamped
once = (next_delay doubling clamped 100 (record { attempt = 0 })).1

-- A connection that was dropped at once between two attempts.
flapping :
    Backs doubling clamped (next_delay doubling clamped 900 (connection_ended false 10 once)).1 (
      waited (next_delay doubling clamped 900 (connection_ended false 10 once)).0
      ∷ ended false 10
      ∷ waited (next_delay doubling clamped 100 (record { attempt = 0 })).0
      ∷ [])
unfolding once
flapping = dials 900 (ends false 10 (dials 100 connected))

reconnects-Paced_example :
    let h : List Happened =
      waited (next_delay doubling clamped 900 (connection_ended false 10 once)).0
      ∷ ended false 10
      ∷ waited (next_delay doubling clamped 100 (record { attempt = 0 })).0
      ∷ [] in
    ((next_delay doubling clamped 900 (connection_ended false 10 once)).1.attempt ≡ spent h)
    × Paced doubling clamped h
reconnects-Paced_example = reconnects-Paced doubling clamped clamped_bound flapping
