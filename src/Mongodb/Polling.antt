-- ===== src/Mongodb/Polling.antt =====
-- One poll round trip: `pollOnce` of internal/mongodb/mongodb_changestream.go, with `boundaryDedupHit`
-- of mongodb_events.go. The cursor's documents and the live keys are what the driver answered;
-- `hash` stands for FNV-64a. Times are in milliseconds.
pub mod Told
pub mod Rounds
pub mod Deletes
use lib_systemplane.Prelude.{
  ℕ, String, Bool, true, false, not, ◌&&◌, ◌||◌, ◌==◌, nat_comparable, string_comparable, ltb,
  if◌then◌else◌, Option, none, some, List, [], ◌∷◌, ◌++◌, GoMap, get, put, has,
}
use lib_systemplane.Engine.State.{NsKey, ns_key_comparable, Op, upsert, delete}

-- `entryDoc`, decoded.
pub record Doc : Type 0 where
  pub ns_key : NsKey
  pub value : String
  pub revision : ℕ
  pub updated_at : ℕ
  pub deleted : Bool

-- The `store.Event` of a key, before the feed stamps its scope on it.
pub record KeyEvent : Type 0 where
  pub ns_key : NsKey
  pub op : Op
  pub revision : ℕ

-- What the incremental query came to: a failed `Find`, or the documents, of which one that does not
-- decode is `none`, and whether the cursor ended without an error.
pub data Cursor : Type 0 where
  find_failed : Cursor
  documents : List (Option Doc) → Bool → Cursor

pub record PollState : Type 0 where
  pub watermark : ℕ
  pub known : GoMap NsKey (Unit {0})
  pub seen_at_watermark : GoMap NsKey ℕ
  pub first : Bool

-- `newPollState`; `now` is in whole milliseconds.
unfoldable pub new_poll_state : ℕ → PollState
new_poll_state now = record { watermark = now; known = []; seen_at_watermark = []; first = true }

-- `boundaryDedupHit`.
unfoldable pub boundary_dedup_hit : GoMap NsKey ℕ → NsKey → Bool → ℕ → Bool
boundary_dedup_hit prev nk at_boundary value_hash =
    if not at_boundary
    then false
    else elim (get nk prev) [ none ↦ false | some existing ↦ existing == value_hash ]

-- The event of a document: a tombstone is a delete, without a revision.
unfoldable pub event_of : Doc → KeyEvent
event_of doc =
    if doc.deleted
    then record { ns_key = doc.ns_key; op = delete; revision = 0 }
    else record { ns_key = doc.ns_key; op = upsert; revision = doc.revision }

-- An event handed to `emit`, beside the document that it reports.
abbrev pub Announcement : Type 0
Announcement = Doc × KeyEvent

-- `emit(evt)`: a nil `emit` takes no event.
unfoldable pub emit_event : Bool → Doc → List Announcement → List Announcement
unfolding event_of
emit_event true doc announced = (doc, event_of doc) ∷ announced
emit_event false doc announced = announced

-- What the loop over the cursor carries: the next watermark and its seen keys, the tombstones read,
-- and the events that it emitted, newest first.
pub record Scan : Type 0 where
  pub watermark : ℕ
  pub seen : GoMap NsKey ℕ
  pub tombstoned : GoMap NsKey (Unit {0})
  pub emitted : List Announcement

-- The watermark moves with a newer document; one of its own millisecond is remembered.
unfoldable pub advance : Doc → ℕ → Scan → Scan
advance doc value_hash scan =
    if ltb scan.watermark doc.updated_at
    then record scan { watermark = doc.updated_at; seen = (doc.ns_key, value_hash) ∷ [] }
    else if doc.updated_at == scan.watermark
    then record scan { seen = put doc.ns_key value_hash scan.seen }
    else scan

unfoldable pub bury : Doc → GoMap NsKey (Unit {0}) → GoMap NsKey (Unit {0})
bury doc tombstoned = if doc.deleted then put doc.ns_key tt tombstoned else tombstoned

module _ (hash : String → ℕ) (emits : Bool) (st : PollState) where
  -- Is the document one that was emitted before, at the same millisecond?
  unfoldable pub is_echo : Doc → Bool
  unfolding boundary_dedup_hit
  is_echo doc =
      boundary_dedup_hit st.seen_at_watermark doc.ns_key (doc.updated_at == st.watermark)
        (hash doc.value)

  -- One document of the cursor.
  unfoldable pub scan_doc : Doc → Scan → Scan
  unfolding is_echo advance bury emit_event
  scan_doc doc scan =
      let scan' = record scan { tombstoned = bury doc scan.tombstoned } in
      if is_echo doc
      then record scan' { seen = put doc.ns_key (hash doc.value) scan'.seen }
      else advance doc (hash doc.value)
          (record scan' { emitted = emit_event emits doc scan'.emitted })

  unfoldable pub scan_docs : List (Option Doc) → Scan → Scan
  unfolding scan_doc
  scan_docs [] scan = scan
  scan_docs (none ∷ docs) scan = scan_docs docs scan
  scan_docs (some doc ∷ docs) scan = scan_docs docs (scan_doc doc scan)

  abbrev pub new_scan : Scan
  new_scan = record { watermark = st.watermark; seen = []; tombstoned = []; emitted = [] }

-- The deletes that leave nothing behind: known keys that are gone and were not announced.
unfoldable pub diff_deletes :
    GoMap NsKey (Unit {0}) → GoMap NsKey (Unit {0}) → GoMap NsKey (Unit {0}) → List KeyEvent
diff_deletes [] current tombstoned = []
diff_deletes ((nk, v) ∷ known) current tombstoned =
    let rest = diff_deletes known current tombstoned in
    if has nk current || has nk tombstoned
    then rest
    else record { ns_key = nk; op = delete; revision = 0 } ∷ rest

-- `snapshotKeys` over the rows that its query found: a row without a name is left out.
unfoldable pub snapshot_keys : List (Option NsKey) → GoMap NsKey (Unit {0})
snapshot_keys [] = []
snapshot_keys (none ∷ rows) = snapshot_keys rows
snapshot_keys (some nk ∷ rows) =
    let rest = snapshot_keys rows in
    if nk.namespace == "" || nk.key == "" then rest else put nk tt rest

-- What a round trip hands back: the state that the next one carries, the events of documents and
-- the deletes of the key diff that it emitted, and whether it failed.
pub record Round : Type 0 where
  pub state : PollState
  pub announced : List Announcement
  pub gone : List KeyEvent
  pub is_failed : Bool

unfoldable pub finish_round : Bool → PollState → Scan → Option (List (Option NsKey)) → Round
unfolding diff_deletes snapshot_keys
finish_round emits st scan none = record {
  state = record {
    watermark = scan.watermark;
    known = st.known;
    seen_at_watermark = scan.seen;
    first = false;
  };
  announced = scan.emitted;
  gone = [];
  is_failed = false;
}
finish_round emits st scan (some rows) = record {
  state = record {
    watermark = scan.watermark;
    known = snapshot_keys rows;
    seen_at_watermark = scan.seen;
    first = false;
  };
  announced = scan.emitted;
  gone =
      if not emits || st.first
      then []
      else diff_deletes st.known (snapshot_keys rows) scan.tombstoned;
  is_failed = false;
}

-- `pollOnce`, with an `emit` or with nil; the snapshot is none where its query failed.
unfoldable pub poll_once :
    (String → ℕ) → Bool → Cursor → Option (List (Option NsKey)) → PollState → Round
unfolding scan_docs finish_round
poll_once hash emits find_failed snapshot st = record {
  state = st;
  announced = [];
  gone = [];
  is_failed = true;
}
poll_once hash emits (documents docs ended) snapshot st =
    let scan = scan_docs hash emits st docs (new_scan hash emits st) in
    if ended
    then finish_round emits st scan snapshot
    else record { state = st; announced = scan.emitted; gone = []; is_failed = true }
