-- ===== src/Mongodb/Polling/Rounds.antt =====
-- The polling loop's successive round trips.
use lib_systemplane.Prelude.{
  ℕ, ◌≡◌, refl, sym, ap, ◌∙◌, subst, inl, inr, arith, String, Bool, true, false, nat_comparable,
  string_comparable, Option, none, some, List, [], ◌++◌, get,
}
use lib_systemplane.Engine.State.{NsKey, ns_key_comparable}
use lib_systemplane.Mongodb.Polling.{
  Doc, Announcement, Cursor, find_failed, documents, PollState, new_poll_state, Scan, scan_docs,
  new_scan, finish_round, poll_once,
}
use lib_systemplane.Mongodb.Polling.Told.{
  Ascending, Decoded, Told, SeenTold, Told-later, Covered, docs-Swept, Swept,
}

-- The query sorts by `updated_at` and asks for no document below the watermark, and what it finds
-- is as `M` says.
abbrev pub Sorted : (Doc → Type 0) → PollState → Cursor → Type 0
Sorted M st find_failed = Unit
Sorted M st (documents docs ended) =
    Ascending st.watermark docs × ((doc : Doc) → Decoded doc docs → M doc)

module _ (hash : String → ℕ) (emits : Bool) (st : PollState) where
  finished_seen :
      (scan : Scan) (snapshot : Option (List (Option NsKey)))
      → ((finish_round emits st scan snapshot).state.watermark ≡ scan.watermark)
        × ((finish_round emits st scan snapshot).state.seen_at_watermark ≡ scan.seen)
        × ((finish_round emits st scan snapshot).announced ≡ scan.emitted)
  unfolding finish_round
  finished_seen scan none = (refl, refl, refl)
  finished_seen scan (some rows) = (refl, refl, refl)

  -- The round's documents are announced whether the cursor ended well or not.
  announced_scan :
      (docs : List (Option Doc)) (ended : Bool) (snapshot : Option (List (Option NsKey)))
      → (poll_once hash emits (documents docs ended) snapshot st).announced
        ≡ (scan_docs hash emits st docs (new_scan hash emits st)).emitted
  unfolding poll_once
  announced_scan docs true snapshot =
      (finished_seen (scan_docs hash emits st docs (new_scan hash emits st)) snapshot).2
  announced_scan docs false snapshot = refl

module _ (M : Doc → Type 0) (hash : String → ℕ) where
  -- A poller's state after some round trips, the documents of the first, and what the later ones
  -- emitted, newest first. The first is `startPolling`'s: it has no `emit`, and it does not fail.
  pub data Polls : List (Option Doc) → PollState → List Announcement → Type 0 where
    starts :
        (now : ℕ) (docs : List (Option Doc)) (snapshot : Option (List (Option NsKey)))
        → Sorted M (new_poll_state now) (documents docs true)
        → Polls docs
            (poll_once hash false (documents docs true) snapshot (new_poll_state now)).state
            ((poll_once hash false (documents docs true) snapshot (new_poll_state now)).announced
              ++ [])
    polls :
        {silent : List (Option Doc)} {st : PollState} {told : List Announcement}
        → Polls silent st told
        → (cursor : Cursor) (snapshot : Option (List (Option NsKey))) → Sorted M st cursor
        → Polls silent
            (poll_once hash true cursor snapshot st).state
            ((poll_once hash true cursor snapshot st).announced ++ told)

module _ (M : Doc → Type 0) (hash : String → ℕ) (silent : List (Option Doc)) (emits : Bool)
    (st : PollState) (told : List Announcement) where
  Swept-round :
      (docs : List (Option Doc))
      → SeenTold M hash silent st.watermark st.seen_at_watermark told
      → Ascending st.watermark docs
      → ((doc : Doc) → Decoded doc docs → Covered M hash silent emits doc)
      → Swept M hash silent emits st told docs
          (new_scan hash emits st)
          (scan_docs hash emits st docs (new_scan hash emits st))
  unfolding get
  Swept-round docs base asc covered =
      docs-Swept M hash silent emits st told docs (new_scan hash emits st) covered base
        (omega arith, λ j h x. cc) asc

  round-SeenTold :
      (docs : List (Option Doc)) (snapshot : Option (List (Option NsKey)))
      → SeenTold M hash silent st.watermark st.seen_at_watermark told
      → Ascending st.watermark docs
      → ((doc : Doc) → Decoded doc docs → Covered M hash silent emits doc)
      → SeenTold M hash silent
          (poll_once hash emits (documents docs true) snapshot st).state.watermark
          (poll_once hash emits (documents docs true) snapshot st).state.seen_at_watermark
          ((poll_once hash emits (documents docs true) snapshot st).announced ++ told)
  unfolding poll_once
  round-SeenTold docs snapshot base asc covered =
      let scan = scan_docs hash emits st docs (new_scan hash emits st) in
      let (mark, seen, out) = finished_seen hash emits st scan snapshot in
      let (_, good) = (Swept-round docs base asc covered).0 in
      λ j h x.
        subst
          (λ w. Told M hash silent j w h ((finish_round emits st scan snapshot).announced ++ told))
          (sym mark)
          (subst (λ l. Told M hash silent j scan.watermark h (l ++ told)) (sym out)
            (good j h (ap (get j) (sym seen) ∙ x)))

module _ (M : Doc → Type 0) (hash : String → ℕ) where
  Polls-SeenTold :
      {silent : List (Option Doc)} {st : PollState} {told : List Announcement}
      → Polls M hash silent st told
      → SeenTold M hash silent st.watermark st.seen_at_watermark told
  unfolding poll_once new_poll_state get
  Polls-SeenTold (starts now docs snapshot (asc, known)) =
      round-SeenTold M hash docs false (new_poll_state now) [] docs snapshot (λ j h x. cc) asc
        (λ doc read. (known doc read, inr read))
  Polls-SeenTold (polls {silent} {st} {told} r find_failed snapshot asc) = Polls-SeenTold r
  Polls-SeenTold (polls {silent} {st} {told} r (documents docs false) snapshot asc) = λ j h x.
      Told-later M hash silent true st told j st.watermark h
        (scan_docs hash true st docs (new_scan hash true st)).emitted (Polls-SeenTold r j h x)
  Polls-SeenTold (polls {silent} {st} {told} r (documents docs true) snapshot (asc, known)) =
      round-SeenTold M hash silent true st told docs snapshot (Polls-SeenTold r) asc
        (λ doc read. (known doc read, inl refl))

  -- Every document that a round trip of the loop reads and decodes is reported as what it is, a
  -- delete for a tombstone and an upsert at its revision for any other: itself by this round trip,
  -- or a document of the same key, millisecond and value hash by an earlier one, or such a document
  -- was read by the silent first round trip, which the resync after it covers. So it is for a round
  -- trip that fails on the way too. The query answers in the order of `updated_at`, from the
  -- watermark on.
  pub read_is_announced :
      {silent : List (Option Doc)} {st : PollState} {told : List Announcement}
      → Polls M hash silent st told
      → (docs : List (Option Doc)) (ended : Bool) (snapshot : Option (List (Option NsKey)))
        (doc : Doc)
      → Sorted M st (documents docs ended)
      → Decoded doc docs
      → Told M hash silent doc.ns_key doc.updated_at
          (hash doc.value)
          ((poll_once hash true (documents docs ended) snapshot st).announced ++ told)
  read_is_announced {silent} {st} {told} r docs ended snapshot doc (asc, known) read =
      let (_, _, all, _) =
        Swept-round M hash silent true st told docs (Polls-SeenTold r) asc
          (λ d x. (known d x, inl refl)) in
      subst (λ l. Told M hash silent doc.ns_key doc.updated_at (hash doc.value) (l ++ told))
        (sym (announced_scan hash true st docs ended snapshot)) (all doc read).1
