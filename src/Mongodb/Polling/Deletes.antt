-- ===== src/Mongodb/Polling/Deletes.antt =====
-- The deletes of a round trip.
use lib_systemplane.Prelude.{
  ℕ, ◌≡◌, refl, Bool, sym, ap, ◌∙◌, subst, inl, inr, ◌⊎◌, arith, String, true, false, ◌||◌, ◌==◌,
  nat_comparable, string_comparable, if_true, if_false, Option, none, some, List, [], ◌∷◌, ◌++◌,
  GoMap, get, has, get-put, Bool-cases, eq→≡, is_some,
}
use lib_systemplane.Engine.State.{NsKey, ns_key_comparable, delete}
use lib_systemplane.Mongodb.Polling.{
  Doc, KeyEvent, Announcement, emit_event, documents, PollState, Scan, bury, is_echo, advance,
  scan_doc, scan_docs, new_scan, diff_deletes, snapshot_keys, finish_round, poll_once,
}
use lib_systemplane.Mongodb.Polling.Told.{Decoded, Announced, report, Told}
use lib_systemplane.Mongodb.Polling.Rounds.{Sorted, Polls, read_is_announced}

-- A delete of the key, without a revision, is among the events.
abbrev pub Gone : NsKey → List KeyEvent → Type 0
Gone nk [] = ⊥
Gone nk (evt ∷ evts) = ((evt.ns_key ≡ nk) × (evt.op ≡ delete) × (evt.revision ≡ 0)) ⊎ Gone nk evts

abbrev pub Tombstone : NsKey → List (Option Doc) → Type 0
Tombstone nk docs = (doc : Doc) × Decoded doc docs × (doc.ns_key ≡ nk) × (doc.deleted ≡ true)

has_head :
    {A : Type 0} (nk j : NsKey) (v : A) (m : GoMap NsKey A)
    → has nk ((j, v) ∷ m) ≡ true
    → (j ≡ nk) ⊎ (has nk m ≡ true)
unfolding get
has_head nk j v m h = elim (Bool-cases (j == nk)) [
  | inl same ↦ inl (eq→≡ j nk same)
  | inr differ ↦ inr (ground arith)
]

diff-Gone :
    (nk : NsKey) (known current tombstoned : GoMap NsKey (Unit {0}))
    → has nk known ≡ true
    → has nk current ≡ false
    → has nk tombstoned ≡ false
    → Gone nk (diff_deletes known current tombstoned)
unfolding diff_deletes get
diff-Gone nk [] current tombstoned h gone silent = absurd (let clash : false ≡ true = h in cc)
diff-Gone nk ((j, v) ∷ known) current tombstoned h gone silent =
    elim (Bool-cases (has j current || has j tombstoned)) [
      | inl skipped ↦ elim (has_head nk j v known h) [
        | inl same ↦ absurd (
            let facts : (has j current ≡ false) × (has j tombstoned ≡ false) =
              (ap (λ k. has k current) same ∙ gone, ap (λ k. has k tombstoned) same ∙ silent) in
            ground (arith, facts.0, facts.1))
        | inr later ↦
            subst (Gone nk) (sym (if_true _ skipped))
              (diff-Gone nk known current tombstoned later gone silent)
      ]
      | inr announced ↦
          subst (Gone nk) (sym (if_false _ announced)) (elim (has_head nk j v known h) [
            | inl same ↦ inl (same, refl, refl)
            | inr later ↦ inr (diff-Gone nk known current tombstoned later gone silent)
          ])
    ]

module _ (hash : String → ℕ) (emits : Bool) (st : PollState) where
  tombstoned-advance :
      (doc : Doc) (h : ℕ) (scan : Scan) → (advance doc h scan).tombstoned ≡ scan.tombstoned
  unfolding advance
  tombstoned-advance doc h scan = ground arith

  tombstoned-scan_doc :
      (doc : Doc) (scan : Scan)
      → (scan_doc hash emits st doc scan).tombstoned ≡ bury doc scan.tombstoned
  unfolding scan_doc
  tombstoned-scan_doc doc scan = elim (Bool-cases (is_echo hash emits st doc)) [
    | inl echo ↦ ap {A = Scan} (λ s. s.tombstoned) (if_true _ echo)
    | inr fresh ↦
        ap {A = Scan} (λ s. s.tombstoned) (if_false _ fresh)
        ∙ tombstoned-advance doc (hash doc.value) (record scan {
          tombstoned = bury doc scan.tombstoned;
          emitted = emit_event emits doc scan.emitted;
        })
  ]

  bury_new :
      (nk : NsKey) (doc : Doc) (m : GoMap NsKey (Unit {0}))
      → has nk (bury doc m) ≡ true
      → (has nk m ≡ true) ⊎ ((doc.ns_key ≡ nk) × (doc.deleted ≡ true))
  unfolding bury
  bury_new nk doc m h = elim (Bool-cases doc.deleted) [
    | inr alive ↦ inl (ap (has nk) (sym (if_false _ alive)) ∙ h)
    | inl dead ↦ elim (Bool-cases (doc.ns_key == nk)) [
      | inl same ↦ inr (eq→≡ doc.ns_key nk same, dead)
      | inr differ ↦ inl (
          ap is_some (sym (get-put doc.ns_key nk tt m ∙ if_false _ differ))
          ∙ ap (has nk) (sym (if_true _ dead))
          ∙ h)
    ]
  ]

  Tombstone-read :
      (nk : NsKey) (docs : List (Option Doc)) (scan : Scan)
      → has nk (scan_docs hash emits st docs scan).tombstoned ≡ true
      → (has nk scan.tombstoned ≡ true) ⊎ Tombstone nk docs
  unfolding scan_docs
  Tombstone-read nk [] scan h = inl h
  Tombstone-read nk (none ∷ docs) scan h = Tombstone-read nk docs scan h
  Tombstone-read nk (some d ∷ docs) scan h =
      elim (Tombstone-read nk docs (scan_doc hash emits st d scan) h) [
        | inr (doc, read, same, dead) ↦ inr (doc, inr read, same, dead)
        | inl before ↦
            elim (bury_new nk d scan.tombstoned
              (ap (has nk) (sym (tombstoned-scan_doc d scan)) ∙ before)) [
                | inl older ↦ inl older
                | inr (same, dead) ↦ inr (d, inl refl, same, dead)
              ]
      ]

-- The stored documents' own marking: a tombstone holds no value, and no value of a live document
-- has the hash of that.
abbrev pub Marked : (String → ℕ) → Doc → Type 0
Marked hash doc = doc.deleted ≡ (hash doc.value == hash "")

-- The event of a delete.
abbrev pub delete_event : NsKey → KeyEvent
delete_event nk = record { ns_key = nk; op = delete; revision = 0 }

dead_report : (doc : Doc) → doc.deleted ≡ true → report doc ≡ delete_event doc.ns_key
dead_report doc dead = ground arith

module _ (hash : String → ℕ) (silent : List (Option Doc)) where
  -- A tombstone of that key and millisecond was reported as a delete, or the silent first round
  -- trip read it.
  abbrev pub Buried : NsKey → ℕ → List Announcement → Type 0
  Buried nk t l =
      (doc : Doc) × (doc.ns_key ≡ nk)
      × (doc.updated_at ≡ t)
      × (doc.deleted ≡ true)
      × (Announced (doc, delete_event nk) l ⊎ Decoded doc silent)

  Told-Buried :
      (doc : Doc) (l : List Announcement)
      → Marked hash doc
      → doc.deleted ≡ true
      → Told (Marked hash) hash silent doc.ns_key doc.updated_at (hash doc.value) l
      → Buried doc.ns_key doc.updated_at l
  Told-Buried doc l marked dead (e, m, same, time, value, how) =
      let here : e.deleted ≡ true = m ∙ ap (λ v. v == hash "") value ∙ sym marked ∙ dead in
      (
        e,
        same,
        time,
        here,
        elim how [
          | inl told ↦
              inl (
                subst (λ evt. Announced (e, evt) l) (dead_report e here ∙ ap delete_event same)
                  told)
          | inr read ↦ inr read
        ],
      )

  -- A key that the last round trip saw and whose document is gone is reported as a delete: from the
  -- diff of the key sets, or as its tombstone, which this round trip read and which it or an earlier
  -- one reported as a delete without a revision, unless the silent first round trip read it, which
  -- the resync after it covers. It supposes that a document's hash tells a tombstone from a value, and
  -- that the query answers in the order of `updated_at`, from the watermark on.
  -- The key set that the next round trip compares with is this one's.
  pub deletes_announced :
      {st : PollState} {told : List Announcement}
      → Polls (Marked hash) hash silent st told
      → (docs : List (Option Doc)) (rows : List (Option NsKey)) (nk : NsKey)
      → Sorted (Marked hash) st (documents docs true)
      → st.first ≡ false
      → has nk st.known ≡ true
      → has nk (snapshot_keys rows) ≡ false
      → (Gone nk (poll_once hash true (documents docs true) (some rows) st).gone
          ⊎ ((doc : Doc) × Decoded doc docs
              × (doc.deleted ≡ true)
              × Buried nk doc.updated_at
                  ((poll_once hash true (documents docs true) (some rows) st).announced ++ told)))
        × ((poll_once hash true (documents docs true) (some rows) st).state.known
            ≡ snapshot_keys rows)
  unfolding poll_once finish_round get
  deletes_announced {st} {told} r docs rows nk (asc, marked) running known gone =
      let tombs = (scan_docs hash true st docs (new_scan hash true st)).tombstoned in
      let out = (poll_once hash true (documents docs true) (some rows) st).announced ++ told in
      (
        elim (Bool-cases (has nk tombs)) [
          | inr unseen ↦ inl (
              subst (Gone nk) (sym (if_false _ running))
                (diff-Gone nk st.known (snapshot_keys rows) tombs known gone unseen))
          | inl buried ↦ elim (Tombstone-read hash true st nk docs (new_scan hash true st) buried) [
            | inl never ↦ absurd (let clash : false ≡ true = never in cc)
            | inr (doc, read, same, dead) ↦
                let told_so =
                  read_is_announced (Marked hash) hash r docs true (some rows) doc (asc, marked)
                    read in
                inr (
                  doc,
                  read,
                  dead,
                  subst (λ k. Buried k doc.updated_at out) same
                      (Told-Buried doc out (marked doc read) dead told_so),
                )
          ]
        ],
        refl,
      )
