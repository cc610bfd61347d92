-- ===== src/Mongodb/Polling/Told.antt =====
-- No document that the poller reads goes unannounced.
use lib_systemplane.Prelude.{
  if_true, if_false, if◌then◌else◌, Bool, false, ap, ℕ, ◌≤◌, ◌≡◌, refl, sym, ◌∙◌, subst, inl, inr,
  ◌⊎◌, arith, String, true, ◌==◌, nat_comparable, string_comparable, ltb, Option, none, some, List,
  [], ◌∷◌, ◌++◌, GoMap, get, put, get-put, Bool-cases, Option-cases, eq→≡,
}
use lib_systemplane.Engine.State.{NsKey, ns_key_comparable, upsert, delete}
use lib_systemplane.Mongodb.Polling.{
  Doc, KeyEvent, Announcement, event_of, emit_event, PollState, boundary_dedup_hit, Scan, advance,
  bury, is_echo, scan_doc, scan_docs,
}

-- The query's answer: the documents that decode ascend from the watermark in `updated_at`.
abbrev pub Ascending : ℕ → List (Option Doc) → Type 0
Ascending lo [] = Unit
Ascending lo (none ∷ docs) = Ascending lo docs
Ascending lo (some doc ∷ docs) = (lo ≤ doc.updated_at) × Ascending doc.updated_at docs

abbrev pub Decoded : Doc → List (Option Doc) → Type 0
Decoded doc [] = ⊥
Decoded doc (none ∷ docs) = Decoded doc docs
Decoded doc (some other ∷ docs) = (other ≡ doc) ⊎ Decoded doc docs

abbrev pub Announced : Announcement → List Announcement → Type 0
Announced a [] = ⊥
Announced a (b ∷ l) = (b ≡ a) ⊎ Announced a l

-- What subscribers are owed of a document: a delete without a revision for a tombstone, and an
-- upsert at its revision for any other.
abbrev pub report : Doc → KeyEvent
report doc = record {
  ns_key = doc.ns_key;
  op = if doc.deleted then delete else upsert;
  revision = if doc.deleted then 0 else doc.revision;
}

event-report : (doc : Doc) → event_of doc ≡ report doc
unfolding event_of
event-report doc = ground arith

module _ (M : Doc → Type 0) (hash : String → ℕ) (silent : List (Option Doc)) where
  -- A document of that key, millisecond and value hash was reported, or the silent first round
  -- trip read it.
  abbrev pub Told : NsKey → ℕ → ℕ → List Announcement → Type 0
  Told nk t h l =
      (doc : Doc) × M doc
      × (doc.ns_key ≡ nk)
      × (doc.updated_at ≡ t)
      × (hash doc.value ≡ h)
      × (Announced (doc, report doc) l ⊎ Decoded doc silent)

  Told-one :
      (nk : NsKey) (t h : ℕ) (a : Announcement) (l : List Announcement)
      → Told nk t h l
      → Told nk t h (a ∷ l)
  Told-one nk t h a l (doc, m, k, u, v, inl q) = (doc, m, k, u, v, inl (inr q))
  Told-one nk t h a l (doc, m, k, u, v, inr q) = (doc, m, k, u, v, inr q)

  -- What makes a document that the cursor holds owed and told: it is emitted, or it is one of the
  -- silent round trip's own.
  abbrev pub Covered : Bool → Doc → Type 0
  Covered emits doc = M doc × ((emits ≡ true) ⊎ Decoded doc silent)

  Told-new :
      (emits : Bool) (doc : Doc) (l told : List Announcement)
      → Covered emits doc
      → Told doc.ns_key doc.updated_at (hash doc.value) (emit_event emits doc l ++ told)
  unfolding emit_event
  Told-new true doc l told (m, q) =
      (doc, m, refl, refl, refl, inl (inl (ap (λ e. (doc, e)) (event-report doc))))
  Told-new false doc l told (m, inl q) = absurd (let clash : false ≡ true = q in cc)
  Told-new false doc l told (m, inr q) = (doc, m, refl, refl, refl, inr q)

  Told-emit :
      (emits : Bool) (doc : Doc) (l told : List Announcement) (nk : NsKey) (t h : ℕ)
      → Told nk t h (l ++ told)
      → Told nk t h (emit_event emits doc l ++ told)
  unfolding emit_event
  Told-emit true doc l told nk t h q = Told-one nk t h (doc, event_of doc) (l ++ told) q
  Told-emit false doc l told nk t h q = q

  -- What is remembered of a millisecond was told.
  abbrev pub SeenTold : ℕ → GoMap NsKey ℕ → List Announcement → Type 0
  SeenTold watermark seen l = (nk : NsKey) (h : ℕ) → get nk seen ≡ some h → Told nk watermark h l

module _ (M : Doc → Type 0) (hash : String → ℕ) (silent : List (Option Doc)) (emits : Bool)
    (st : PollState) (told : List Announcement) where
  pub Told-later :
      (nk : NsKey) (t h : ℕ) (l : List Announcement)
      → Told M hash silent nk t h told
      → Told M hash silent nk t h (l ++ told)
  Told-later nk t h [] q = q
  Told-later nk t h (a ∷ l) q = Told-one M hash silent nk t h a (l ++ told) (Told-later nk t h l q)

  seen-put :
      (nk : NsKey) (h watermark : ℕ) (seen : GoMap NsKey ℕ) (l : List Announcement)
      → SeenTold M hash silent watermark seen l
      → Told M hash silent nk watermark h l
      → SeenTold M hash silent watermark (put nk h seen) l
  seen-put nk h watermark seen l old new j g held = elim (Bool-cases (nk == j)) [
    | inl same ↦
        let value : h ≡ g = ground (arith, get-put nk j h seen) in
        subst (λ k. Told M hash silent k watermark g l) (eq→≡ nk j same)
          (subst (λ v. Told M hash silent nk watermark v l) value new)
    | inr differ ↦ old j g (ground (arith, get-put nk j h seen))
  ]

  abbrev pub Scanned : Scan → Type 0
  Scanned scan =
      (st.watermark ≤ scan.watermark)
      × SeenTold M hash silent scan.watermark scan.seen (scan.emitted ++ told)

  -- The scan after a document: it stands at its millisecond and has it told, and forgets nothing.
  abbrev After : Doc → Scan → Scan → Type 0
  After doc scan now =
      Scanned now
      × (now.watermark ≡ doc.updated_at)
      × Told M hash silent doc.ns_key doc.updated_at (hash doc.value) (now.emitted ++ told)
      × ((nk : NsKey) (t h : ℕ)
          → Told M hash silent nk t h (scan.emitted ++ told)
          → Told M hash silent nk t h (now.emitted ++ told))

  echo-Told :
      (doc : Doc)
      → SeenTold M hash silent st.watermark st.seen_at_watermark told
      → is_echo hash emits st doc ≡ true
      → (doc.updated_at ≡ st.watermark)
        × Told M hash silent doc.ns_key st.watermark (hash doc.value) told
  unfolding is_echo boundary_dedup_hit
  echo-Told doc base e = elim (Option-cases (get doc.ns_key st.seen_at_watermark)) [
    | inl unseen ↦ absurd (ground arith)
    | inr (h, there) ↦
        let facts : (doc.updated_at ≡ st.watermark) × (h ≡ hash doc.value) = ground arith in
        (
          facts.0,
          subst (λ v. Told M hash silent doc.ns_key st.watermark v told) facts.1
              (base doc.ns_key h there),
        )
  ]

  advance-After :
      (doc : Doc) (scan : Scan)
      → Covered M hash silent emits doc
      → Scanned scan
      → scan.watermark ≤ doc.updated_at
      → After doc scan (
          advance doc (hash doc.value) (record scan {
            tombstoned = bury doc scan.tombstoned;
            emitted = emit_event emits doc scan.emitted;
          }))
  unfolding advance put get
  advance-After doc scan covered (above, seen) later =
      let h = hash doc.value in
      let out = emit_event emits doc scan.emitted ++ told in
      let new = Told-new M hash silent emits doc scan.emitted told covered in
      let keeps = Told-emit M hash silent emits doc scan.emitted told in
      elim (Bool-cases (ltb scan.watermark doc.updated_at)) [
        | inl newer ↦ subst (After doc scan) (sym (if_true _ newer)) (
          (omega arith, seen-put doc.ns_key h doc.updated_at [] out (λ j g x. cc) new),
          refl,
          new,
          keeps,
        )
        | inr older ↦
            let same : doc.updated_at ≡ scan.watermark = ground arith in
            let equal : (doc.updated_at == scan.watermark) ≡ true = ground arith in
            subst (After doc scan) (sym (if_false _ older ∙ if_true _ equal)) (
              (
                above,
                seen-put doc.ns_key h scan.watermark scan.seen out
                    (λ j g x. keeps j scan.watermark g (seen j g x))
                    (subst (λ t. Told M hash silent doc.ns_key t h out) same new),
              ),
              sym same,
              new,
              keeps,
            )
      ]

  doc-After :
      (doc : Doc) (scan : Scan)
      → Covered M hash silent emits doc
      → SeenTold M hash silent st.watermark st.seen_at_watermark told
      → Scanned scan
      → scan.watermark ≤ doc.updated_at
      → After doc scan (scan_doc hash emits st doc scan)
  unfolding scan_doc
  doc-After doc scan covered base (above, seen) later =
      elim (Bool-cases (is_echo hash emits st doc)) [
        | inl echo ↦
            let (here, before) = echo-Told doc base echo in
            let same : scan.watermark ≡ doc.updated_at = omega arith in
            let now : Told M hash silent doc.ns_key doc.updated_at (hash doc.value)
                (scan.emitted ++ told) =
              Told-later doc.ns_key doc.updated_at (hash doc.value) scan.emitted (
                subst (λ t. Told M hash silent doc.ns_key t (hash doc.value) told) (sym here)
                  before) in
            subst (After doc scan) (sym (if_true _ echo)) (
              (
                above,
                seen-put doc.ns_key (hash doc.value) scan.watermark scan.seen (scan.emitted ++ told)
                    seen
                    (subst
                      (λ t. Told M hash silent doc.ns_key t (hash doc.value) (scan.emitted ++ told))
                      (sym same) now),
              ),
              same,
              now,
              λ nk t g q. q,
            )
        | inr fresh ↦
            subst (After doc scan) (sym (if_false _ fresh))
              (advance-After doc scan covered (above, seen) later)
      ]

  -- The whole cursor.
  abbrev pub Swept : List (Option Doc) → Scan → Scan → Type 0
  Swept docs scan now =
      Scanned now
      × (scan.watermark ≤ now.watermark)
      × ((doc : Doc)
          → Decoded doc docs
          → (doc.updated_at ≤ now.watermark)
            × Told M hash silent doc.ns_key doc.updated_at (hash doc.value) (now.emitted ++ told))
      × ((nk : NsKey) (t h : ℕ)
          → Told M hash silent nk t h (scan.emitted ++ told)
          → Told M hash silent nk t h (now.emitted ++ told))

  pub docs-Swept :
      (docs : List (Option Doc)) (scan : Scan)
      → ((doc : Doc) → Decoded doc docs → Covered M hash silent emits doc)
      → SeenTold M hash silent st.watermark st.seen_at_watermark told
      → Scanned scan
      → Ascending scan.watermark docs
      → Swept docs scan (scan_docs hash emits st docs scan)
  unfolding scan_docs
  docs-Swept [] scan cov base s asc =
      (s, omega arith, λ doc none_read. absurd none_read, λ nk t h q. q)
  docs-Swept (none ∷ docs) scan cov base s asc = docs-Swept docs scan cov base s asc
  docs-Swept (some d ∷ docs) scan cov base s (later, asc) =
      let (good, stands, has_it, kept) = doc-After d scan (cov d (inl refl)) base s later in
      let now = scan_doc hash emits st d scan in
      let (swept, up, all, more) =
        docs-Swept docs now (λ doc read. cov doc (inr read)) base good
          (subst (λ w. Ascending w docs) (sym stands) asc) in
      (
        swept,
        omega arith,
        λ doc read. elim read [
          | inl same ↦
              subst
                (λ x.
                  (x.updated_at ≤ (scan_docs hash emits st docs now).watermark)
                  × Told M hash silent x.ns_key x.updated_at (hash x.value)
                      ((scan_docs hash emits st docs now).emitted ++ told))
                same (omega arith, more d.ns_key d.updated_at (hash d.value) has_it)
          | inr rest ↦ all doc rest
        ],
        λ nk t h q. more nk t h (kept nk t h q),
      )
