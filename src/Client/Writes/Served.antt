-- ===== src/Client/Writes/Served.antt =====
-- What a `Set` or a `Delete` that returns nil promises about the next `Get` of a single tenant.
use lib_systemplane.Prelude.{
  ℕ, String, ◌<◌, ◌≡◌, subst, refl, sym, ap, ◌∙◌, inl, inr, ◌⊎◌, arith, true, false, Option, none,
  some, List, Result, ok, err, get, Option-cases,
}
use lib_systemplane.Engine.State.{
  NsKey, ns_key_comparable, Scope, StoreEntry, Error, Published, ScopeState, closed,
  scope_not_tracked, KeyDef, unregistered_key, undecodable, validator_panicked, nil_registry,
  nil_backend, store_closed, context_done, first_reconcile_panicked, refused_by_validator,
  store_failed,
}
use lib_systemplane.Engine.Ingest.{run_validator, zero_scope, lookup_key}
use lib_systemplane.Engine.Core.{lookup, publish_entry, publish_delete, tracked_state}
use lib_systemplane.Engine.Core.Serves.{publish_serves_lookup}
use lib_systemplane.Engine.Core.Deletes.{delete_serves_default}
use lib_systemplane.Engine.Publish.Serves.{EntriesCoherent, DeepEqualSound}
use lib_systemplane.Client.State.{
  Host, ClientKey, Client, ClientError, env_of, scope_for, engine_def, registry_of,
}
use lib_systemplane.Client.Writes.{
  grade, set_begin, set_end, set, published, entry_for, delete_begin, delete,
}
use lib_systemplane.Client.Reads.{single_tenant_entry, get_entry, get_begin, get_end}

Result-cases : {E A : Type 0} (r : Result E A) → ((e : E) × (r ≡ err e)) ⊎ ((a : A) × (r ≡ ok a))
Result-cases (err e) = inl (e, refl)
Result-cases (ok a) = inr (a, refl)

some-none : {A : Type 0} {a : A} {o : Option A} → o ≡ some a → ¬ (o ≡ none)
some-none {A} {a} e f = let clash : some a ≡ none = sym e ∙ f in cc

module _ {V Ctx : Type 0} (host : Host V Ctx) (c : Client V Ctx) (ctx : Ctx) (nk : NsKey) where
  -- Whose write is graded: an open, started client knows the key, and the validator that the key
  -- was registered with accepts what the stored bytes decode to.
  abbrev pub Graded : List ℕ → Type 0
  Graded bytes =
      (def : ClientKey V Ctx) × (get nk c.registry ≡ some def)
      × ((v : V) → host.unmarshal bytes ≡ some v → run_validator def.validator ctx v ≡ none)

  grade_passes :
      (def : ClientKey V Ctx) (bytes : List ℕ) (v : V)
      → grade host ctx def bytes ≡ none
      → host.unmarshal bytes ≡ some v
      → run_validator def.validator ctx v ≡ none
  unfolding grade run_validator
  grade_passes def bytes v h u = elim (Option-cases def.validator) [
    | inl ungraded ↦ rw ungraded refl
    | inr (validate, there) ↦ elim (Option-cases (run_validator (some validate) ctx v)) [
      | inl passes ↦ rw there passes
      | inr (e, refused) ↦ absurd (ground arith)
    ]
  ]

  set_begin_ok :
      (value : V) (given : Ctx) (bytes : List ℕ)
      → set_begin host (some ctx) nk value c ≡ ok (given, bytes)
      → (c.closed ≡ false)
        × (c.started ≡ true)
        × (host.marshal value ≡ some bytes)
        × (given ≡ ctx)
        × Graded bytes
  unfolding set_begin
  set_begin_ok value given bytes h = elim (Option-cases (get nk c.registry)) [
    | inl unknown ↦ absurd (ground arith)
    | inr (def, known) ↦ elim (Option-cases (host.marshal value)) [
      | inl lost ↦ absurd (ground arith)
      | inr (raw, m) ↦
          let facts : (c.closed ≡ false)
              × (c.started ≡ true)
              × (raw ≡ bytes)
              × (given ≡ ctx)
              × (grade host ctx def raw ≡ none) =
            ground arith in
          let (up, running, same, mine, passed) = facts in
          (
            up,
            running,
            m ∙ ap some same,
            mine,
            (
              def,
              known,
              λ v u.
                  grade_passes def bytes v (subst (λ b. grade host ctx def b ≡ none) same passed) u,
            ),
          )
    ]
  ]

  published_none :
      (failure : Option Error)
      → c.multi_tenant ≡ false
      → published c failure ≡ none
      → failure ≡ none
  unfolding published
  published_none none single h = refl
  published_none (some closed) single h = cc
  published_none (some scope_not_tracked) single h = absurd (ground arith)
  published_none (some unregistered_key) single h = cc
  published_none (some undecodable) single h = cc
  published_none (some validator_panicked) single h = cc
  published_none (some nil_registry) single h = cc
  published_none (some nil_backend) single h = cc
  published_none (some store_closed) single h = cc
  published_none (some context_done) single h = cc
  published_none (some first_reconcile_panicked) single h = cc
  published_none (some (refused_by_validator e)) single h = cc
  published_none (some (store_failed e)) single h = cc

  scope_single : c.multi_tenant ≡ false → scope_for host c ctx ≡ zero_scope
  unfolding scope_for
  scope_single single = ground arith

  get_single :
      (stored : Result ClientError (Option StoreEntry)) (d : Client V Ctx) (def : ClientKey V Ctx)
      (p : Published V)
      → d.closed ≡ false
      → d.multi_tenant ≡ false
      → get nk d.registry ≡ some def
      → (lookup zero_scope nk d.engine).1 ≡ some p
      → get_entry host (some ctx) nk stored d ≡ ok (some p)
  unfolding get_entry get_begin get_end single_tenant_entry
  get_single stored d def p up single known hit = ground arith

  set_step :
      (value : V) (given : Ctx) (bytes : List ℕ) (now : ℕ) (actor : String)
      (stored : List ℕ → Result ClientError ℕ)
      → set_begin host (some ctx) nk value c ≡ ok (given, bytes)
      → set host (some ctx) nk value now actor stored c
        ≡ set_end host given nk bytes now actor (stored bytes) c
  unfolding set
  set_step value given bytes now actor stored begun = rw (set, begun) refl

  set_end_single :
      (bytes : List ℕ) (now : ℕ) (actor : String) (revision : ℕ)
      → c.multi_tenant ≡ false
      → set_end host ctx nk bytes now actor (ok revision) c ≡ (
        record c {
          engine =
              (publish_entry
                (env_of host c)
                ctx
                zero_scope
                (entry_for nk bytes now actor revision)
                c.engine).0;
        },
        published c
            (publish_entry
              (env_of host c)
              ctx
              zero_scope
              (entry_for nk bytes now actor revision)
              c.engine).1,
      )
  unfolding set_end
  set_end_single bytes now actor revision single =
      ap
        (λ scope.
          let (e', failure) =
            publish_entry (env_of host c) ctx scope (entry_for nk bytes now actor revision)
              c.engine in
          (record c { engine = e' }, published c failure))
        (scope_single single)

  -- A `Set` that returns nil: the store took the write, and the engine published it.
  set_ok :
      (value : V) (now : ℕ) (actor : String) (stored : List ℕ → Result ClientError ℕ)
      → c.multi_tenant ≡ false
      → (set host (some ctx) nk value now actor stored c).1 ≡ none
      → (bytes : List ℕ) × (revision : ℕ) × (c.closed ≡ false)
        × (host.marshal value ≡ some bytes)
        × (stored bytes ≡ ok revision)
        × Graded bytes
        × ((publish_entry
              (env_of host c)
              ctx
              zero_scope
              (entry_for nk bytes now actor revision)
              c.engine).1
            ≡ none)
        × ((set host (some ctx) nk value now actor stored c).0 ≡ record c {
          engine =
              (publish_entry
                (env_of host c)
                ctx
                zero_scope
                (entry_for nk bytes now actor revision)
                c.engine).0;
        })
  unfolding set set_end
  set_ok value now actor stored single h =
      elim (Result-cases (set_begin host (some ctx) nk value c)) [
        | inl (e, refused) ↦ absurd (ground arith)
        | inr ((given, bytes), begun) ↦
            let (up, _, m, mine, graded) = set_begin_ok value given bytes begun in
            elim (Result-cases (stored bytes)) [
              | inl (e, failed) ↦ absurd (ground arith)
              | inr (revision, took) ↦
                  let se = entry_for nk bytes now actor revision in
                  let r = publish_entry (env_of host c) ctx zero_scope se c.engine in
                  let done : set host (some ctx) nk value now actor stored c
                      ≡ (record c { engine = r.0 }, published c r.1) =
                    set_step value given bytes now actor stored begun
                    ∙ ap (λ g. set_end host g nk bytes now actor (stored bytes) c) mine
                    ∙ ap (λ r. set_end host ctx nk bytes now actor r c) took
                    ∙ set_end_single bytes now actor revision single in
                  (
                    bytes,
                    revision,
                    up,
                    m,
                    took,
                    graded,
                    published_none r.1 single (sym (ap (λ x. x.1) done) ∙ h),
                    ap (λ x. x.0) done,
                  )
            ]
      ]

  -- `Set` of a single tenant that returns nil: the value marshals to bytes that the store took as a
  -- revision, what they decode to passes the validator that the key was registered with, and the
  -- next `Get` of the key serves this write, or one of a newer revision; if `reflect.DeepEqual`
  -- equates equal values only and the cached values belong to their cached bytes.
  pub set_serves_get :
      (value : V) (now : ℕ) (actor : String) (stored : List ℕ → Result ClientError ℕ)
      (read : Result ClientError (Option StoreEntry))
      → DeepEqualSound (env_of host c)
      → ((sc : ScopeState V)
          → tracked_state zero_scope c.engine ≡ some sc
          → EntriesCoherent (env_of host c) sc)
      → c.multi_tenant ≡ false
      → (set host (some ctx) nk value now actor stored c).1 ≡ none
      → (bytes : List ℕ) × (revision : ℕ) × (p : Published V) × (host.marshal value ≡ some bytes)
        × (stored bytes ≡ ok revision)
        × Graded bytes
        × (get_entry host (some ctx) nk read (set host (some ctx) nk value now actor stored c).0
            ≡ ok (some p))
        × ((revision < p.revision)
            ⊎ ((p.revision ≡ revision) × (host.unmarshal bytes ≡ some p.value)))
  set_serves_get value now actor stored read sound coherent single h =
      let (bytes, revision, up, m, took, graded, quiet, done) =
        set_ok value now actor stored single h in
      let se = entry_for nk bytes now actor revision in
      let (p, hit, newer) =
        publish_serves_lookup (env_of host c) sound ctx zero_scope se c.engine coherent quiet in
      let d = record c { engine = (publish_entry (env_of host c) ctx zero_scope se c.engine).0 } in
      (
        bytes,
        revision,
        p,
        m,
        took,
        graded,
        ap (get_entry host (some ctx) nk read) done
            ∙ get_single read d graded.0 p up single graded.1 (unfold entry_for in hit),
        unfold entry_for env_of in newer,
      )

  -- `Delete` once the store has removed the row.
  delete_end : Scope → Client V Ctx × Option ClientError
  delete_end scope =
      let (e', failure) = publish_delete (env_of host c) scope nk c.engine in
      (record c { engine = e' }, published c failure)

  delete_begin_ok :
      (given : Ctx) → delete_begin (some ctx) nk c ≡ ok given → (c.closed ≡ false) × (given ≡ ctx)
  unfolding delete_begin
  delete_begin_ok given h = ground arith

  delete_step :
      (given : Ctx) (stored : Option ClientError)
      → delete_begin (some ctx) nk c ≡ ok given
      → stored ≡ none
      → delete host (some ctx) nk stored c ≡ delete_end (scope_for host c given)
  unfolding delete delete_end
  delete_step given stored begun gone = rw (delete, begun, gone) refl

  delete_fails :
      (given : Ctx) (stored : Option ClientError) (e : ClientError)
      → delete_begin (some ctx) nk c ≡ ok given
      → stored ≡ some e
      → (delete host (some ctx) nk stored c).1 ≡ some e
  unfolding delete
  delete_fails given stored e begun failed = rw (delete, begun, failed) refl

  delete_refused :
      (stored : Option ClientError) (e : ClientError)
      → delete_begin (some ctx) nk c ≡ err e
      → (delete host (some ctx) nk stored c).1 ≡ some e
  unfolding delete
  delete_refused stored e refused = rw (delete, refused) refl

  delete_ok :
      (stored : Option ClientError)
      → c.multi_tenant ≡ false
      → (delete host (some ctx) nk stored c).1 ≡ none
      → (c.closed ≡ false)
        × (stored ≡ none)
        × (delete host (some ctx) nk stored c ≡ delete_end zero_scope)
  delete_ok stored single h = elim (Result-cases (delete_begin (some ctx) nk c)) [
    | inl (e, refused) ↦ absurd (some-none (delete_refused stored e refused) h)
    | inr (given, begun) ↦
        let (up, mine) = delete_begin_ok given begun in
        elim (Option-cases stored) [
          | inr (e, failed) ↦ absurd (some-none (delete_fails given stored e begun failed) h)
          | inl gone ↦ (
            up,
            gone,
            delete_step given stored begun gone
                ∙ ap (λ g. delete_end (scope_for host c g)) mine
                ∙ ap delete_end (scope_single single),
          )
        ]
  ]

  engine_lookup :
      (def : KeyDef V Ctx)
      → lookup_key (env_of host c) nk ≡ some def
      → (known : ClientKey V Ctx) × (get nk c.registry ≡ some known) × (engine_def known ≡ def)
  unfolding env_of registry_of lookup_key
  engine_lookup def h = elim (Option-cases (get nk c.registry)) [
    | inl unknown ↦ absurd (ground arith)
    | inr (known, there) ↦ (known, there, ground arith)
  ]

  -- `Delete` of a single tenant that returns nil: the store removed the row, and the next `Get` of
  -- the key serves its registered default, at revision 0.
  pub delete_serves_get :
      (stored : Option ClientError) (read : Result ClientError (Option StoreEntry))
      → c.multi_tenant ≡ false
      → (delete host (some ctx) nk stored c).1 ≡ none
      → (def : ClientKey V Ctx) × (p : Published V) × (stored ≡ none)
        × (get nk c.registry ≡ some def)
        × (get_entry host (some ctx) nk read (delete host (some ctx) nk stored c).0 ≡ ok (some p))
        × (p.value ≡ def.default_value)
        × (p.revision ≡ 0)
  unfolding delete_end engine_def
  delete_serves_get stored read single h =
      let (up, gone, done) = delete_ok stored single h in
      let r = publish_delete (env_of host c) zero_scope nk c.engine in
      let quiet = published_none r.1 single (sym (ap (λ x. x.1) done) ∙ h) in
      let (kd, p, found, hit, same, first) =
        delete_serves_default (env_of host c) zero_scope nk c.engine quiet in
      let (def, known, defined) = engine_lookup kd found in
      (
        def,
        p,
        gone,
        known,
        ap (λ x. get_entry host (some ctx) nk read x.0) done
            ∙ get_single read (record c { engine = r.0 }) def p up single known hit,
        same ∙ sym (ap (λ k. k.default) defined),
        first,
      )
