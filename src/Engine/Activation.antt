-- ===== src/Engine/Activation.antt =====
-- The activation of one tenant scope: internal/engine/activate.go. The maps `activating`, `blocked`
-- and `failedAt` are read at one scope only, so its entries are the fields here, beside whether
-- `e.scopes` holds the scope. A goroutine of `launchActivation` is a program counter: `phase` is the
-- one launched last, and `earlier` are those that had not ended when a later one was launched. A
-- call is atomic, as `activationsMu` makes it, and the goroutines' sections interleave with the
-- calls freely. `reconciled` is the outcome of the first reconcile, once it is done.
pub mod Blocked
pub mod Ends
use lib_systemplane.Prelude.{
  ℕ, zero, suc, ◌+◌, ◌-◌, ◌%◌, ◌^◌, ◌≤◌, ◌<◌, ◌≡◌, refl, sym, ap, ◌∙◌, subst, fun_ext, ◌≢◌, ◌⊎◌,
  inl, inr, ◌↔◌, ◌==◌, nat_comparable, string_comparable, if◌then◌else◌, Bool, true, false, not,
  ◌&&◌, ◌||◌, Option, none, some, GoMap, get, put, del, has, get-put, get-del, get-put_self,
  get-del_self, arith, Result, ok, err, is_empty, bytes_equal, bytes_equal→≡, List, [], ◌∷◌, ◌++◌,
  eq_refl, eq→≡, Option-cases, Bool-cases, map_option, is_some, get_or, inc64, ltb, leb, All,
  length, length-append, map, String,
}

-- Where the scope's activation goroutine stands. `releasing up` is at `releaseActivation`,
-- `deciding allowed` has read `blocked` after a drop.
pub data Phase : Type 0 where
  idle bringing waiting dropping reading : Phase
  launched releasing deciding : Bool → Phase

pub record Slot : Type 0 where
  pub activating : Option Bool
  pub blocked : Bool
  pub failed_at : Option ℕ
  pub tracked : Bool
  pub closed : Bool
  pub workers_closed : Bool
  pub phase : Phase
  pub earlier : List Phase
  pub reconciled : Option Bool

abbrev pub is_idle : Phase → Bool
is_idle idle = true
is_idle _ = false

-- `launchActivation`: refused once the engine has stopped taking work.
unfoldable pub launch : Bool → Slot → Slot × Bool
launch rebuild s = if s.workers_closed then (s, false) else (
  record s {
    activating = some rebuild;
    phase = launched rebuild;
    earlier = if is_idle s.phase then s.earlier else s.phase ∷ s.earlier;
  },
  true,
)

-- `failedAt[scope]` is younger than the retry delay.
unfoldable pub failed_lately : ℕ → ℕ → Option ℕ → Bool
failed_lately delay now none = false
failed_lately delay now (some failed) = ltb (now - failed) delay

-- `Activate`; the second result is `started`.
unfoldable pub activate : ℕ → ℕ → Slot → Slot × Bool
unfolding launch failed_lately
activate delay now s =
    if s.blocked || is_some s.activating || s.closed || s.tracked
    then (s, false)
    else if failed_lately delay now s.failed_at
    then (s, false)
    else launch false s

unfoldable pub supersede : Slot → Slot
unfolding launch
supersede s =
    if is_some s.activating
    then record s { activating = some true }
    else if s.tracked
    then (launch true s).0
    else s

unfoldable pub block : Slot → Slot
unfolding supersede
block s = supersede (record s { blocked = true })

unfoldable pub unblock : Slot → Slot
unblock s = record s { blocked = false; failed_at = none }

unfoldable pub reactivate : Slot → Slot
unfolding supersede
reactivate s = if s.blocked then s else supersede (record s { failed_at = none })

-- `releaseActivation`; the second result is false where a rebuild was asked for meanwhile.
unfoldable pub release : Bool → ℕ → Slot → Slot × Bool
release up now s =
    if get_or s.activating false
    then (record s { activating = some false }, false)
    else (record s { activating = none; failed_at = if up then none else some now }, true)

-- The loop of `endActivation` goes on from `dropping` where the release was refused.
unfoldable pub release_step : Bool → ℕ → Slot → Slot
unfolding release
release_step up now s =
    let (s', done) = release up now s in record s' { phase = if done then idle else dropping }

-- A section of the goroutine of `launchActivation`: `activate` and the loop of `endActivation`.
pub data Section : Slot → Slot → Type 0 where
  -- `up = !rebuild && e.activate(ctx, scope) == nil`
  rebuilds : (s : Slot) → s.phase ≡ launched true → Section s (record s { phase = releasing false })
  starts : (s : Slot) → s.phase ≡ launched false → Section s (record s { phase = bringing })
  -- `bringUpScope` tracks the scope, or is refused, or its Subscribe fails and the scope is dropped
  brought_up :
      (s : Slot) (outcome : Option Bool)
      → s.phase ≡ bringing
      → s.closed ≡ false
      → Section s (record s { tracked = true; phase = waiting; reconciled = outcome })
  not_brought_up :
      (s : Slot)
      → s.phase ≡ bringing
      → Section s (record s { tracked = false; phase = releasing false })
  -- `<-sc.firstReconcileDone` or `<-ctx.Done()`, which `Close` cancels
  succeeded :
      (s : Slot)
      → s.phase ≡ waiting
      → s.reconciled ≡ some true
      → Section s (record s { phase = releasing true })
  failed :
      (s : Slot)
      → s.phase ≡ waiting
      → s.reconciled ≡ some false
      → Section s (record s { tracked = false; phase = releasing false })
  cancelled :
      (s : Slot)
      → s.phase ≡ waiting
      → s.closed ≡ true
      → Section s (record s { phase = releasing false })
  released :
      (s : Slot) (up : Bool) (now : ℕ) → s.phase ≡ releasing up → Section s (release_step up now s)
  dropped :
      (s : Slot) → s.phase ≡ dropping → Section s (record s { tracked = false; phase = reading })
  read : (s : Slot) → s.phase ≡ reading → Section s (record s { phase = deciding (not s.blocked) })
  -- `up = !blocked && !e.closed.Load() && e.activate(ctx, scope) == nil`
  retries :
      (s : Slot)
      → s.phase ≡ deciding true
      → s.closed ≡ false
      → Section s (record s { phase = bringing })
  declines :
      (s : Slot) (allowed : Bool)
      → s.phase ≡ deciding allowed
      → (allowed ≡ false) ⊎ (s.closed ≡ true)
      → Section s (record s { phase = releasing false })

-- A call of another goroutine, the end of the first reconcile, or a stage of `Close`.
pub data Call : Slot → Slot → Type 0 where
  activates : (delay now : ℕ) (s : Slot) → Call s (activate delay now s).0
  blocks : (s : Slot) → Call s (block s)
  unblocks : (s : Slot) → Call s (unblock s)
  reactivates : (s : Slot) → Call s (reactivate s)
  reconciles :
      (ok : Bool) (s : Slot) → s.reconciled ≡ none → Call s (record s { reconciled = some ok })
  closes : (s : Slot) → Call s (record s { closed = true })
  closes_workers : (s : Slot) → s.closed ≡ true → Call s (record s { workers_closed = true })

abbrev pub fresh : Slot
fresh = record {
  activating = none;
  blocked = false;
  failed_at = none;
  tracked = false;
  closed = false;
  workers_closed = false;
  phase = idle;
  earlier = [];
  reconciled = none;
}

pub data Run : Slot → Type 0 where
  begin : Run fresh
  call : {s t : Slot} → Run s → Call s t → Run t
  section : {s t : Slot} → Run s → Section s t → Run t
  section_of_earlier :
      {s t : Slot} (before after : List Phase) (p : Phase)
      → Run s
      → s.earlier ≡ before ++ (p ∷ after)
      → Section (record s { phase = p; earlier = before ++ after }) t
      → Run (record t { phase = s.phase; earlier = t.phase ∷ t.earlier })
