-- ===== src/Engine/Dispatch.antt =====
-- The delivery of accepted publications: internal/engine/dispatch.go.
pub mod Frame
use lib_systemplane.Prelude.{
  ℕ, ◌+◌, ◌==◌, nat_comparable, if◌then◌else◌, not, ◌||◌, Bool, true, false, Option, none, some,
  List, [], ◌∷◌, ◌++◌, map, get, put, get_or, is_some, is_empty, inc64,
}
use lib_systemplane.Engine.State.{
  NsKey, ns_key_comparable, Shared, Subscription, ScopeState, DispatchWorker, Change, Publication,
}

-- `e.subscribers[nk]`, the nil slice where nobody subscribed.
unfoldable pub subscribers_of : NsKey → Shared → List Subscription
subscribers_of nk g = get_or (get nk g.subscribers) []

-- `OnChange`; the identity that the returned `unsubscribe` removes is none for the no-op.
unfoldable pub on_change : NsKey → Option ℕ → Shared → Shared × Option ℕ
unfolding subscribers_of
on_change nk fn g = elim fn [
  | none ↦ (g, none)
  | some callback ↦
      if g.closed
      then (g, none)
      else let id : ℕ = inc64 g.next_sub_id in
        let sub : Subscription = record { id = id; callback = callback } in
        (
          record g {
            next_sub_id = id;
            subscribers = put nk (subscribers_of nk g ++ (sub ∷ [])) g.subscribers;
          },
          some id,
        )
]

-- `slices.Delete(subs, i, i+1)` at the first subscription of that identity.
unfoldable pub remove_sub : ℕ → List Subscription → List Subscription
remove_sub id [] = []
remove_sub id (s ∷ subs) = if s.id == id then subs else s ∷ remove_sub id subs

-- The function that `OnChange` returned for the identity `id`.
unfoldable pub unsubscribe_change : NsKey → ℕ → Shared → Shared
unfolding subscribers_of remove_sub
unsubscribe_change nk id g = record g {
  subscribers = put nk (remove_sub id (subscribers_of nk g)) g.subscribers;
}

module _ {V : Type 0} where
  -- The section of `submit` under `w.mu`.
  unfoldable pub store_pending : Change V → DispatchWorker V → DispatchWorker V
  store_pending ch w = record w { pending = some ch }

  -- The non-blocking send on `w.signal`, after the unlock.
  unfoldable pub send_signal : DispatchWorker V → DispatchWorker V
  send_signal w = record w { signal = true }

  -- `submit` with nothing in between; Engine/Worker.antt has its two sections as steps.
  unfoldable pub submit : Change V → DispatchWorker V → DispatchWorker V
  unfolding store_pending send_signal
  submit ch w = send_signal (store_pending ch w)

  unfoldable pub take : DispatchWorker V → DispatchWorker V × Option (Change V)
  take w = if is_some w.pending then (record w { pending = none }, w.pending) else (w, none)

  unfoldable pub stop : DispatchWorker V → DispatchWorker V
  stop w = record w { done = true }

  abbrev pub new_worker : DispatchWorker V
  new_worker = record { pending = none; signal = false; done = false }

  unfoldable pub worker_for :
      Shared → NsKey → ScopeState V → ScopeState V × Option (DispatchWorker V)
  worker_for g nk sc =
      if g.workers_closed || sc.workers_dropped then (sc, none) else elim (get nk sc.workers) [
        | some w ↦ (sc, some w)
        | none ↦ (record sc { workers = put nk new_worker sc.workers }, some new_worker)
      ]

  abbrev pub change_of : Publication V → Change V
  change_of pub' = record {
    tenant = pub'.scope.tenant;
    namespace = pub'.ns_key.namespace;
    key = pub'.ns_key.key;
    revision = pub'.revision;
    value = pub'.value;
  }

  unfoldable pub dispatch : Shared → Publication V → ScopeState V → ScopeState V
  unfolding subscribers_of worker_for submit
  dispatch g pub' sc =
      if is_empty (subscribers_of pub'.ns_key g)
      then sc
      else let (sc', worker) = worker_for g pub'.ns_key sc in
        elim worker [
          | none ↦ sc'
          | some w ↦ record sc' {
            workers = put pub'.ns_key (submit (change_of pub') w) sc'.workers;
          }
        ]

  -- `deliver`: every subscriber is called in turn; a panic is recovered and stops no other call.
  unfoldable pub deliver : NsKey → Change V → Shared → List (ℕ × Change V)
  unfolding subscribers_of
  deliver nk ch g = map (λ s. (s.callback, ch)) (subscribers_of nk g)

  stop_all : List (NsKey × DispatchWorker V) → List (NsKey × DispatchWorker V)
  unfolding stop
  stop_all [] = []
  stop_all ((nk, w) ∷ ws) = (nk, stop w) ∷ stop_all ws

  -- `stopScopeWorkers`: the workers are stopped, forgotten, and refused from here on. The second
  -- result is the workers that this stopped.
  unfoldable pub stop_scope_workers : ScopeState V → ScopeState V × List (NsKey × DispatchWorker V)
  unfolding stop_all
  stop_scope_workers sc = (record sc { workers_dropped = true; workers = [] }, stop_all sc.workers)
