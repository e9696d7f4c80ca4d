-- ===== src/Workqueue/Events.antt =====
-- Events and a worker in any order.
use kubernetes_examples.Prelude.{
  false, ℕ, ◌*◌, ◌≤◌, ◌≡◌, ◌⊎◌, inl, inr, String, List, [], ◌∷◌, length, Mem, arith, str_eq,
  str_eq_iff, Bool-cases,
}
use kubernetes_examples.Kube.Effect.{Result, ok, err}
use kubernetes_examples.Workqueue.Queue.{
  RateLimitingQueue, QueueLaws, OrderLaws, KeyFuncs, Cache, IsAbsent, IsDistinct,
}
use kubernetes_examples.Workqueue.Handlers.{
  Event, added, deleted, updated, enqueue, on_add, on_update, on_delete, handle_event,
}
use kubernetes_examples.Workqueue.Controller.{process_next_item, run_worker}
use kubernetes_examples.Workqueue.Laws.{retries-bound}
use kubernetes_examples.Workqueue.Termination.{IsDistinct-append, process-measure, worker_drains}

IsAbsent-cases : (k : String) (ks : List String) → Mem k ks ⊎ IsAbsent k ks
unfolding Mem IsAbsent
IsAbsent-cases k [] = inr tt
IsAbsent-cases k (j ∷ js) = elim (Bool-cases (str_eq k j)) [
  | inl e ↦ inl (inl ((str_eq_iff _ _).0 e))
  | inr e ↦ elim (IsAbsent-cases k js) [
    | inl m ↦ inl (inr m)
    | inr h ↦ inr ((λ same. ground (arith, e, str_eq_iff k j, same)), h)
  ]
]

module _ {W O T : Type 0} (queue : RateLimitingQueue W) (keys : KeyFuncs O) (cache : Cache W T)
    (order : OrderLaws queue) where
  -- One step: an event arrives, or the worker handles an item that waits.
  pub data Step : W → W → Type 0 where
    event : (e : Event O) (w : W) → Step w (handle_event queue keys e w)
    item :
        (k : String) (ks : List String) (w : W)
        → order.pending w ≡ k ∷ ks
        → Step w (process_next_item queue cache w).1

  pub data Steps (w : W) : W → Type 0 where
    start : Steps w w
    next : {u v : W} → Steps w u → Step u v → Steps w v

  -- No key waits twice, and none has been retried more than five times.
  abbrev pub IsFair : W → Type 0
  IsFair w = IsDistinct (order.pending w) × ((k : String) → queue.num_requeues k w ≤ 5)

  module _ (laws : QueueLaws queue) where
    add-IsFair : (k : String) (w : W) → IsFair w → IsFair (queue.add k w)
    add-IsFair k w (distinct, bound) = (
      elim (IsAbsent-cases k (order.pending w)) [
        | inl waits ↦ rw (order.add-known k w waits) distinct
        | inr absent ↦
            rw (order.add-new k w absent) (IsDistinct-append k (order.pending w) absent distinct)
      ],
      λ j. rw (laws.add-any k j w) (bound j),
    )

    enqueue-IsFair : (r : Result String) (w : W) → IsFair w → IsFair (enqueue queue keys r w)
    unfolding enqueue
    enqueue-IsFair (ok k) w fair = add-IsFair k w fair
    enqueue-IsFair (err e) w fair = fair

    handle_event-IsFair : (e : Event O) (w : W) → IsFair w → IsFair (handle_event queue keys e w)
    unfolding handle_event on_add on_update on_delete
    handle_event-IsFair (added obj) w fair = enqueue-IsFair (keys.meta_key obj) w fair
    handle_event-IsFair (deleted obj) w fair = enqueue-IsFair (keys.deletion_key obj) w fair
    handle_event-IsFair (updated old new) w fair = enqueue-IsFair (keys.meta_key new) w fair

    Step-IsFair : {w w' : W} → Step w w' → IsFair w → IsFair w'
    Step-IsFair (event e w) fair = handle_event-IsFair e w fair
    Step-IsFair (item k ks w first) (distinct, bound) =
        let (_, distinct', _) =
          process-measure queue laws order cache k ks w first (rw first at distinct) (bound k) in
        (distinct', λ j. (retries-bound queue laws cache j 0 false w (bound j)).0)

    Steps-IsFair : {w w' : W} → Steps w w' → IsFair w → IsFair w'
    Steps-IsFair start fair = fair
    Steps-IsFair (next r s) fair = Step-IsFair s (Steps-IsFair r fair)

    -- From a queue in which no key waits and none has been retried more than five times, let events arrive
    -- and the worker handle items, in any order. However long that went on, no key waits twice, and after
    -- at most six further items for each waiting key no key waits.
    pub events_settle :
        (w w' : W)
        → order.pending w ≡ []
        → ((k : String) → queue.num_requeues k w ≤ 5)
        → Steps w w'
        → IsDistinct (order.pending w')
          × ((n : ℕ) × (n ≤ 6 * length (order.pending w'))
              × (order.pending (run_worker queue cache n w') ≡ []))
    unfolding IsDistinct
    events_settle w w' empty bound r =
        let (distinct, bound') = Steps-IsFair r (rw empty tt, bound) in
        (distinct, worker_drains queue laws order cache w' distinct bound')
