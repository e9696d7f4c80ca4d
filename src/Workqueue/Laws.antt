-- ===== src/Workqueue/Laws.antt =====
-- The retries of a key are bounded, and the two workers agree.
use kubernetes_examples.Prelude.{
  Option-cases, inl, inr, ℕ, suc, zero, ◌≤◌, ◌%◌, String, Bool, false, ◌≡◌, ◌≢◌, refl, ◌∙◌, Option,
  none, some, arith, str_eq_iff,
}
use kubernetes_examples.Kube.Effect.{ApiError, ok}
use kubernetes_examples.Workqueue.Queue.{RateLimitingQueue, QueueLaws, Cache}
use kubernetes_examples.Workqueue.Controller.{
  handle_err, after_work, sync_to_stdout, process_next_item, work, worker_round,
}

module _ {W : Type 0} (queue : RateLimitingQueue W) where
  -- The two tests of the number of retries, `< 5` and `>= 5`, choose the same.
  handle_err-after_work :
      (e : Option ApiError) (key : String) (w : W)
      → handle_err queue e key w ≡ after_work queue e key w
  unfolding handle_err after_work
  handle_err-after_work none key w = refl
  handle_err-after_work (some e) key w = ground arith

  -- `n` failures of a key in a row.
  failures : ℕ → ApiError → String → W → W
  failures zero e key w = w
  failures (suc n) e key w = handle_err queue (some e) key (failures n e key w)

  module _ (laws : QueueLaws queue) where
    -- A failure of a key adds one to its retries, until they are five, and then takes them back to 0.
    handle_err-count :
        (e : ApiError) (key : String) (w : W)
        → queue.num_requeues key w ≤ 5
        → queue.num_requeues key (handle_err queue (some e) key w)
          ≡ suc (queue.num_requeues key w) % 6
    unfolding handle_err
    handle_err-count e key w h = ground (arith, laws.forget-same key w, laws.add-same key w)

    -- After `n` failures in a row a key that had no retries has `n` modulo 6: five retries, then the
    -- key is dropped and starts again.
    failures-count :
        (e : ApiError) (key : String) (w : W)
        → queue.num_requeues key w ≡ 0
        → (n : ℕ) → queue.num_requeues key (failures n e key w) ≡ n % 6
    unfolding failures
    failures-count e key w h zero = h
    failures-count e key w h (suc n) =
        let before = failures-count e key w h n in
        handle_err-count e key (failures n e key w) (rw before (omega arith))
        ∙ rw before (omega arith)

    handle_err-bound :
        (e : Option ApiError) (j k : String) (w : W)
        → queue.num_requeues k w ≤ 5
        → queue.num_requeues k (handle_err queue e j w) ≤ 5
    unfolding handle_err
    handle_err-bound none j k w h =
        ground (arith, str_eq_iff j k, laws.forget-same k w, laws.forget-other j k w)
    handle_err-bound (some e) j k w h = ground (
      arith,
      str_eq_iff j k,
      laws.forget-same k w,
      laws.forget-other j k w,
      laws.add-same k w,
      laws.add-other j k w,
    )

    module _ {T : Type 0} (cache : Cache W T) where
      -- No key is ever retried more than five times: an item that is processed by either worker leaves
      -- every key with at most five retries if it had so before.
      pub retries-bound :
          (k : String) (n : ℕ) (stop : Bool) (w : W)
          → queue.num_requeues k w ≤ 5
          → (queue.num_requeues k (process_next_item queue cache w).1 ≤ 5)
            × (queue.num_requeues k (worker_round queue cache n stop w).1 ≤ 5)
      unfolding process_next_item worker_round
      retries-bound k n stop w h =
          let before = laws.get-any k w in
          elim (Option-cases (queue.get w).0) [
            | inl e ↦ ground (arith, before, e)
            | inr (key, e) ↦
                let w1 = (queue.get w).1 in
                let first = sync_to_stdout queue cache key w1 in
                let second = work queue cache n key w1 in
                let same = handle_err-after_work second key w1 in
                let a = handle_err-bound first key k w1 (rw before h) in
                let b = handle_err-bound second key k w1 (rw before h) in
                let c = laws.done-any key k (handle_err queue first key w1) in
                let d = laws.done-any key k (after_work queue second key w1) in
                ground (arith, before, e, a, b, c, d, same)
          ]

  module _ {T : Type 0} (cache : Cache W T) where
    -- A worker whose number is not 1 and whose context is not done handles an item as `processNextItem`
    -- does, where the lister finds the object of the key and the index reports no error.
    worker_round-process_next_item :
        (n : ℕ) (w : W)
        → n ≢ 1
        → ((key : String)
            → (queue.get w).0 ≡ some key
            → ((x : T) × (cache.lister_get key (queue.get w).1 ≡ ok x))
              × ((o : Option T) × (cache.get_by_key key (queue.get w).1 ≡ ok o)))
        → worker_round queue cache n false w ≡ process_next_item queue cache w
    unfolding process_next_item worker_round work sync_to_stdout handle_err after_work
    worker_round-process_next_item n w other found = elim (Option-cases (queue.get w).0) [
      | inl e ↦ ground (arith, e)
      | inr (key, e) ↦
          let ((x, listed), (o, indexed)) = found key e in ground (arith, e, listed, indexed)
    ]
