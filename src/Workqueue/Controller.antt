-- ===== src/Workqueue/Controller.antt =====
-- client-go/examples-from-other-repo/client-go-official-examples/workqueue/main.go, the `Controller`, and
-- client-go/workqueue/main.go, the worker's loop. What they print is left out.
use kubernetes_examples.Prelude.{
  zero, suc, ℕ, String, Bool, true, false, Option, none, some, if◌then◌else◌, ltb, leb, ◌==◌,
}
use kubernetes_examples.Kube.Effect.{ApiError, failure, ok, err}
use kubernetes_examples.Workqueue.Queue.{RateLimitingQueue, Cache}

module _ {W : Type 0} (queue : RateLimitingQueue W) where
  unfoldable pub handle_err : Option ApiError → String → W → W
  handle_err none key w = queue.forget key w
  handle_err (some e) key w =
      if ltb (queue.num_requeues key w) 5 then queue.add_rate_limited key w else queue.forget key w

  -- The end of the function that handles one key.
  unfoldable pub after_work : Option ApiError → String → W → W
  after_work none key w = queue.forget key w
  after_work (some e) key w =
      if leb 5 (queue.num_requeues key w) then queue.forget key w else queue.add_rate_limited key w

  module _ {T : Type 0} (cache : Cache W T) where
    -- An object that is gone is no error.
    unfoldable pub sync_to_stdout : String → W → Option ApiError
    sync_to_stdout key w = elim (cache.get_by_key key w) [ ok _ ↦ none | err e ↦ some e ]

    unfoldable pub process_next_item : W → Bool × W
    process_next_item w =
        let (got, w1) = queue.get w in
        elim got [
          | none ↦ (false, w1)
          | some key ↦ (true, queue.done key (handle_err (sync_to_stdout key w1) key w1))
        ]

    -- `for c.processNextItem() {}`, on fuel: the number of items.
    unfoldable pub run_worker : ℕ → W → W
    run_worker zero w = w
    run_worker (suc n) w =
        let (more, w') = process_next_item w in elim more [ true ↦ run_worker n w' | false ↦ w' ]

    -- The worker with the number 1 always fails on an object that it finds.
    unfoldable pub work : ℕ → String → W → Option ApiError
    work n key w = elim (cache.lister_get key w) [
      | ok _ ↦ if n == 1 then some (failure "worker 1 is a chronic failure") else none
      | err e ↦ some e
    ]

    -- One round of the worker `n`; `stop` tells whether the context is done.
    unfoldable pub worker_round : ℕ → Bool → W → Bool × W
    worker_round n stop w =
        if stop
        then (false, w)
        else (let (got, w1) = queue.get w in
            elim got [
              | none ↦ (false, w1)
              | some key ↦ (true, queue.done key (after_work (work n key w1) key w1))
            ])
