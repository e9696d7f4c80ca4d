-- ===== src/Workqueue/Termination.antt =====
-- A worker comes to the end of its queue.
use Prim.Native.Nat.{zero}
use kubernetes_examples.Prelude.{
  false, List-cases, true, ℕ, suc, ◌+◌, ◌-◌, ◌*◌, ◌≤◌, ◌<◌, String, ◌≡◌, ◌≢◌, ◌⊎◌, inl, inr, refl,
  sym, List, [], ◌∷◌, ◌++◌, Option, none, some, arith, length,
}
use kubernetes_examples.Kube.Effect.{ApiError}
use kubernetes_examples.Workqueue.Queue.{
  Cache, RateLimitingQueue, QueueLaws, OrderLaws, IsAbsent, IsDistinct,
}
use kubernetes_examples.Workqueue.Laws.{retries-bound}
use kubernetes_examples.Workqueue.Controller.{
  sync_to_stdout, process_next_item, run_worker, handle_err,
}

IsAbsent-append :
    (j k : String) (ks : List String) → j ≢ k → IsAbsent j ks → IsAbsent j (ks ++ k ∷ [])
unfolding IsAbsent
IsAbsent-append j k [] other h = (other, tt)
IsAbsent-append j k (i ∷ ks) other (h, hs) = (h, IsAbsent-append j k ks other hs)

pub IsDistinct-append :
    (k : String) (ks : List String) → IsAbsent k ks → IsDistinct ks → IsDistinct (ks ++ k ∷ [])
unfolding IsAbsent IsDistinct
IsDistinct-append k [] h d = (tt, tt)
IsDistinct-append k (j ∷ ks) (h, hs) (a, d) =
    (IsAbsent-append j k ks (λ e. h (sym e)) a, IsDistinct-append k ks hs d)

module _ {W : Type 0} (queue : RateLimitingQueue W) where
  -- The attempts that are left for the keys of a list.
  unfoldable pub attempts : W → List String → ℕ
  attempts w [] = 0
  attempts w (k ∷ ks) = (6 - queue.num_requeues k w) + attempts w ks

  attempts-append :
      (w : W) (ks : List String) (k : String)
      → attempts w (ks ++ k ∷ []) ≡ attempts w ks + (6 - queue.num_requeues k w)
  unfolding attempts
  attempts-append w [] k = omega arith
  attempts-append w (j ∷ ks) k = omega (arith, attempts-append w ks k)

  attempts-same :
      (w w' : W) (k : String) (ks : List String)
      → IsAbsent k ks
      → ((j : String) → k ≢ j → queue.num_requeues j w' ≡ queue.num_requeues j w)
      → attempts w' ks ≡ attempts w ks
  unfolding attempts IsAbsent
  attempts-same w w' k [] h same = refl
  attempts-same w w' k (j ∷ ks) (h, hs) same = rw (same j h, attempts-same w w' k ks hs same) refl

  attempts-le : (w : W) (ks : List String) → attempts w ks ≤ 6 * length ks
  unfolding attempts
  attempts-le w [] = omega arith
  attempts-le w (k ∷ ks) = omega (arith, attempts-le w ks)

  module _ (laws : QueueLaws queue) (order : OrderLaws queue) where
    handle_err-other :
        (e : Option ApiError) (k j : String) (w : W)
        → k ≢ j
        → queue.num_requeues j (handle_err queue e k w) ≡ queue.num_requeues j w
    unfolding handle_err
    handle_err-other none k j w h = laws.forget-other k j w h
    handle_err-other (some e) k j w h =
        ground (arith, laws.forget-other k j w h, laws.add-other k j w h)

    -- A handled key is gone, or waits at the end with one attempt less.
    handle_err-pending :
        (e : Option ApiError) (k : String) (w : W)
        → IsAbsent k (order.pending w)
        → (order.pending (handle_err queue e k w) ≡ order.pending w)
          ⊎ ((order.pending (handle_err queue e k w) ≡ order.pending w ++ k ∷ [])
              × (queue.num_requeues k (handle_err queue e k w) ≡ suc (queue.num_requeues k w)))
    unfolding handle_err
    handle_err-pending none k w h = inl (order.forget-pending k w)
    handle_err-pending (some e) k w h =
        ground (arith, order.forget-pending k w, order.add-pending k w h, laws.add-same k w)

    handle_err-measure :
        (e : Option ApiError) (k : String) (w : W)
        → IsAbsent k (order.pending w)
        → IsDistinct (order.pending w)
        → queue.num_requeues k w ≤ 5
        → let w' = handle_err queue e k w in
          IsDistinct (order.pending w')
          × (attempts w' (order.pending w')
              < (6 - queue.num_requeues k w) + attempts w (order.pending w))
    handle_err-measure e k w absent distinct bound =
        let w' = handle_err queue e k w in
        let same =
          attempts-same w w' k (order.pending w) absent (λ j h. handle_err-other e k j w h) in
        elim (handle_err-pending e k w absent) [
          | inl gone ↦ (rw gone distinct, rw gone (omega (arith, same)))
          | inr (later, counted) ↦ (
            rw later (IsDistinct-append k (order.pending w) absent distinct),
            rw later (omega (arith, same, counted, attempts-append w' (order.pending w) k)),
          )
        ]

    attempts-all :
        (w w' : W) (ks : List String)
        → ((j : String) → queue.num_requeues j w' ≡ queue.num_requeues j w)
        → attempts w' ks ≡ attempts w ks
    unfolding attempts
    attempts-all w w' [] same = refl
    attempts-all w w' (j ∷ ks) same = rw (same j, attempts-all w w' ks same) refl

    module _ {T : Type 0} (cache : Cache W T) where
      process-step :
          (k : String) (w : W)
          → (queue.get w).0 ≡ some k
          → let w1 = (queue.get w).1 in
            process_next_item queue cache w
            ≡ (true, queue.done k (handle_err queue (sync_to_stdout queue cache k w1) k w1))
      unfolding process_next_item
      process-step k w e = ground (arith, e)

      -- One item: the worker goes on, and fewer attempts are left.
      pub process-measure :
          (k : String) (ks : List String) (w : W)
          → order.pending w ≡ k ∷ ks
          → IsDistinct (k ∷ ks)
          → queue.num_requeues k w ≤ 5
          → let (more, w') = process_next_item queue cache w in
            (more ≡ true)
            × IsDistinct (order.pending w')
            × (attempts w' (order.pending w') < attempts w (order.pending w))
      unfolding attempts IsDistinct
      process-measure k ks w e (absent, distinct) bound =
          let w1 = (queue.get w).1 in
          let (got, rest) = order.get-first k ks w e in
          let err = sync_to_stdout queue cache k w1 in
          let w2 = handle_err queue err k w1 in
          let (distinct', less) =
            handle_err-measure err k w1 (rw rest absent) (rw rest distinct)
              (rw (laws.get-any k w) bound) in
          let same = attempts-all w w1 ks (λ j. laws.get-any j w) in
          let after =
            attempts-all w2 (queue.done k w2) (order.pending w2) (λ j. laws.done-any k j w2) in
          rw (process-step k w got) (
            refl,
            rw (order.done-pending k w2) distinct',
            rw (e, order.done-pending k w2)
                (omega (arith, after, rw (rest, laws.get-any k w) at less, same)),
          )

      worker-next :
          (n : ℕ) (w : W)
          → (process_next_item queue cache w).0 ≡ true
          → run_worker queue cache (suc n) w
            ≡ run_worker queue cache n (process_next_item queue cache w).1
      unfolding run_worker
      worker-next n w more = ground (arith, more)

      drains :
          (fuel : ℕ) (w : W)
          → attempts w (order.pending w) ≤ fuel
          → IsDistinct (order.pending w)
          → ((k : String) → queue.num_requeues k w ≤ 5)
          → (n : ℕ) × (n ≤ fuel) × (order.pending (run_worker queue cache n w) ≡ [])
      unfolding run_worker
      drains zero w h distinct bound = elim (List-cases (order.pending w)) [
        | inl e ↦ (0, omega arith, e)
        | inr (k, ks, e) ↦
            let (more, _, less) = process-measure k ks w e (rw e at distinct) (bound k) in
            absurd (omega (arith, less, h))
      ]
      drains (suc fuel) w h distinct bound = elim (List-cases (order.pending w)) [
        | inl e ↦ (0, omega arith, e)
        | inr (k, ks, e) ↦
            let w' = (process_next_item queue cache w).1 in
            let (more, distinct', less) = process-measure k ks w e (rw e at distinct) (bound k) in
            let (n, le, end) =
              drains fuel w' (omega (arith, less, h)) distinct'
                (λ j. (retries-bound queue laws cache j 0 false w (bound j)).0) in
            (suc n, omega (arith, le), rw (worker-next n w more) end)
      ]

      -- In a queue in which no key waits twice and none has been retried more than five times, a worker comes to
      -- the end of what waits: after at most six items for each waiting key no key waits, whatever the items'
      -- errors are.
      pub worker_drains :
          (w : W)
          → IsDistinct (order.pending w)
          → ((k : String) → queue.num_requeues k w ≤ 5)
          → (n : ℕ) × (n ≤ 6 * length (order.pending w))
            × (order.pending (run_worker queue cache n w) ≡ [])
      worker_drains w distinct bound =
          let (n, le, end) = drains (attempts w (order.pending w)) w (omega arith) distinct bound in
          (n, omega (arith, le, attempts-le w (order.pending w)), end)
