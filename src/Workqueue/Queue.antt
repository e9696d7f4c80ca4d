-- ===== src/Workqueue/Queue.antt =====
-- The work queue and the caches of client-go, which the workers call and do not implement.
use kubernetes_examples.Prelude.{Mem, List, [], ◌∷◌, ◌++◌, some, ℕ, suc, String, ◌≡◌, ◌≢◌, Option}
use kubernetes_examples.Kube.Effect.{Result}

-- `workqueue.RateLimitingInterface` on keys that are texts. `W` is the state of the queue and of the
-- cache; `get` answers `none` where the queue has been shut down.
pub record RateLimitingQueue (W : Type 0) : Type 0 where
  pub get : W → Option String × W
  pub add : String → W → W
  pub done : String → W → W
  pub forget : String → W → W
  pub add_rate_limited : String → W → W
  pub num_requeues : String → W → ℕ

-- The key is not on the list; no key is on the list twice.
unfoldable pub IsAbsent : String → List String → Type 0
IsAbsent k [] = Unit {0}
IsAbsent k (j ∷ js) = (k ≢ j) × IsAbsent k js

unfoldable pub IsDistinct : List String → Type 0
unfolding IsAbsent
IsDistinct [] = Unit {0}
IsDistinct (k ∷ ks) = IsAbsent k ks × IsDistinct ks

-- The documented behaviour of `NumRequeues`: it counts the rate-limited additions of a key since the last
-- `Forget` of the key.
pub record QueueLaws {W : Type 0} (queue : RateLimitingQueue W) : Type 0 where
  pub forget-same : (k : String) (w : W) → queue.num_requeues k (queue.forget k w) ≡ 0
  pub add-same :
      (k : String) (w : W)
      → queue.num_requeues k (queue.add_rate_limited k w) ≡ suc (queue.num_requeues k w)
  pub forget-other :
      (j k : String) (w : W)
      → j ≢ k
      → queue.num_requeues k (queue.forget j w) ≡ queue.num_requeues k w
  pub add-other :
      (j k : String) (w : W)
      → j ≢ k
      → queue.num_requeues k (queue.add_rate_limited j w) ≡ queue.num_requeues k w
  pub done-any :
      (j k : String) (w : W) → queue.num_requeues k (queue.done j w) ≡ queue.num_requeues k w
  pub add-any :
      (j k : String) (w : W) → queue.num_requeues k (queue.add j w) ≡ queue.num_requeues k w
  pub get-any : (k : String) (w : W) → queue.num_requeues k (queue.get w).1 ≡ queue.num_requeues k w

-- The documented order of the queue: `pending` lists the keys that are still to be handed out. `Get` hands
-- out the first, in a queue that has not been shut down; a key that waits already is not added again; and
-- a rate-limited key is added at the end, here once its delay has passed.
pub record OrderLaws {W : Type 0} (queue : RateLimitingQueue W) : Type 0 where
  pub pending : W → List String
  pub get-first :
      (k : String) (ks : List String) (w : W)
      → pending w ≡ k ∷ ks
      → ((queue.get w).0 ≡ some k) × (pending (queue.get w).1 ≡ ks)
  pub add-new :
      (k : String) (w : W) → IsAbsent k (pending w) → pending (queue.add k w) ≡ pending w ++ k ∷ []
  pub add-known : (k : String) (w : W) → Mem k (pending w) → pending (queue.add k w) ≡ pending w
  pub done-pending : (k : String) (w : W) → pending (queue.done k w) ≡ pending w
  pub forget-pending : (k : String) (w : W) → pending (queue.forget k w) ≡ pending w
  pub add-pending :
      (k : String) (w : W)
      → IsAbsent k (pending w)
      → pending (queue.add_rate_limited k w) ≡ pending w ++ k ∷ []

-- `cache.Indexer` and the lister of the dynamic informer over objects of type `T`. Neither changes
-- anything.
pub record Cache (W T : Type 0) : Type 0 where
  pub get_by_key : String → W → Result (Option T)
  pub lister_get : String → W → Result T

-- `cache.MetaNamespaceKeyFunc` and `cache.DeletionHandlingMetaNamespaceKeyFunc` on objects.
pub record KeyFuncs (O : Type 0) : Type 0 where
  pub meta_key : O → Result String
  pub deletion_key : O → Result String
