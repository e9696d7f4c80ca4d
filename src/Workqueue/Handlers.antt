-- ===== src/Workqueue/Handlers.antt =====
-- The event handlers of client-go/workqueue/main.go and of
-- client-go/examples-from-other-repo/client-go-official-examples/workqueue/main.go, which put keys on the
-- queue. What they print is left out.
use kubernetes_examples.Prelude.{String}
use kubernetes_examples.Kube.Effect.{Result, ok, err}
use kubernetes_examples.Workqueue.Queue.{RateLimitingQueue, KeyFuncs}

-- What an informer tells its handlers.
pub data Event (O : Type 0) : Type 0 where
  added deleted : O → Event O
  updated : (old new : O) → Event O

module _ {W O : Type 0} (queue : RateLimitingQueue W) (keys : KeyFuncs O) where
  -- `if err == nil { queue.Add(key) }`
  unfoldable pub enqueue : Result String → W → W
  enqueue (ok key) w = queue.add key w
  enqueue (err e) w = w

  unfoldable pub on_add : O → W → W
  on_add obj w = enqueue (keys.meta_key obj) w

  unfoldable pub on_update : O → O → W → W
  on_update old new w = enqueue (keys.meta_key new) w

  unfoldable pub on_delete : O → W → W
  on_delete obj w = enqueue (keys.deletion_key obj) w

  unfoldable pub handle_event : Event O → W → W
  handle_event (added obj) w = on_add obj w
  handle_event (deleted obj) w = on_delete obj w
  handle_event (updated old new) w = on_update old new w
