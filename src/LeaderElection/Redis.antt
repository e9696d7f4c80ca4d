-- ===== src/LeaderElection/Redis.antt =====
-- What the Redis lock uses and does not implement: a Redis server, JSON texts, and the network.
use kubernetes_examples.Prelude.{ℕ, suc, String, Bool, true, false, ◌≡◌, Option, none, some}
use kubernetes_examples.Prelude.Int.{ℤ, pos}

-- `resourcelock.LeaderElectionRecord`, with times as numbers.
pub record LeaderElectionRecord : Type 0 where
  pub holder_identity : String
  pub lease_duration_seconds : ℕ
  pub acquire_time : ℕ
  pub renew_time : ℕ
  pub leader_transitions : ℕ

-- The value that the lock stores under its key.
pub record LeaderElectionState : Type 0 where
  pub record' : LeaderElectionRecord
  pub epoch : String

-- What becomes of a command on the network.
pub data Delivery : Type 0 where
  delivered : Delivery
  lost_request lost_reply : String → Delivery

-- `W` is the state of the server and the network, `V` the type of stored texts. `peek` is the value that a
-- key has now, if it is set and has not expired. The time to live is in nanoseconds for SET with NX, as
-- the Go client takes it, and in milliseconds for SET with PX, which fails with none.
pub record Redis (W V : Type 0) : Type 0 where
  pub peek : String → W → Option V
  pub set_nx : String → V → ℤ → W → Bool × W
  pub set_px : String → V → ℤ → W → Option W
  pub delivery : W → Delivery

-- The documented behaviour of SET: with NX it sets a key that is not set, and leaves a key that is set
-- alone; with PX and a positive time it sets the key.
pub record RedisLaws {W V : Type 0} (redis : Redis W V) : Type 0 where
  pub set_nx-free :
      (k : String) (v : V) (n : ℕ) (w : W)
      → redis.peek k w ≡ none
      → (w' : W) × (redis.set_nx k v (pos (suc n)) w ≡ (true, w')) × (redis.peek k w' ≡ some v)
  pub set_nx-taken :
      (k : String) (v u : V) (ttl : ℤ) (w : W)
      → redis.peek k w ≡ some u
      → redis.set_nx k v ttl w ≡ (false, w)
  pub set_px-pos :
      (k : String) (v : V) (n : ℕ) (w : W)
      → (w' : W) × (redis.set_px k v (pos (suc n)) w ≡ some w') × (redis.peek k w' ≡ some v)

-- Go's encoding/json and Lua's cjson; `none` is a text that does not decode.
pub record Json (V : Type 0) : Type 0 where
  pub marshal_state : LeaderElectionState → V
  pub unmarshal_state : V → Option LeaderElectionState
  pub marshal_record : LeaderElectionRecord → V
  pub cjson_state : V → Option LeaderElectionState
  pub cjson_record : V → Option LeaderElectionRecord
  pub cjson_encode : LeaderElectionState → V

-- Each decoder reads what each encoder writes.
pub record JsonLaws {V : Type 0} (json : Json V) : Type 0 where
  pub go-go : (s : LeaderElectionState) → json.unmarshal_state (json.marshal_state s) ≡ some s
  pub go-lua : (s : LeaderElectionState) → json.cjson_state (json.marshal_state s) ≡ some s
  pub lua-go : (s : LeaderElectionState) → json.unmarshal_state (json.cjson_encode s) ≡ some s
  pub lua-lua : (s : LeaderElectionState) → json.cjson_state (json.cjson_encode s) ≡ some s
  pub record-lua : (r : LeaderElectionRecord) → json.cjson_record (json.marshal_record r) ≡ some r
