-- ===== src/LeaderElection/RedisLock.antt =====
-- leader-election/redislock/redislock.go: a resource lock over one Redis key.
use kubernetes_examples.Prelude.{
  ℕ, ◌*◌, String, Bool, true, false, Option, none, some, if◌then◌else◌, str_eq,
}
use kubernetes_examples.Prelude.Int.{ℤ, to_int64, quot_ℤ}
use kubernetes_examples.Prelude.Decimal.{◌⧺◌, format_nat}
use kubernetes_examples.LeaderElection.Redis.{
  LeaderElectionRecord, LeaderElectionState, delivered, lost_request, lost_reply, Redis, Json,
}

-- `RedisLock`, without its client.
pub record RedisLock : Type 0 where
  pub key : String
  pub identity : String

unfoldable pub new_redis_lock : String → String → RedisLock
new_redis_lock key identity = record { key = key; identity = identity }

unfoldable pub describe : RedisLock → String
describe l = "redis/" ⧺ l.key

pub data LockError : Type 0 where
  not_found : String → LockError
  client : String → LockError
  undecodable : LockError
  already_exists : LockError
  script_error : String → LockError

pub data LockResult {ℓ} (A : Type ℓ) : Type ℓ where
  ok : A → LockResult A
  err : LockError → LockResult A

-- `time.Duration(seconds) * time.Second`, an int64 of nanoseconds.
unfoldable pub lease_duration : ℕ → ℤ
lease_duration seconds = to_int64 (seconds * 1000000000)

-- The same in milliseconds.
unfoldable pub lease_milliseconds : ℕ → ℤ
unfolding lease_duration
lease_milliseconds seconds = quot_ℤ (lease_duration seconds) 1000000

module _ {W V : Type 0} (redis : Redis W V) (json : Json V) where
  unfoldable pub decoded : V → LockResult (LeaderElectionRecord × V)
  decoded b = elim (json.unmarshal_state b) [
    | none ↦ err undecodable
    | some st ↦ ok (st.record', b)
  ]

  unfoldable pub read_value : RedisLock → Option V → LockResult (LeaderElectionRecord × V)
  read_value l none = err (not_found l.identity)
  read_value l (some b) = decoded b

  -- A failed command leaves the server as it is: GET only reads.
  unfoldable pub get : RedisLock → W → LockResult (LeaderElectionRecord × V) × W
  get l w = elim (redis.delivery w) [
    | delivered ↦ (read_value l (redis.peek l.key w), w)
    | lost_request e ↦ (err (client e), w)
    | lost_reply e ↦ (err (client e), w)
  ]

  unfoldable pub created : Bool → LockResult (Unit {0})
  created true = ok tt
  created false = err already_exists

  -- `now` is `time.Now().UnixNano()`.
  unfoldable pub create : RedisLock → LeaderElectionRecord → ℕ → W → LockResult (Unit {0}) × W
  create l ler now w =
      let data' = json.marshal_state (record { record' = ler; epoch = format_nat now }) in
      let (done, w') = redis.set_nx l.key data' (lease_duration ler.lease_duration_seconds) w in
      elim (redis.delivery w) [
        | delivered ↦ (created done, w')
        | lost_request e ↦ (err (client e), w)
        | lost_reply e ↦ (err (client e), w')
      ]

  -- The end of the script: SET with PX.
  unfoldable pub script_set : RedisLock → V → ℤ → W → LockResult (Unit {0}) × W
  script_set l updated ttl w = elim (redis.set_px l.key updated ttl w) [
    | none ↦ (err (script_error "invalid expire time"), w)
    | some w' ↦ (ok tt, w')
  ]

  unfoldable pub script_store : RedisLock → V → String → ℤ → W → LockResult (Unit {0}) × W
  script_store l ler epoch ttl w = elim (json.cjson_record ler) [
    | none ↦ (err (script_error "cjson"), w)
    | some r ↦ script_set l (json.cjson_encode (record { record' = r; epoch = epoch })) ttl w
  ]

  -- The test of the holder.
  unfoldable pub script_holder :
      RedisLock → V → String → ℤ → LeaderElectionState → W → LockResult (Unit {0}) × W
  script_holder l ler epoch ttl current w =
      if str_eq current.record'.holder_identity l.identity
      then script_store l ler epoch ttl w
      else if str_eq current.record'.holder_identity ""
      then script_store l ler epoch ttl w
      else (err (script_error "not holder"), w)

  unfoldable pub script_found :
      RedisLock → V → String → ℤ → Option LeaderElectionState → W → LockResult (Unit {0}) × W
  script_found l ler epoch ttl none w = (err (script_error "cjson"), w)
  script_found l ler epoch ttl (some current) w = script_holder l ler epoch ttl current w

  -- The Lua script, which the server runs with nothing in between.
  unfoldable pub script : RedisLock → V → String → ℤ → W → LockResult (Unit {0}) × W
  script l ler epoch ttl w = elim (redis.peek l.key w) [
    | none ↦ (err (script_error "not found"), w)
    | some val ↦ script_found l ler epoch ttl (json.cjson_state val) w
  ]

  unfoldable pub update : RedisLock → LeaderElectionRecord → ℕ → W → LockResult (Unit {0}) × W
  update l ler now w =
      let (reply, w') =
        script l (json.marshal_record ler) (format_nat now)
          (lease_milliseconds ler.lease_duration_seconds) w in
      elim (redis.delivery w) [
        | delivered ↦ (reply, w')
        | lost_request e ↦ (err (client e), w)
        | lost_reply e ↦ (err (client e), w')
      ]
