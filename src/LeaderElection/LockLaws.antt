-- ===== src/LeaderElection/LockLaws.antt =====
-- The lock's operations against the value under its key.
use kubernetes_examples.Prelude.{
  ℕ, suc, ◌+◌, ◌-◌, ◌*◌, ◌≤◌, String, ◌≡◌, ◌≢◌, ◌⊎◌, refl, none, some, arith, str_eq_iff,
  str_eq_of_ne,
}
use kubernetes_examples.Prelude.Int.{ℤ, pos, to_int64, quot_ℤ}
use kubernetes_examples.Prelude.Decimal.{format_nat}
use kubernetes_examples.LeaderElection.Redis.{
  LeaderElectionRecord, LeaderElectionState, delivered, Redis, RedisLaws, Json, JsonLaws,
}
use kubernetes_examples.LeaderElection.RedisLock.{
  RedisLock, ok, err, script_error, lease_duration, lease_milliseconds, decoded, read_value, get,
  created, create, script_set, script_store, script_holder, script_found, script, update,
}

-- The longest lease whose nanoseconds are an int64.
abbrev pub max_lease : ℕ
max_lease = 9223372036

pub lease_duration-pos :
    (n : ℕ) → suc n ≤ max_lease → (k : ℕ) × (lease_duration (suc n) ≡ pos (suc k))
unfolding lease_duration to_int64
lease_duration-pos n h = (suc n * 1000000000 - 1, ground arith)

pub lease_milliseconds-pos :
    (n : ℕ) → suc n ≤ max_lease → lease_milliseconds (suc n) ≡ pos (suc (n * 1000 + 999))
unfolding lease_milliseconds lease_duration to_int64 quot_ℤ
lease_milliseconds-pos n h = ground arith

-- The state that an operation at the time `now` stores.
abbrev pub stored : LeaderElectionRecord → ℕ → LeaderElectionState
stored ler now = record { record' = ler; epoch = format_nat now }

module _ {W V : Type 0} (redis : Redis W V) (json : Json V) (l : RedisLock) (text : V)
    (epoch : String) (ttl : ℤ) (s : LeaderElectionState) where
  pub holder_passes :
      (s.record'.holder_identity ≡ l.identity) ⊎ (s.record'.holder_identity ≡ "")
      → (w : W)
      → script_holder redis json l text epoch ttl s w ≡ script_store redis json l text epoch ttl w
  unfolding script_holder
  holder_passes allowed w = ground (
    arith,
    str_eq_iff s.record'.holder_identity l.identity,
    str_eq_iff s.record'.holder_identity "",
  )

  pub holder_refuses :
      s.record'.holder_identity ≢ l.identity
      → s.record'.holder_identity ≢ ""
      → (w : W)
      → script_holder redis json l text epoch ttl s w ≡ (err (script_error "not holder"), w)
  unfolding script_holder
  holder_refuses other vacant w = rw (str_eq_of_ne _ _ other, str_eq_of_ne _ _ vacant)

module _ {W V : Type 0} (redis : Redis W V) (json : Json V) (laws : RedisLaws redis)
    (codec : JsonLaws json) (l : RedisLock) (ler : LeaderElectionRecord) (now n : ℕ)
    (lease : ler.lease_duration_seconds ≡ suc n) (bounded : suc n ≤ max_lease) where
  create_free :
      (w : W)
      → redis.peek l.key w ≡ none
      → redis.delivery w ≡ delivered
      → (w' : W) × (create redis json l ler now w ≡ (ok tt, w'))
        × (redis.peek l.key w' ≡ some (json.marshal_state (stored ler now)))
  unfolding create created
  create_free w free sent =
      let (k, dur) = lease_duration-pos n bounded in
      let (w', done, peek) =
        laws.set_nx-free l.key (json.marshal_state (stored ler now)) k w free in
      (w', ground (arith, dur, done), peek)

  read_back :
      (w' : W)
      → redis.peek l.key w' ≡ some (json.marshal_state (stored ler now))
      → redis.delivery w' ≡ delivered
      → (get redis json l w').0 ≡ ok (ler, json.marshal_state (stored ler now))
  unfolding get decoded read_value
  read_back w' peek sent = ground (arith, codec.go-go (stored ler now))

  -- With a positive lease of at most `max_lease` and no loss on the network, `Create` of a free key
  -- succeeds, and the next `Get` reads the record back.
  get-create :
      (w : W)
      → redis.peek l.key w ≡ none
      → redis.delivery w ≡ delivered
      → redis.delivery (create redis json l ler now w).1 ≡ delivered
      → ((create redis json l ler now w).0 ≡ ok tt)
        × ((get redis json l (create redis json l ler now w).1).0
            ≡ ok (ler, json.marshal_state (stored ler now)))
  get-create w free sent sent' =
      let (w', step, peek) = create_free w free sent in
      rw step (refl, read_back w' peek (rw step at sent'))

  ttl-pos : lease_milliseconds ler.lease_duration_seconds ≡ pos (suc (n * 1000 + 999))
  ttl-pos = rw lease (lease_milliseconds-pos n bounded)

  pub script_stores :
      (w : W)
      → (w' : W) × (script_store redis json l
            (json.marshal_record ler)
            (format_nat now)
            (lease_milliseconds ler.lease_duration_seconds)
            w
          ≡ (ok tt, w'))
        × (redis.peek l.key w' ≡ some (json.cjson_encode (stored ler now)))
  unfolding script_store script_set
  script_stores w =
      let (w', done, peek) =
        laws.set_px-pos l.key (json.cjson_encode (stored ler now)) (n * 1000 + 999) w in
      (w', ground (arith, ttl-pos, codec.record-lua ler, done), peek)

  update_runs :
      (w : W) (v : V) (s : LeaderElectionState)
      → redis.peek l.key w ≡ some v
      → json.cjson_state v ≡ some s
      → redis.delivery w ≡ delivered
      → update redis json l ler now w
        ≡ script_holder redis json l
            (json.marshal_record ler)
            (format_nat now)
            (lease_milliseconds ler.lease_duration_seconds)
            s
            w
  unfolding update script script_found
  update_runs w v s held readable sent = ground arith

  -- Where the key holds the state `s`, with a positive lease of at most `max_lease` and no loss on the
  -- network, `Update` succeeds if `s` is held by the lock's own identity or by nobody, and then the key
  -- holds the new record with the new epoch; if somebody else holds it, `Update` fails and changes
  -- nothing.
  pub update_by_holder :
      (w : W) (v : V) (s : LeaderElectionState)
      → redis.peek l.key w ≡ some v
      → json.cjson_state v ≡ some s
      → redis.delivery w ≡ delivered
      → let run = update redis json l ler now w in
        ((s.record'.holder_identity ≡ l.identity) ⊎ (s.record'.holder_identity ≡ "")
          → (run.0 ≡ ok tt) × (redis.peek l.key run.1 ≡ some (json.cjson_encode (stored ler now))))
        × ((s.record'.holder_identity ≢ l.identity)
            → (s.record'.holder_identity ≢ "")
            → run ≡ (err (script_error "not holder"), w))
  update_by_holder w v s held readable sent = (
    λ allowed.
        let (w', step, peek) = script_stores w in
        rw
          (update_runs w v s held readable sent, holder_passes redis json l _ _ _ s allowed w, step)
          (refl, peek),
    λ other vacant.
        rw (update_runs w v s held readable sent)
          (holder_refuses redis json l _ _ _ s other vacant w),
  )
