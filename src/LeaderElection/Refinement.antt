-- ===== src/LeaderElection/Refinement.antt =====
-- The lock implements a lease: an abstract account of who holds the key.
use kubernetes_examples.Prelude.{
  ℕ, suc, ◌≤◌, String, ◌≡◌, ◌≢◌, ◌⊎◌, inl, inr, ap, ◌∙◌, Option, none, some, arith, Option-cases,
  str_eq, str_eq_iff, Bool-cases,
}
use kubernetes_examples.Prelude.Decimal.{format_nat}
use kubernetes_examples.LeaderElection.Redis.{
  LeaderElectionRecord, LeaderElectionState, Redis, RedisLaws, Json, JsonLaws,
}
use kubernetes_examples.LeaderElection.RedisLock.{
  RedisLock, lease_duration, lease_milliseconds, get, create, LockResult, script, script_found,
  script_holder, update,
}
use kubernetes_examples.LeaderElection.LockLaws.{
  max_lease, stored, lease_duration-pos, script_stores, holder_passes, holder_refuses,
}

-- The key is free, holds a state, or holds a text that is none.
pub data Lease : Type 0 where
  free : Lease
  held : LeaderElectionState → Lease
  garbage : Lease

-- What the candidate `me` may do: nothing, take a free lease, or renew a lease that it or nobody holds.
pub data Step (me : String) : Lease → Lease → Type 0 where
  stay : (s : Lease) → Step me s s
  acquire : (new : LeaderElectionState) → Step me free (held new)
  renew :
      (old new : LeaderElectionState)
      → (old.record'.holder_identity ≡ me) ⊎ (old.record'.holder_identity ≡ "")
      → Step me (held old) (held new)

abbrev of_decoded : Option LeaderElectionState → Lease
of_decoded none = garbage
of_decoded (some s) = held s

abbrev of_value : {V : Type 0} → Json V → Option V → Lease
of_value json none = free
of_value json (some v) = of_decoded (json.cjson_state v)

allowed-cases :
    (me : String) (s : LeaderElectionState)
    → ((s.record'.holder_identity ≡ me) ⊎ (s.record'.holder_identity ≡ ""))
      ⊎ ((s.record'.holder_identity ≢ me) × (s.record'.holder_identity ≢ ""))
allowed-cases me s = ground (
  arith,
  str_eq_iff s.record'.holder_identity me,
  str_eq_iff s.record'.holder_identity "",
  Bool-cases (str_eq s.record'.holder_identity me),
  Bool-cases (str_eq s.record'.holder_identity ""),
)

module _ {W V : Type 0} (redis : Redis W V) (json : Json V) where
  -- The lease that the server holds under a key.
  unfoldable pub lease_of : String → W → Lease
  lease_of key w = of_value json (redis.peek key w)

  module _ (me key : String) (w w' : W) where
    stays : w' ≡ w → Step me (lease_of key w) (lease_of key w')
    stays e = rw e (stay (lease_of key w))

    acquires :
        (v : V) (new : LeaderElectionState)
        → redis.peek key w ≡ none
        → redis.peek key w' ≡ some v
        → json.cjson_state v ≡ some new
        → Step me (lease_of key w) (lease_of key w')
    unfolding lease_of
    acquires v new e e' d = rw (e, e', d) (acquire new)

    renews :
        (u v : V) (old new : LeaderElectionState)
        → redis.peek key w ≡ some u
        → json.cjson_state u ≡ some old
        → (old.record'.holder_identity ≡ me) ⊎ (old.record'.holder_identity ≡ "")
        → redis.peek key w' ≡ some v
        → json.cjson_state v ≡ some new
        → Step me (lease_of key w) (lease_of key w')
    unfolding lease_of
    renews u v old new e d allowed e' d' = rw (e, d, e', d') (renew old new allowed)

  module _ (laws : RedisLaws redis) (codec : JsonLaws json) (l : RedisLock)
      (ler : LeaderElectionRecord) (now n : ℕ) (lease : ler.lease_duration_seconds ≡ suc n)
      (bounded : suc n ≤ max_lease) where
    get_world : (w : W) → (get redis json l w).1 ≡ w
    unfolding get
    get_world w = ground arith

    abbrev set_world : W → W
    set_world w =
        (redis.set_nx l.key (json.marshal_state (stored ler now))
          (lease_duration ler.lease_duration_seconds) w).1

    create_world :
        (w : W)
        → ((create redis json l ler now w).1 ≡ w)
          ⊎ ((create redis json l ler now w).1 ≡ set_world w)
    unfolding create
    create_world w = ground arith

    set-Step : (w : W) → Step l.identity (lease_of l.key w) (lease_of l.key (set_world w))
    set-Step w = elim (Option-cases (redis.peek l.key w)) [
      | inl e ↦
          let (k, dur) = lease_duration-pos n bounded in
          let (w', done, peek) =
            laws.set_nx-free l.key (json.marshal_state (stored ler now)) k w e in
          let there : set_world w ≡ w' = ground (arith, lease, dur, done) in
          acquires l.identity l.key w (set_world w) _ (stored ler now) e (rw there peek)
            (codec.go-lua (stored ler now))
      | inr (v, e) ↦
          let taken =
            laws.set_nx-taken l.key (json.marshal_state (stored ler now)) v
              (lease_duration ler.lease_duration_seconds) w e in
          stays l.identity l.key w (set_world w) (ap (λ p. p.1) taken)
    ]

    abbrev run_script : W → LockResult (Unit {0}) × W
    run_script w =
        script redis json l (json.marshal_record ler) (format_nat now)
          (lease_milliseconds ler.lease_duration_seconds) w

    update_world :
        (w : W)
        → ((update redis json l ler now w).1 ≡ w)
          ⊎ ((update redis json l ler now w).1 ≡ (run_script w).1)
    unfolding update
    update_world w = ground arith

    script_none : (w : W) → redis.peek l.key w ≡ none → (run_script w).1 ≡ w
    unfolding script
    script_none w e = ground (arith, e)

    script_garbage :
        (w : W) (v : V)
        → redis.peek l.key w ≡ some v
        → json.cjson_state v ≡ none
        → (run_script w).1 ≡ w
    unfolding script script_found
    script_garbage w v e d = ground (arith, e, d)

    script_held :
        (w : W) (v : V) (s : LeaderElectionState)
        → redis.peek l.key w ≡ some v
        → json.cjson_state v ≡ some s
        → run_script w
          ≡ script_holder redis json l
              (json.marshal_record ler)
              (format_nat now)
              (lease_milliseconds ler.lease_duration_seconds)
              s
              w
    unfolding script script_found
    script_held w v s e d = ground (arith, e, d)

    holder-Step :
        (w : W) (v : V) (s : LeaderElectionState)
        → redis.peek l.key w ≡ some v
        → json.cjson_state v ≡ some s
        → Step l.identity (lease_of l.key w) (lease_of l.key (run_script w).1)
    holder-Step w v s e d = elim (allowed-cases l.identity s) [
      | inl allowed ↦
          let (w', step, peek) = script_stores redis json laws codec l ler now n lease bounded w in
          let passes = holder_passes redis json l _ _ _ s allowed w in
          let there = ap (λ p. p.1) (script_held w v s e d ∙ passes ∙ step) in
          renews l.identity l.key w (run_script w).1 v _ s (stored ler now) e d allowed
            (rw there peek) (codec.lua-lua (stored ler now))
      | inr (other, vacant) ↦
          let refused = holder_refuses redis json l _ _ _ s other vacant w in
          stays l.identity l.key w (run_script w).1
            (ap (λ p. p.1) (script_held w v s e d ∙ refused))
    ]

    script-Step : (w : W) → Step l.identity (lease_of l.key w) (lease_of l.key (run_script w).1)
    script-Step w = elim (Option-cases (redis.peek l.key w)) [
      | inl e ↦ stays l.identity l.key w (run_script w).1 (script_none w e)
      | inr (v, e) ↦ elim (Option-cases (json.cjson_state v)) [
        | inl d ↦ stays l.identity l.key w (run_script w).1 (script_garbage w v e d)
        | inr (s, d) ↦ holder-Step w v s e d
      ]
    ]

    either-Step :
        (w w' w'' : W)
        → (w'' ≡ w) ⊎ (w'' ≡ w')
        → Step l.identity (lease_of l.key w) (lease_of l.key w')
        → Step l.identity (lease_of l.key w) (lease_of l.key w'')
    either-Step w w' w'' (inl e) s = stays l.identity l.key w w'' e
    either-Step w w' w'' (inr e) s = rw e s

    -- With a positive lease of at most `max_lease`, the lock implements the lease: whatever the network
    -- loses, `Get` leaves it, and `Create` and `Update` leave it or take one step of the lock's own
    -- identity, which acquires a free lease or renews one that this identity or nobody holds.
    pub lock_refines_lease :
        (w : W)
        → (lease_of l.key (get redis json l w).1 ≡ lease_of l.key w)
          × Step l.identity (lease_of l.key w) (lease_of l.key (create redis json l ler now w).1)
          × Step l.identity (lease_of l.key w) (lease_of l.key (update redis json l ler now w).1)
    lock_refines_lease w = (
      ap (lease_of l.key) (get_world w),
      either-Step w (set_world w) _ (create_world w) (set-Step w),
      either-Step w (run_script w).1 _ (update_world w) (script-Step w),
    )
