-- ===== src/LeaderElection/Exclusion.antt =====
-- Mutual exclusion: what the operations of the other candidates can do while the key is held.
use kubernetes_examples.Prelude.{ℕ, String, ◌≡◌, ◌≢◌, refl, ◌∙◌, some, arith}
use mathlib.Core.Path.{sym}
use kubernetes_examples.Prelude.Decimal.{format_nat}
use kubernetes_examples.LeaderElection.Redis.{
  LeaderElectionRecord, LeaderElectionState, Redis, RedisLaws, Json,
}
use kubernetes_examples.LeaderElection.RedisLock.{
  RedisLock, get, create, created, update, script, script_found, lease_duration, lease_milliseconds,
}
use kubernetes_examples.LeaderElection.LockLaws.{holder_refuses, stored}

module _ {W V : Type 0} (redis : Redis W V) (json : Json V) (key holder : String) where
  -- One operation of a lock on the key, of any identity for `Get` and `Create`, and of another identity
  -- than the holder for `Update`, whatever happens on the network.
  pub data Rival : W → W → Type 0 where
    get_step : (l : RedisLock) (w : W) → l.key ≡ key → Rival w (get redis json l w).1
    create_step :
        (l : RedisLock) (ler : LeaderElectionRecord) (now : ℕ) (w : W)
        → l.key ≡ key
        → Rival w (create redis json l ler now w).1
    update_step :
        (l : RedisLock) (ler : LeaderElectionRecord) (now : ℕ) (w : W)
        → l.key ≡ key
        → l.identity ≢ holder
        → Rival w (update redis json l ler now w).1

  -- Any number of such operations.
  pub data Rivals (w : W) : W → Type 0 where
    here : Rivals w w
    next : {u v : W} → Rivals w u → Rival u v → Rivals w v

  -- The key is set, to a state that is held by `holder`.
  pub record IsHeld (w : W) : Type 0 where
    pub value : V
    pub state : LeaderElectionState
    pub set : redis.peek key w ≡ some value
    pub readable : json.cjson_state value ≡ some state
    pub held : state.record'.holder_identity ≡ holder

  module _ (laws : RedisLaws redis) (somebody : holder ≢ "") where
    get-still : (l : RedisLock) (w : W) → (get redis json l w).1 ≡ w
    unfolding get
    get-still l w = ground arith

    create-still :
        (l : RedisLock) (ler : LeaderElectionRecord) (now : ℕ) (w : W)
        → l.key ≡ key
        → IsHeld w
        → (create redis json l ler now w).1 ≡ w
    unfolding create created
    create-still l ler now w same h =
        let taken =
          laws.set_nx-taken l.key (json.marshal_state (stored ler now)) h.value
            (lease_duration ler.lease_duration_seconds) w (rw same h.set) in
        ground (arith, taken)

    update-still :
        (l : RedisLock) (ler : LeaderElectionRecord) (now : ℕ) (w : W)
        → l.key ≡ key
        → l.identity ≢ holder
        → IsHeld w
        → (update redis json l ler now w).1 ≡ w
    unfolding update script script_found
    update-still l ler now w same other h =
        let refused =
          holder_refuses redis json l (json.marshal_record ler) (format_nat now)
            (lease_milliseconds ler.lease_duration_seconds) h.state (λ e. other (sym e ∙ h.held))
            (λ e. somebody (sym h.held ∙ e)) w in
        ground (arith, refused, h.set, h.readable)

    Rival-still : {w w' : W} → Rival w w' → IsHeld w → w' ≡ w
    Rival-still (get_step l w same) h = get-still l w
    Rival-still (create_step l ler now w same) h = create-still l ler now w same h
    Rival-still (update_step l ler now w same other) h = update-still l ler now w same other h

    -- While the key is held by `holder` and does not expire, no sequence of operations by the other
    -- candidates changes the server: each `Create` and each `Update` of theirs is refused.
    pub Rivals-still : {w w' : W} → IsHeld w → Rivals w w' → w' ≡ w
    Rivals-still h here = refl
    Rivals-still h (next r s) = let same = Rivals-still h r in Rival-still s (rw same h) ∙ same
