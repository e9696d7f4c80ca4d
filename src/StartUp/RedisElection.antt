-- ===== src/StartUp/RedisElection.antt =====
-- leader-election/redislock.go: main, which elects by the lock on a Redis key. Redis and the election are
-- parameters, by their answers; flags are taken as parsed, and the callbacks, which only write log
-- entries, are left out.
use kubernetes_examples.Prelude.{ℕ, String, true, Option, none, some, if◌then◌else◌, str_eq}
use kubernetes_examples.Prelude.Decimal.{◌⧺◌, format_int}
use kubernetes_examples.Prelude.Int.{ℤ, pos, mul_int}
use kubernetes_examples.Kube.Client.{second}
use kubernetes_examples.LeaderElection.RedisLock.{RedisLock, new_redis_lock}
use kubernetes_examples.LeaderElection.Options.{Flags, ClientOptions, client_options}
use kubernetes_examples.StartUp.Process.{call, Process, fatal, need, stop, ◌>>◌}
use kubernetes_examples.StartUp.Election.{LeaderElectionConfig}

pub record RedisElectionFlags : Type 0 where
  pub identity : String
  pub client : Flags
  pub lock_key : String
  pub lease_seconds : ℤ
  pub renew_seconds : ℤ
  pub retry_seconds : ℤ

pub data RedisCall : Type 0 where
  ping : ClientOptions → RedisCall
  new_leader_elector : LeaderElectionConfig RedisLock → RedisCall
  run : RedisCall

-- `hostnameOrRand`, from the answer of `os.Hostname` and the time.
unfoldable pub hostname_or_rand : Option String → ℕ → String
hostname_or_rand none now = "inst-" ⧺ format_int (pos now)
hostname_or_rand (some h) now = if str_eq h "" then "inst-" ⧺ format_int (pos now) else h

-- The products wrap around as those of int64 do.
unfoldable pub redis_election : RedisElectionFlags → LeaderElectionConfig RedisLock
redis_election f = record {
  lock = new_redis_lock f.lock_key f.identity;
  release_on_cancel = true;
  lease_duration = mul_int f.lease_seconds (pos second);
  renew_deadline = mul_int f.renew_seconds (pos second);
  retry_period = mul_int f.retry_seconds (pos second);
}

module _ {W : Type 0} (answers : RedisCall → W → Option String × W) where
  -- main, once the options of the client are known. `elector.Run` gives no error.
  unfoldable pub elect : RedisElectionFlags → ClientOptions → Process W RedisCall
  elect f options = do
    need answers (ping options) fatal
    need answers (new_leader_elector (redis_election f)) fatal
    call answers run

  unfoldable pub redis_main :
      (String → Option ClientOptions) → RedisElectionFlags → Process W RedisCall
  redis_main parse_url f = elim (client_options parse_url f.client) [
    | none ↦ stop fatal
    | some options ↦ elect f options
  ]
