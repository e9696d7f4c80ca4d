-- ===== src/LeaderElection/Options.antt =====
-- leader-election/redislock.go: the options of the Redis client. `redis.ParseURL` is a parameter; the
-- election itself, its callbacks and the flags' parsing belong to other packages.
use text.Mathlib.Text.{starts_with}
use kubernetes_examples.Prelude.{
  ℕ, String, Bool, true, Option, none, some, if◌then◌else◌, str_eq, ◌==◌,
}

-- The flags that concern the client; the database index is not negative.
pub record Flags : Type 0 where
  pub redis_addr : String
  pub redis_user : String
  pub redis_pass : String
  pub redis_db : ℕ
  pub use_tls : Bool

-- `redis.Options`; `tls` tells whether a TLS configuration is set.
pub record ClientOptions : Type 0 where
  pub addr : String
  pub username : String
  pub password : String
  pub db : ℕ
  pub tls : Bool

-- `strings.HasPrefix(addr, "redis://")`
abbrev is_url : String → Bool
is_url addr = starts_with addr "redis://"

-- The flags that are set override what the URL says.
unfoldable pub override : Flags → ClientOptions → ClientOptions
override f o = record {
  addr = o.addr;
  username = if str_eq f.redis_user "" then o.username else f.redis_user;
  password = if str_eq f.redis_pass "" then o.password else f.redis_pass;
  db = if f.redis_db == 0 then o.db else f.redis_db;
  tls = if f.use_tls then true else o.tls;
}

unfoldable pub from_flags : Flags → ClientOptions
from_flags f = record {
  addr = f.redis_addr;
  username = f.redis_user;
  password = f.redis_pass;
  db = f.redis_db;
  tls = f.use_tls;
}

-- `none` is a fatal exit: the URL does not parse.
unfoldable pub client_options : (String → Option ClientOptions) → Flags → Option ClientOptions
client_options parse_url f =
    if is_url f.redis_addr
    then (elim (parse_url f.redis_addr) [ none ↦ none | some o ↦ some (override f o) ])
    else some (from_flags f)

unfoldable pub safe_redis_addr : String → String
safe_redis_addr addr =
    if starts_with addr "redis://"
    then "[redis URL masked]"
    else if starts_with addr "rediss://"
    then "[redis URL masked]"
    else addr
