-- ===== src/LeaderElection/Tests.antt =====
-- The theorems about the lock on a server with one key, and a run of the client options.
use Prim.Native.Nat.{zero}
use kubernetes_examples.Prelude.{
  str_eq_iff, str_eq, suc, String, Bool, true, false, ◌≡◌, ◌≢◌, ◌⊎◌, refl, Option, none, some,
  arith,
}
use kubernetes_examples.Prelude.Int.{ℤ, pos, negsuc}
use kubernetes_examples.LeaderElection.Redis.{
  LeaderElectionRecord, LeaderElectionState, delivered, Redis, RedisLaws, Json, JsonLaws,
}
use kubernetes_examples.LeaderElection.RedisLock.{
  RedisLock, ok, err, script_error, get, create, update,
}
use kubernetes_examples.LeaderElection.LockLaws.{stored, update_by_holder}
use kubernetes_examples.LeaderElection.Exclusion.{
  update_step, Rivals, here, next, IsHeld, Rivals-still,
}
use kubernetes_examples.LeaderElection.Refinement.{Step, lease_of, lock_refines_lease}
use kubernetes_examples.LeaderElection.Options.{override, Flags, ClientOptions, client_options}

-- A server that holds one key, and a network that loses nothing.
data Text : Type 0 where
  state_text : LeaderElectionState → Text
  record_text : LeaderElectionRecord → Text

set_free : Text → ℤ → Option Text → Bool × Option Text
set_free v ttl none = (true, some v)
set_free v ttl (some u) = (false, some u)

set_positive : Text → ℤ → Option (Option Text)
set_positive v (pos zero) = none
set_positive v (pos (suc n)) = some (some v)
set_positive v (negsuc n) = none

abbrev server : Redis (Option Text) Text
server = record {
  peek = λ k w. w;
  set_nx = λ k v ttl w. set_free v ttl w;
  set_px = λ k v ttl w. set_positive v ttl;
  delivery = λ w. delivered;
}

server_laws : RedisLaws server
unfolding set_free set_positive
server_laws = record {
  set_nx-free = λ k v n w e. (some v, rw e refl, refl);
  set_nx-taken = λ k v u ttl w e. rw e refl;
  set_px-pos = λ k v n w. (some v, refl, refl);
}

as_state : Text → Option LeaderElectionState
as_state (state_text s) = some s
as_state (record_text r) = none

as_record : Text → Option LeaderElectionRecord
as_record (state_text s) = none
as_record (record_text r) = some r

abbrev texts : Json Text
texts = record {
  marshal_state = state_text;
  unmarshal_state = as_state;
  marshal_record = record_text;
  cjson_state = as_state;
  cjson_record = as_record;
  cjson_encode = state_text;
}

text_laws : JsonLaws texts
unfolding as_state as_record
text_laws = record {
  go-go = λ s. refl;
  go-lua = λ s. refl;
  lua-go = λ s. refl;
  lua-lua = λ s. refl;
  record-lua = λ r. refl;
}

abbrev alice : RedisLock
alice = record { key = "lock"; identity = "alice" }

abbrev bob : RedisLock
bob = record { key = "lock"; identity = "bob" }

abbrev lease_by : String → LeaderElectionRecord
lease_by name = record {
  holder_identity = name;
  lease_duration_seconds = 15;
  acquire_time = 1;
  renew_time = 2;
  leader_transitions = 0;
}

abbrev taken : Option Text
taken = some (state_text (stored (lease_by "alice") 7))

update_by_holder_example :
    let run = update server texts bob (lease_by "bob") 9 taken in
    ((◌≡◌ {A = String} "alice" "bob") ⊎ (◌≡◌ {A = String} "alice" "")
      → (run.0 ≡ ok tt) × (run.1 ≡ some (state_text (stored (lease_by "bob") 9))))
    × ((◌≢◌ {A = String} "alice" "bob")
        → (◌≢◌ {A = String} "alice" "")
        → run ≡ (err (script_error "not holder"), taken))
unfolding as_state
update_by_holder_example =
    update_by_holder server texts server_laws text_laws bob (lease_by "bob") 9 14 refl (omega arith)
      taken (state_text (stored (lease_by "alice") 7)) (stored (lease_by "alice") 7) refl refl refl

taken-IsHeld : IsHeld server texts "lock" "alice" taken
unfolding as_state
taken-IsHeld = record {
  value = state_text (stored (lease_by "alice") 7);
  state = stored (lease_by "alice") 7;
  set = refl;
  readable = refl;
  held = refl;
}

after_bob : Option Text
after_bob = (update server texts bob (lease_by "bob") 9 taken).1

other_names : ◌≢◌ {A = String} "bob" "alice"
unfolding str_eq
other_names = ground (arith, str_eq_iff "bob" "alice")

some_name : ◌≢◌ {A = String} "alice" ""
unfolding str_eq
some_name = ground (arith, str_eq_iff "alice" "")

bob_tries : Rivals server texts "lock" "alice" taken after_bob
unfolding after_bob
bob_tries = next here (update_step bob (lease_by "bob") 9 taken refl other_names)

Rivals-still_example : after_bob ≡ taken
Rivals-still_example =
    Rivals-still server texts "lock" "alice" server_laws some_name taken-IsHeld bob_tries

abbrev tls_flags : Flags
tls_flags = record {
  redis_addr = "redis://cache:6379/1";
  redis_user = "";
  redis_pass = "secret";
  redis_db = 2;
  use_tls = true;
}

abbrev from_url : ClientOptions
from_url = record { addr = "cache:6379"; username = "u"; password = "p"; db = 1; tls = false }

abbrev started : ClientOptions
started = record { addr = "cache:6379"; username = "u"; password = "secret"; db = 2; tls = true }

starts : client_options (λ _. some from_url) tls_flags ≡ some started
unfolding client_options override str_eq
starts = refl

lock_refines_lease_example :
    let held = lease_of server texts "lock" in
    (held (get server texts alice taken).1 ≡ held taken)
    × Step "alice" (held taken) (held (create server texts alice (lease_by "alice") 9 taken).1)
    × Step "alice" (held taken) (held (update server texts alice (lease_by "alice") 9 taken).1)
lock_refines_lease_example =
    lock_refines_lease server texts server_laws text_laws alice (lease_by "alice") 9 14 refl
      (omega arith) taken
