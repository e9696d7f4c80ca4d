-- ===== src/StartUp/Election.antt =====
-- leader-election/main.go, and the example of client-go that it is taken from, whose code is the same
-- (client-go/examples-from-other-repo/client-go-official-examples/leader-election/main.go). The election itself
-- is a parameter, by its answer; flags are taken as parsed, and signals and log entries are left out.
use kubernetes_examples.Prelude.{◌*◌, String, Bool, true, Option, none, some, if◌then◌else◌, str_eq}
use kubernetes_examples.Prelude.Decimal.{◌⧺◌}
use kubernetes_examples.Prelude.Int.{ℤ, pos}
use kubernetes_examples.Kube.Client.{second}
use kubernetes_examples.StartUp.Process.{Process, fatal, panicked, exited, need, pass, stop, ◌>>◌}

pub record ElectionFlags : Type 0 where
  pub kubeconfig : String
  pub id : String
  pub lease_lock_name : String
  pub lease_lock_namespace : String

-- `leaderelection.LeaderElectionConfig` with a lock of type `L`, less its callbacks; times are nanoseconds.
pub record LeaderElectionConfig (L : Type 0) : Type 0 where
  pub lock : L
  pub release_on_cancel : Bool
  pub lease_duration : ℤ
  pub renew_deadline : ℤ
  pub retry_period : ℤ

-- `resourcelock.LeaseLock`
pub record LeaseLock : Type 0 where
  pub name : String
  pub namespace : String
  pub identity : String

pub data ElectionCall : Type 0 where
  build_config_from_flags : String → ElectionCall
  in_cluster_config : ElectionCall
  new_for_config_or_die : ElectionCall
  run_or_die : LeaderElectionConfig LeaseLock → ElectionCall

-- `buildConfig`: a kubeconfig that is named, or that of the Pod.
unfoldable pub build_config : String → ElectionCall
build_config kubeconfig =
    if str_eq kubeconfig "" then in_cluster_config else build_config_from_flags kubeconfig

unfoldable pub lease_election : ElectionFlags → LeaderElectionConfig LeaseLock
lease_election f = record {
  lock = record { name = f.lease_lock_name; namespace = f.lease_lock_namespace; identity = f.id };
  release_on_cancel = true;
  lease_duration = pos (60 * second);
  renew_deadline = pos (15 * second);
  retry_period = pos (5 * second);
}

-- The callback `OnNewLeader`: the log entry, or none where the process has the lock itself.
unfoldable pub on_new_leader : String → String → Option String
on_new_leader id identity =
    if str_eq identity id then none else some ("new leader elected: " ⧺ identity)

module _ {W C : Type 0} where
  -- A flag that must be set.
  unfoldable pub require_flag : String → Process W C
  require_flag value = if str_eq value "" then stop fatal else pass

  -- The callback `OnStoppedLeading`.
  unfoldable pub on_stopped_leading : Process W C
  on_stopped_leading = stop (exited 0)

unfoldable pub election_main :
    {W : Type 0} → (ElectionCall → W → Option String × W) → ElectionFlags → Process W ElectionCall
election_main answers f = do
  require_flag f.lease_lock_name
  require_flag f.lease_lock_namespace
  need answers (build_config f.kubeconfig) fatal
  need answers new_for_config_or_die panicked
  need answers (run_or_die (lease_election f)) panicked
