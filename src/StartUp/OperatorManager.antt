-- ===== src/StartUp/OperatorManager.antt =====
-- pod-operator/main.go, with the set-up of the controller (controllers/podmanager_controller.go).
use kubernetes_examples.Prelude.{String, Bool, false, [], ◌∷◌, Option}
use kubernetes_examples.StartUp.Process.{Process, exited, need, ◌>>◌}
use kubernetes_examples.StartUp.CalculateManager.{
  ManagerOptions, no_filter, ManagerCall, get_config_or_die, new_manager, build_controller, start,
}

pub record OperatorFlags : Type 0 where
  pub operator_metrics_addr : String
  pub operator_leader_election : Bool
  pub operator_probe_addr : String

unfoldable pub default_operator_flags : OperatorFlags
default_operator_flags = record {
  operator_metrics_addr = ":8080";
  operator_leader_election = false;
  operator_probe_addr = ":8081";
}

-- The options that main sets; the others are zero values.
unfoldable pub operator_options : OperatorFlags → ManagerOptions
operator_options f = record {
  metrics = record {
    bind_address = "";
    secure_serving = false;
    tls_opts = [];
    filter_provider = no_filter;
  };
  webhook_tls_opts = [];
  health_probe_bind_address = "";
  leader_election = f.operator_leader_election;
  leader_election_id = "pod-operator.mycompany.com";
}

-- `PodManagerReconciler.SetupWithManager`; that it takes the event recorder cannot fail.
unfoldable pub setup_pod_manager_controller : ManagerCall
setup_pod_manager_controller = build_controller "PodManager" ("Pod" ∷ [])

unfoldable pub operator_main :
    {W : Type 0} → (ManagerCall → W → Option String × W) → OperatorFlags → Process W ManagerCall
operator_main answers f = do
  need answers get_config_or_die (exited 1)
  need answers (new_manager (operator_options f)) (exited 1)
  need answers setup_pod_manager_controller (exited 1)
  need answers start (exited 1)
