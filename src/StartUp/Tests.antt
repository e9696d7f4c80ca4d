-- ===== src/StartUp/Tests.antt =====
-- The starts of the programs at concrete answers.
use kubernetes_examples.Prelude.{
  ℕ, suc, String, false, ◌≡◌, refl, [], ◌∷◌, Option, none, some, str_eq,
}
use kubernetes_examples.StartUp.Process.{ended, fatal, exited}
use kubernetes_examples.StartUp.CalculateManager.{
  setup_webhook_with_manager, setup_webhook, setup_with_manager, TlsConfig, ManagerCall,
  get_config_or_die, new_manager, build_controller, build_webhook, add_healthz_check,
  add_readyz_check, start, default_flags, main,
}
use kubernetes_examples.StartUp.OperatorManager.{OperatorFlags}
use kubernetes_examples.StartUp.Election.{
  build_config, require_flag, ElectionFlags, ElectionCall, in_cluster_config,
  build_config_from_flags, new_for_config_or_die, run_or_die, election_main,
}

-- All goes well but the set-up of the webhook; the world counts the calls.
abbrev no_webhook : ManagerCall → ℕ → Option String × ℕ
no_webhook get_config_or_die n = (none, suc n)
no_webhook (new_manager _) n = (none, suc n)
no_webhook (build_controller _ _) n = (none, suc n)
no_webhook (build_webhook _) n = (some "no certificates", suc n)
no_webhook (add_healthz_check _) n = (none, suc n)
no_webhook (add_readyz_check _) n = (none, suc n)
no_webhook start n = (none, suc n)

webhook_refused : (main no_webhook default_flags "" 0).0 ≡ ended (exited 1)
unfolding main setup_with_manager setup_webhook str_eq setup_webhook_with_manager
webhook_refused = refl

webhooks_off : (main no_webhook default_flags "false" 0).2 ≡ 6
unfolding main setup_with_manager setup_webhook str_eq
webhooks_off = refl

abbrev offers_both : TlsConfig
offers_both = record { next_protos = "h2" ∷ "http/1.1" ∷ [] }

abbrev other_ports : OperatorFlags
other_ports = record {
  operator_metrics_addr = ":9090";
  operator_leader_election = false;
  operator_probe_addr = ":9091";
}

abbrev elects : ElectionCall → ℕ → Option String × ℕ
elects in_cluster_config n = (some "not in a cluster", suc n)
elects (build_config_from_flags _) n = (none, suc n)
elects new_for_config_or_die n = (none, suc n)
elects (run_or_die _) n = (none, suc n)

abbrev named_lease : ElectionFlags
named_lease = record {
  kubeconfig = "";
  id = "a";
  lease_lock_name = "demo";
  lease_lock_namespace = "default";
}

no_cluster : (election_main elects named_lease 0).0 ≡ ended fatal
unfolding election_main require_flag str_eq build_config
no_cluster = refl
