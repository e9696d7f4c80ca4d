-- ===== src/StartUp/CalculateManager.antt =====
-- webhook/using-kubebuilder/cmd/main.go, with the set-up of the controller (internal/controller/calculate_controller.go) and
-- of the webhook (api/v1/calculate_webhook.go). controller-runtime is a parameter, by the answers that it
-- gives; log entries are left out, and the flags are taken as parsed.
use kubernetes_examples.Prelude.{
  String, Bool, true, false, List, [], ◌∷◌, Option, if◌then◌else◌, str_eq, not,
}
use kubernetes_examples.StartUp.Process.{Process, exited, need, pass, ◌>>◌}

-- The field of `tls.Config` that main sets.
pub record TlsConfig : Type 0 where
  pub next_protos : List String

pub record ManagerFlags : Type 0 where
  pub metrics_addr : String
  pub enable_leader_election : Bool
  pub probe_addr : String
  pub secure_metrics : Bool
  pub enable_http2 : Bool

-- The flags of a command line that sets none.
unfoldable pub default_flags : ManagerFlags
default_flags = record {
  metrics_addr = "0";
  enable_leader_election = false;
  probe_addr = ":8081";
  secure_metrics = true;
  enable_http2 = false;
}

-- `filters.WithAuthenticationAndAuthorization`, or no filter.
pub data FilterProvider : Type 0 where
  no_filter : FilterProvider
  with_authentication_and_authorization : FilterProvider

pub record MetricsOptions : Type 0 where
  pub bind_address : String
  pub secure_serving : Bool
  pub tls_opts : List (TlsConfig → TlsConfig)
  pub filter_provider : FilterProvider

-- `ctrl.Options`, with the TLS options of its webhook server.
pub record ManagerOptions : Type 0 where
  pub metrics : MetricsOptions
  pub webhook_tls_opts : List (TlsConfig → TlsConfig)
  pub health_probe_bind_address : String
  pub leader_election : Bool
  pub leader_election_id : String

-- The calls of controller-runtime that may fail. `build_controller` is `ctrl.NewControllerManagedBy` for a
-- kind and the kinds that it owns, `build_webhook` `ctrl.NewWebhookManagedBy`.
pub data ManagerCall : Type 0 where
  get_config_or_die : ManagerCall
  new_manager : ManagerOptions → ManagerCall
  build_controller : (kind : String) (owned : List String) → ManagerCall
  build_webhook : (kind : String) → ManagerCall
  add_healthz_check : String → ManagerCall
  add_readyz_check : String → ManagerCall
  start : ManagerCall

unfoldable pub disable_http2 : TlsConfig → TlsConfig
disable_http2 c = record c { next_protos = "http/1.1" ∷ [] }

unfoldable pub tls_opts_for : ManagerFlags → List (TlsConfig → TlsConfig)
unfolding disable_http2
tls_opts_for f = if not f.enable_http2 then disable_http2 ∷ [] else []

unfoldable pub manager_options : ManagerFlags → ManagerOptions
manager_options f =
    let opts = tls_opts_for f in
    record {
      metrics = record {
        bind_address = f.metrics_addr;
        secure_serving = f.secure_metrics;
        tls_opts = opts;
        filter_provider = with_authentication_and_authorization;
      };
      webhook_tls_opts = opts;
      health_probe_bind_address = f.probe_addr;
      leader_election = f.enable_leader_election;
      leader_election_id = "53f2a732.superproj.com";
    }

-- `CalculateReconciler.SetupWithManager`
unfoldable pub setup_with_manager : ManagerCall
setup_with_manager = build_controller "Calculate" []

-- `Calculate.SetupWebhookWithManager`
unfoldable pub setup_webhook_with_manager : ManagerCall
setup_webhook_with_manager = build_webhook "Calculate"

module _ {W : Type 0} (answers : ManagerCall → W → Option String × W) where
  unfoldable pub setup_webhook : String → Process W ManagerCall
  setup_webhook enable_webhooks =
      if not (str_eq enable_webhooks "false")
      then need answers setup_webhook_with_manager (exited 1)
      else pass

  -- `enable_webhooks` is the variable ENABLE_WEBHOOKS of the environment, "" where it is not set.
  unfoldable pub main : ManagerFlags → String → Process W ManagerCall
  main f enable_webhooks = do
    need answers get_config_or_die (exited 1)
    need answers (new_manager (manager_options f)) (exited 1)
    need answers setup_with_manager (exited 1)
    setup_webhook enable_webhooks
    need answers (add_healthz_check "healthz") (exited 1)
    need answers (add_readyz_check "readyz") (exited 1)
    need answers start (exited 1)
