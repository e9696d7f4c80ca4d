-- ===== src/StartUp/ManagerLaws.antt =====
-- The managers: what their flags come to.
use kubernetes_examples.StartUp.OperatorManager.{OperatorFlags, operator_main, operator_options}
use kubernetes_examples.Prelude.{
  refl, String, ◌≡◌, List, [], ◌∷◌, Option, if◌then◌else◌, Bool-cases, inl, inr,
}
use kubernetes_examples.StartUp.CalculateManager.{
  disable_http2, tls_opts_for, TlsConfig, ManagerFlags, ManagerCall, manager_options,
}

abbrev applied : List (TlsConfig → TlsConfig) → TlsConfig → TlsConfig
applied [] c = c
applied (f ∷ fs) c = applied fs (f c)

-- Unless the flag for HTTP/2 is set, the options of the webhook server and of the metrics server leave a
-- TLS configuration with HTTP/1.1 alone; if it is set, they leave it as it is.
http2_by_flag :
    (f : ManagerFlags) (c : TlsConfig)
    → let options = manager_options f in
      let wanted = if f.enable_http2 then c else record c { next_protos = "http/1.1" ∷ [] } in
      (applied options.webhook_tls_opts c ≡ wanted) × (applied options.metrics.tls_opts c ≡ wanted)
unfolding manager_options tls_opts_for disable_http2
http2_by_flag f c = elim (Bool-cases f.enable_http2) [
  | inl t ↦ rw t (refl, refl)
  | inr t ↦ rw t (refl, refl)
]

-- Two command lines of the pod operator that agree on leader election make main the same process,
-- whatever addresses for metrics and probes they name.
operator_main-ignores :
    {W : Type 0} (answers : ManagerCall → W → Option String × W) (f g : OperatorFlags)
    → f.operator_leader_election ≡ g.operator_leader_election
    → operator_main answers f ≡ operator_main answers g
unfolding operator_main operator_options
operator_main-ignores answers f g same = rw same refl
