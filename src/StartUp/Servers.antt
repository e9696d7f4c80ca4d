-- ===== src/StartUp/Servers.antt =====
-- webhook/using-byhand/by-service/main.go: the server of the hand-written webhook. The server runs beside
-- main, so that the error with which it ends is only logged.
use kubernetes_examples.Prelude.{String, List, [], ◌∷◌, Option}
use kubernetes_examples.Prelude.Decimal.{◌⧺◌, format_int}
use kubernetes_examples.Prelude.Int.{ℤ, pos}
use kubernetes_examples.StartUp.Process.{Process, gave_up, need, call, ◌>>◌}

-- `WhSvrParameters`
pub record WhSvrParameters : Type 0 where
  pub port : ℤ
  pub cert_file : String
  pub key_file : String

unfoldable pub default_parameters : WhSvrParameters
default_parameters = record {
  port = pos 443;
  cert_file = "/etc/webhook/certs/cert.pem";
  key_file = "/etc/webhook/certs/key.pem";
}

-- `listen_and_serve` starts the server on an address, for the paths that `serve` answers.
pub data ServerCall : Type 0 where
  load_key_pair : (cert_file key_file : String) → ServerCall
  listen_and_serve : (addr : String) (paths : List String) → ServerCall
  await_signal : ServerCall
  shutdown : ServerCall

unfoldable pub webhook_main :
    {W : Type 0} → (ServerCall → W → Option String × W) → WhSvrParameters → Process W ServerCall
webhook_main answers p = do
  need answers (load_key_pair p.cert_file p.key_file) gave_up
  call answers (listen_and_serve (":" ⧺ format_int p.port) ("/mutate" ∷ "/validate" ∷ []))
  call answers await_signal
  call answers shutdown
