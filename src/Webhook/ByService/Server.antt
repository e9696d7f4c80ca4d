-- ===== src/Webhook/ByService/Server.antt =====
-- webhook.go: `serve`. Reading the body, decoding, encoding and the response writer are parameters.
use kubernetes_examples.Prelude.{
  ℕ, String, Bool, List, [], ◌∷◌, Option, none, some, if◌then◌else◌, str_eq,
}
use kubernetes_examples.Webhook.ByService.Review.{message, AdmissionRequest, AdmissionResponse}
use kubernetes_examples.Webhook.ByService.Handlers.{
  Parsed, parsed, bad, Reply, respond, crash, Codec, denied, validate, mutate,
}

-- `body` is none for a nil body.
pub record HttpRequest (Bytes : Type 0) : Type 0 where
  pub body : Option (Parsed Bytes)
  pub content_type : String
  pub path : String

-- What is handed to the response writer.
pub data Write (Bytes : Type 0) : Type 0 where
  http_error : ℕ → String → Write Bytes
  content : Bytes → Write Bytes

-- The writes of a request, or a panic.
pub data Served (Bytes : Type 0) : Type 0 where
  wrote : List (Write Bytes) → Served Bytes
  crashed : Served Bytes

-- `deserializer.Decode` leaves a review, of which the request counts, and may fail; `json.Marshal` of a
-- review that answers with a response or none; and the error of `w.Write`.
pub record Wire (Bytes : Type 0) : Type 0 where
  pub empty : Bytes
  pub is_empty : Bytes → Bool
  pub decode : Bytes → Option (AdmissionRequest Bytes) × Option String
  pub marshal_review : Option (AdmissionResponse Bytes) → Parsed Bytes
  pub write_error : Bytes → Option String

module _ {Bytes : Type 0} (codec : Codec Bytes) (wire : Wire Bytes) where
  unfoldable pub read_body : Option (Parsed Bytes) → Bytes
  read_body none = wire.empty
  read_body (some (bad _)) = wire.empty
  read_body (some (parsed b)) = b

  -- The last step: the error of a write is written too.
  unfoldable pub write_out : Bytes → List (Write Bytes)
  write_out resp = elim (wire.write_error resp) [
    | none ↦ content resp ∷ []
    | some e ↦ content resp ∷ http_error 500 e ∷ []
  ]

  -- After a failed encoding the handler goes on, and writes the empty bytes.
  unfoldable pub send : Option (AdmissionResponse Bytes) → List (Write Bytes)
  send response = elim (wire.marshal_review response) [
    | parsed resp ↦ write_out resp
    | bad e ↦ http_error 500 e ∷ write_out wire.empty
  ]

  unfoldable pub with_uid :
      Option (AdmissionRequest Bytes) → AdmissionResponse Bytes → AdmissionResponse Bytes
  with_uid none r = r
  with_uid (some req) r = record r { uid = req.uid }

  unfoldable pub reply : Option (AdmissionRequest Bytes) → Reply Bytes → Served Bytes
  reply request crash = crashed
  reply request (respond r) = wrote (send (some (with_uid request r)))

  -- The handlers read `ar.Request`, and panic where it is nil.
  unfoldable pub on_request :
      (AdmissionRequest Bytes → Reply Bytes) → Option (AdmissionRequest Bytes) → Served Bytes
  on_request handle none = crashed
  on_request handle (some req) = reply (some req) (handle req)

  unfoldable pub route : String → Option (AdmissionRequest Bytes) → Served Bytes
  route path request =
      if str_eq path "/mutate"
      then on_request (mutate codec) request
      else if str_eq path "/validate"
      then on_request (validate codec) request
      else wrote (send none)

  unfoldable pub on_decoded :
      String → Option (AdmissionRequest Bytes) → Option String → Served Bytes
  on_decoded path request (some e) = reply request (respond (denied (message e)))
  on_decoded path request none = route path request

  unfoldable pub serve : HttpRequest Bytes → Served Bytes
  serve r =
      let body = read_body r.body in
      let (request, error) = wire.decode body in
      if wire.is_empty body
      then wrote (http_error 400 "empty body" ∷ [])
      else if str_eq r.content_type "application/json"
      then on_decoded r.path request error
      else wrote (http_error 415 "invalid Content-Type, expect `application/json`" ∷ [])
