-- ===== src/Webhook/ByService/ServerLaws.antt =====
-- When `serve` panics.
use kubernetes_examples.Prelude.{
  Option-cases, str_eq_refl, String, false, ◌≡◌, ◌≢◌, refl, ◌↔◌, ◌⊎◌, inl, inr, Option, none, some,
  arith, str_eq, str_eq_iff, Bool-cases,
}
use kubernetes_examples.Webhook.ByService.Review.{AdmissionRequest}
use kubernetes_examples.Webhook.ByService.Handlers.{
  Codec, Reply, crash, decode_object, on_object, validate, mutate,
}
use kubernetes_examples.Webhook.ByService.Server.{
  HttpRequest, Wire, crashed, read_body, reply, on_request, route, on_decoded, serve,
}

-- A review without a request, or with an object of another kind than Deployment and Service.
abbrev pub IsUnsupported : {Bytes : Type 0} → Option (AdmissionRequest Bytes) → Type 0
IsUnsupported none = Unit
IsUnsupported (some req) = (req.kind ≢ "Deployment") × (req.kind ≢ "Service")

module _ {Bytes : Type 0} (codec : Codec Bytes) (wire : Wire Bytes) where
  validate-crash_iff :
      (req : AdmissionRequest Bytes)
      → (validate codec req ≡ crash) ↔ ((req.kind ≢ "Deployment") × (req.kind ≢ "Service"))
  unfolding validate decode_object on_object
  validate-crash_iff req =
      ground (arith, str_eq_iff req.kind "Deployment", str_eq_iff req.kind "Service")

  mutate-crash_iff :
      (req : AdmissionRequest Bytes)
      → (mutate codec req ≡ crash) ↔ ((req.kind ≢ "Deployment") × (req.kind ≢ "Service"))
  unfolding mutate decode_object on_object
  mutate-crash_iff req =
      ground (arith, str_eq_iff req.kind "Deployment", str_eq_iff req.kind "Service")

  on_request-crashed_iff :
      (handle : AdmissionRequest Bytes → Reply Bytes) (o : Option (AdmissionRequest Bytes))
      → ((req : AdmissionRequest Bytes)
          → (handle req ≡ crash) ↔ ((req.kind ≢ "Deployment") × (req.kind ≢ "Service")))
      → (on_request codec wire handle o ≡ crashed) ↔ IsUnsupported o
  unfolding on_request reply
  on_request-crashed_iff handle none h = (λ _. tt, λ _. refl)
  on_request-crashed_iff handle (some req) h = ground (arith, h req)

  route-crashed_iff :
      (path : String) (o : Option (AdmissionRequest Bytes))
      → (route codec wire path o ≡ crashed)
        ↔ (((path ≡ "/mutate") ⊎ (path ≡ "/validate")) × IsUnsupported o)
  unfolding route
  route-crashed_iff path o =
      let m = on_request-crashed_iff (mutate codec) o mutate-crash_iff in
      let v = on_request-crashed_iff (validate codec) o validate-crash_iff in
      elim (Bool-cases (str_eq path "/mutate")) [
        | inl e ↦ rw e (λ h. (inl ((str_eq_iff _ _).0 e), m.0 h), λ p. m.1 p.1)
        | inr e ↦ elim (Bool-cases (str_eq path "/validate")) [
          | inl e' ↦ rw (e, e') (λ h. (inr ((str_eq_iff _ _).0 e'), v.0 h), λ p. v.1 p.1)
          | inr e' ↦
              rw (e, e')
                (
                  λ h. cc,
                  λ p.
                      ground
                        (arith, p.0, e, e', str_eq_iff path "/mutate", str_eq_iff path "/validate"),
                )
        ]
      ]

  -- `serve` panics exactly on a body that is not empty, is announced as JSON and decodes with no error,
  -- sent to one of the two handlers' paths, whose review has no request or asks about another kind
  -- than Deployment and Service. Any other HTTP request is answered.
  pub serve-crashed_iff :
      (r : HttpRequest Bytes)
      → let body = read_body codec wire r.body in
        (serve codec wire r ≡ crashed) ↔ (
          (wire.is_empty body ≡ false)
          × (r.content_type ≡ "application/json")
          × ((wire.decode body).1 ≡ none)
          × ((r.path ≡ "/mutate") ⊎ (r.path ≡ "/validate"))
          × IsUnsupported (wire.decode body).0)
  unfolding serve on_decoded reply
  serve-crashed_iff r =
      let body = read_body codec wire r.body in
      let (to, from) = route-crashed_iff r.path (wire.decode body).0 in
      elim (Bool-cases (wire.is_empty body)) [
        | inl e ↦ rw e (λ h. cc, λ p. cc (p.0))
        | inr e ↦ elim (Bool-cases (str_eq r.content_type "application/json")) [
          | inr wrong ↦
              rw (e, wrong) (λ h. cc, λ p. cc (p.1, wrong, str_eq_refl "application/json"))
          | inl right ↦ elim (Option-cases (wire.decode body).1) [
            | inr (x, failed) ↦ rw (e, right, failed) (λ h. cc, λ p. cc (p.2))
            | inl fine ↦
                rw (e, right, fine)
                  (
                    λ h. (refl, (str_eq_iff _ _).0 right, refl, (to h).0, (to h).1),
                    λ p. from (p.3, p.4),
                  )
          ]
        ]
      ]
