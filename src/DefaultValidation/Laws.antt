-- ===== src/DefaultValidation/Laws.antt =====
-- What the handler answers, and that an answer, asked for again, is its own answer.
use kubernetes_examples.Prelude.{
  String, true, false, ◌≡◌, ◌≢◌, refl, ◌⊎◌, inl, inr, none, str_eq, str_eq_iff, ap, sym, ◌∙◌,
  str_eq_of_ne, arith,
}
use kubernetes_examples.Prelude.Int.{pos, ltb_ℤ}
use kubernetes_examples.Prelude.Results.{Attempt, ok, err, Attempt-cases}
use kubernetes_examples.DefaultValidation.{
  Request, validate_request, error_body, values, handle_resource,
}

-- A positive limit, an offset that is not negative, and a filter.
abbrev pub IsComplete : Request → Type 0
IsComplete r = (ltb_ℤ (pos 0) r.limit ≡ true) × (ltb_ℤ r.offset (pos 0) ≡ false) × (r.filter ≢ "")

-- A field of the answer is that of the query where it is acceptable, and else the default.
abbrev pub IsFilled : Request → Request → Type 0
IsFilled r r' =
    (((ltb_ℤ (pos 0) r.limit ≡ true) × (r'.limit ≡ r.limit))
      ⊎ ((ltb_ℤ (pos 0) r.limit ≡ false) × (r'.limit ≡ pos 10)))
    × (((ltb_ℤ r.offset (pos 0) ≡ false) × (r'.offset ≡ r.offset))
        ⊎ ((ltb_ℤ r.offset (pos 0) ≡ true) × (r'.offset ≡ pos 0)))
    × (((r.filter ≢ "") × (r'.filter ≡ r.filter)) ⊎ ((r.filter ≡ "") × (r'.filter ≡ "all")))

all_ne_empty : str_eq "all" "" ≡ false
unfolding str_eq
all_ne_empty = refl

validate_request-IsFilled : (r : Request) → IsFilled r (validate_request r).1
unfolding validate_request
validate_request-IsFilled r = ground (arith, str_eq_iff r.filter "")

validate_request-IsComplete : (r : Request) → IsComplete (validate_request r).1
unfolding validate_request
validate_request-IsComplete r =
    ground (arith, str_eq_iff r.filter "", str_eq_iff "all" "", all_ne_empty)

validate_request-again : (r : Request) → IsComplete r → validate_request r ≡ (none, r)
unfolding validate_request
validate_request-again r (limit, offset, filter) =
    ground (arith, limit, offset, str_eq_of_ne r.filter "" filter)

module _ {Q : Type 0} (bind : Q → Attempt Request) where
  answered :
      (q : Q) (r : Request)
      → bind q ≡ ok r
      → handle_resource bind q ≡ record { code = 200; body = values (validate_request r).1 }
  unfolding handle_resource validate_request
  answered q r bound = rw (handle_resource, bound) refl

  -- A query that does not bind is answered with the status 400 and the text of the error. Any other is
  -- answered with the status 200 and values of which each is that of the query, where it is a positive
  -- limit, an offset that is not negative or a filter that is not empty, and else the default; and a query
  -- for these values gets the same answer again.
  pub handle_resource-answers :
      (q : Q)
      → ((e : String) × (bind q ≡ err e)
          × (handle_resource bind q ≡ record { code = 400; body = error_body e }))
        ⊎ ((r : Request) × (r' : Request) × (bind q ≡ ok r)
            × IsComplete r'
            × IsFilled r r'
            × (handle_resource bind q ≡ record { code = 200; body = values r' })
            × ((again : Q)
                → bind again ≡ ok r'
                → handle_resource bind again ≡ handle_resource bind q))
  unfolding handle_resource
  handle_resource-answers q = elim (Attempt-cases (bind q)) [
    | inr (e, refused) ↦ inl (e, refused, rw (handle_resource, refused) refl)
    | inl (r, bound) ↦
        let r' = (validate_request r).1 in
        let complete = validate_request-IsComplete r in
        let given = answered q r bound in
        inr (
          r,
          r',
          bound,
          complete,
          validate_request-IsFilled r,
          given,
          λ q' bound'.
              answered q' r' bound'
              ∙ ap (λ v. record { code = 200; body = values v.1 })
                  (validate_request-again r' complete)
              ∙ sym given,
        )
  ]
