-- ===== src/DefaultValidation/Tests.antt =====
-- A query with a limit that is not positive and no filter.
use kubernetes_examples.Prelude.{str_eq, String, ◌≡◌, ◌⊎◌, refl, Option, none, some}
use kubernetes_examples.Prelude.Int.{pos, negsuc}
use kubernetes_examples.Prelude.Results.{Attempt, ok, err}
use kubernetes_examples.DefaultValidation.{
  validate_request, Request, error_body, values, handle_resource,
}
use kubernetes_examples.DefaultValidation.Laws.{IsComplete, IsFilled, handle_resource-answers}

abbrev no_limit : Request
no_limit = record { limit = negsuc 2; offset = pos 4; filter = "" }

-- Queries by their values; one of them has none.
abbrev by_value : Option Request → Attempt Request
by_value none = err "limit is not a number"
by_value (some r) = ok r

handle_resource-answers_example :
    ((e : String) × (by_value (some no_limit) ≡ err e)
      × (handle_resource by_value (some no_limit) ≡ record { code = 400; body = error_body e }))
    ⊎ ((r : Request) × (r' : Request) × (by_value (some no_limit) ≡ ok r)
        × IsComplete r'
        × IsFilled r r'
        × (handle_resource by_value (some no_limit) ≡ record { code = 200; body = values r' })
        × ((again : Option Request)
            → by_value again ≡ ok r'
            → handle_resource by_value again ≡ handle_resource by_value (some no_limit)))
handle_resource-answers_example = handle_resource-answers by_value (some no_limit)

filled_in : handle_resource by_value (some no_limit) ≡ record {
  code = 200;
  body = values (record { limit = pos 10; offset = pos 4; filter = "all" });
}
unfolding handle_resource validate_request str_eq
filled_in = refl
