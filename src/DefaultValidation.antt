-- ===== src/DefaultValidation.antt =====
-- setdefault/main.go: an HTTP handler that fills in the defaults of a query. The binding of the query to a
-- request is gin's, and a parameter.
use kubernetes_examples.Prelude.{ℕ, String, Option, none, some, if◌then◌else◌, str_eq, not}
use kubernetes_examples.Prelude.Int.{ℤ, pos, ltb_ℤ}
use kubernetes_examples.Prelude.Results.{Attempt, ok, err}
pub mod Laws
mod Tests

pub record Request : Type 0 where
  pub limit : ℤ
  pub offset : ℤ
  pub filter : String

-- `Validate` sets the defaults in the request, and always returns nil.
unfoldable pub validate_request : Request → Option String × Request
validate_request req = (
  none,
  record {
    limit = if not (ltb_ℤ (pos 0) req.limit) then pos 10 else req.limit;
    offset = if ltb_ℤ req.offset (pos 0) then pos 0 else req.offset;
    filter = if str_eq req.filter "" then "all" else req.filter;
  },
)

-- The bodies that `c.JSON` is called with.
pub data Body : Type 0 where
  error_body : String → Body
  values : Request → Body

pub record Response : Type 0 where
  pub code : ℕ
  pub body : Body

-- `ShouldBindQuery` reads a query `Q` into a request that is empty.
unfoldable pub handle_resource : {Q : Type 0} → (Q → Attempt Request) → Q → Response
handle_resource bind query = elim (bind query) [
  | err e ↦ record { code = 400; body = error_body e }
  | ok req ↦
      let (failed, req') = validate_request req in
      elim failed [
        | some e ↦ record { code = 400; body = error_body e }
        | none ↦ record { code = 200; body = values req' }
      ]
]
