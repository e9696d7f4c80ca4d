-- ===== src/Webhook/Calculate/Types.antt =====
-- webhook/using-kubebuilder/api/v1/calculate_types.go, and the arithmetic of Go's int, of 64 bits.
use kubernetes_examples.Prelude.{ℕ, suc, ◌+◌, ◌-◌, ◌/◌, ◌%◌, String}
use kubernetes_examples.Prelude.Int.{bits, ℤ, pos, negsuc, to_int64}
use kubernetes_examples.Kube.Objects.{ObjectMeta}

-- `ActionType` is a string: a stored object may hold any text.
abbrev pub action_add : String
action_add = "add"

abbrev pub action_sub : String
action_sub = "sub"

abbrev pub action_mul : String
action_mul = "mul"

abbrev pub action_div : String
action_div = "div"

pub record CalculateSpec : Type 0 where
  pub action : String
  pub first : ℤ
  pub second : ℤ

pub record Calculate : Type 0 where
  pub meta : ObjectMeta
  pub spec : CalculateSpec
  pub result : ℤ

unfoldable pub add_int : ℤ → ℤ → ℤ
add_int a b = to_int64 (bits a + bits b)

unfoldable pub sub_int : ℤ → ℤ → ℤ
sub_int a b = to_int64 (bits a + (18446744073709551616 - bits b))

-- The magnitude of a quotient with its sign: minus, at 64 bits.
unfoldable pub negated : ℕ → ℤ
negated n = to_int64 (18446744073709551616 - n % 18446744073709551616)

-- Go's `/` rounds towards 0, and the least int divided by -1 is the least int again. The divisor is not
-- 0.
unfoldable pub div_int : ℤ → ℤ → ℤ
div_int (pos a) (pos b) = to_int64 (a / b)
div_int (pos a) (negsuc b) = negated (a / suc b)
div_int (negsuc a) (pos b) = negated (suc a / b)
div_int (negsuc a) (negsuc b) = to_int64 (suc a / suc b)
