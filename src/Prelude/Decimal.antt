-- ===== src/Prelude/Decimal.antt =====
-- `%d` of `fmt.Sprintf`: decimal texts of integers, and that different numbers have different texts.
pub mod Injective
use Prim.Native.Char.{Char}
use Prim.Native.String.{◌++◌ as str_append, ◌∷◌ as str_cons, [] as str_nil}
use kubernetes_examples.Prelude.{ℕ, zero, suc, ◌/◌, ◌%◌, ◌≡◌, refl, String, ltb, if◌then◌else◌}
use kubernetes_examples.Prelude.Int.{ℤ, pos, negsuc}

-- Concatenation of texts.
infixr 65 ◌⧺◌
abbrev pub ◌⧺◌ : String → String → String
s ⧺ t = str_append s t

digit : ℕ → Char
digit zero = "0"
digit (suc zero) = "1"
digit (suc (suc zero)) = "2"
digit (suc (suc (suc zero))) = "3"
digit (suc (suc (suc (suc zero)))) = "4"
digit (suc (suc (suc (suc (suc zero))))) = "5"
digit (suc (suc (suc (suc (suc (suc zero)))))) = "6"
digit (suc (suc (suc (suc (suc (suc (suc zero))))))) = "7"
digit (suc (suc (suc (suc (suc (suc (suc (suc zero)))))))) = "8"
digit (suc (suc (suc (suc (suc (suc (suc (suc (suc _))))))))) = "9"

last_digit : ℕ → String
last_digit n = str_cons (digit (n % 10)) str_nil

-- On fuel: a number has fewer digits than its value, so `suc n` rounds are enough.
decimal : ℕ → ℕ → String
unfolding last_digit digit
decimal zero n = ""
decimal (suc f) n =
    let rest = decimal f (n / 10) ⧺ last_digit n in if ltb n 10 then last_digit n else rest

unfoldable pub format_nat : ℕ → String
unfolding decimal
format_nat n = decimal (suc n) n

unfoldable pub format_int : ℤ → String
unfolding format_nat
format_int (pos n) = format_nat n
format_int (negsuc n) = "-" ⧺ format_nat (suc n)

two_digits : format_int (negsuc 41) ≡ "-42"
unfolding format_int
two_digits = refl
