-- ===== src/Prelude/Int.antt =====
-- Signed integers over the native numbers, and the wrap-around of Go's int32.
use kubernetes_examples.Prelude.{
  ◌*◌, ◌/◌, ℕ, zero, suc, ◌+◌, ◌-◌, ◌%◌, ◌≤◌, ◌≡◌, ◌↔◌, Bool, true, false, arith, ltb, leb, ◌==◌,
  if◌then◌else◌,
}

-- `negsuc n` is -(n + 1).
pub data ℤ : Type 0 where
  pos : ℕ → ℤ
  negsuc : ℕ → ℤ

abbrev pub ltb_ℤ : ℤ → ℤ → Bool
ltb_ℤ (pos a) (pos b) = ltb a b
ltb_ℤ (pos a) (negsuc b) = false
ltb_ℤ (negsuc a) (pos b) = true
ltb_ℤ (negsuc a) (negsuc b) = ltb b a

abbrev pub eqb_ℤ : ℤ → ℤ → Bool
eqb_ℤ (pos a) (pos b) = a == b
eqb_ℤ (pos a) (negsuc b) = false
eqb_ℤ (negsuc a) (pos b) = false
eqb_ℤ (negsuc a) (negsuc b) = a == b

-- `i++`, below the largest value of the type.
abbrev pub suc_ℤ : ℤ → ℤ
suc_ℤ (pos n) = pos (suc n)
suc_ℤ (negsuc zero) = pos 0
suc_ℤ (negsuc (suc n)) = negsuc n

-- The rounds of `for i := a; i < b; i++`: b - a where a < b, else 0.
abbrev pub rounds : ℤ → ℤ → ℕ
rounds (pos a) (pos b) = b - a
rounds (pos a) (negsuc b) = 0
rounds (negsuc a) (pos b) = b + suc a
rounds (negsuc a) (negsuc b) = a - b

abbrev pub int32_max : ℕ
int32_max = 2147483647

-- `int32(n)` of a non-negative int.
unfoldable pub to_int32 : ℕ → ℤ
to_int32 n = let r = n % 4294967296 in if leb r int32_max then pos r else negsuc (4294967295 - r)

pub to_int32-pos : (n : ℕ) → n ≤ int32_max → to_int32 n ≡ pos n
unfolding to_int32
to_int32-pos n h = ground arith

pub eqb_ℤ_iff : (a b : ℤ) → (eqb_ℤ a b ≡ true) ↔ (a ≡ b)
eqb_ℤ_iff a b = ground arith

-- The int64 value of a non-negative number of any size.
unfoldable pub to_int64 : ℕ → ℤ
to_int64 n =
    let r = n % 18446744073709551616 in
    if ltb r 9223372036854775808 then pos r else negsuc (18446744073709551615 - r)

-- Go's `/` by a positive constant: it rounds towards 0.
unfoldable pub quot_ℤ : ℤ → ℕ → ℤ
quot_ℤ (pos n) d = pos (n / d)
quot_ℤ (negsuc n) d = let q = suc n / d in if q == 0 then pos 0 else negsuc (q - 1)

-- The residue of an integer modulo 2^64, and the int that a residue stands for.
unfoldable pub bits : ℤ → ℕ
bits (pos n) = n % 18446744073709551616
bits (negsuc n) = 18446744073709551615 - n % 18446744073709551616

-- `*` of int64 values.
unfoldable pub mul_int : ℤ → ℤ → ℤ
mul_int a b = to_int64 (bits a * bits b)
