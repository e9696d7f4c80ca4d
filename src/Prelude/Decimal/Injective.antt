-- ===== src/Prelude/Decimal/Injective.antt =====
-- Different numbers have different decimal texts.
use Prim.Native.Char.{code}
use Prim.Native.String.{count}
use text.Mathlib.TextLemmas.{
  length-append, length-cons, append_inj, append_cancel_left, head-eq_of_cons-eq,
}
use kubernetes_examples.Prelude.{
  ℕ, zero, suc, ◌+◌, ◌/◌, ◌%◌, ◌≤◌, ◌<◌, ◌≡◌, refl, sym, ap, String, arith, ltb, Bool-cases, true,
  false, inl, inr,
}
use kubernetes_examples.Prelude.Decimal.{digit, last_digit, decimal, format_nat, ◌⧺◌}

code-digit : (d : ℕ) → d < 10 → code (digit d) ≡ 48 + d
unfolding digit
code-digit zero h = refl
code-digit (suc zero) h = refl
code-digit (suc (suc zero)) h = refl
code-digit (suc (suc (suc zero))) h = refl
code-digit (suc (suc (suc (suc zero)))) h = refl
code-digit (suc (suc (suc (suc (suc zero))))) h = refl
code-digit (suc (suc (suc (suc (suc (suc zero)))))) h = refl
code-digit (suc (suc (suc (suc (suc (suc (suc zero))))))) h = refl
code-digit (suc (suc (suc (suc (suc (suc (suc (suc zero)))))))) h = refl
code-digit (suc (suc (suc (suc (suc (suc (suc (suc (suc zero))))))))) h = refl
code-digit (suc (suc (suc (suc (suc (suc (suc (suc (suc (suc n)))))))))) h = absurd (omega arith)

last_digit-injective : (m n : ℕ) → last_digit m ≡ last_digit n → m % 10 ≡ n % 10
unfolding last_digit
last_digit-injective m n e = omega (
  arith,
  ap code (head-eq_of_cons-eq e),
  code-digit (m % 10) (omega arith),
  code-digit (n % 10) (omega arith),
)

count-last_digit : (n : ℕ) → count (last_digit n) ≡ 1
unfolding last_digit
count-last_digit n = length-cons _ _

decimal-step : (f n : ℕ) → ltb n 10 ≡ false → decimal (suc f) n ≡ decimal f (n / 10) ⧺ last_digit n
unfolding decimal
decimal-step f n h = rw h

decimal-last : (f n : ℕ) → ltb n 10 ≡ true → decimal (suc f) n ≡ last_digit n
unfolding decimal
decimal-last f n h = rw h

count-decimal-step :
    (f n : ℕ) → ltb n 10 ≡ false → count (decimal (suc f) n) ≡ count (decimal f (n / 10)) + 1
count-decimal-step f n h =
    rw (decimal-step f n h)
      (rw (length-append (decimal f (n / 10)) (last_digit n)) (omega (arith, count-last_digit n)))

count-decimal-pos : (f n : ℕ) → n < f → 1 ≤ count (decimal f n)
count-decimal-pos zero n h = elim h [ ]
count-decimal-pos (suc f) n h = elim (Bool-cases (ltb n 10)) [
  | inl e ↦ rw (decimal-last f n e) (omega (arith, count-last_digit n))
  | inr e ↦ omega (arith, count-decimal-step f n e)
]

one_longer :
    (f g m n : ℕ)
    → ltb m 10 ≡ true
    → ltb n 10 ≡ false
    → n < suc g
    → decimal (suc f) m ≡ decimal (suc g) n
    → ⊥
one_longer f g m n hm hn l e = omega (
  arith,
  ap count e,
  ap count (decimal-last f m hm),
  count-last_digit m,
  count-decimal-step g n hn,
  count-decimal-pos g (n / 10) (ground arith),
)

decimal-injective : (f g m n : ℕ) → m < f → n < g → decimal f m ≡ decimal g n → m ≡ n
decimal-injective zero g m n hm hn e = elim hm [ ]
decimal-injective (suc f) zero m n hm hn e = elim hn [ ]
decimal-injective (suc f) (suc g) m n hm hn e = elim (Bool-cases (ltb m 10)) [
  | inl small ↦ elim (Bool-cases (ltb n 10)) [
    | inl small' ↦
        let same =
          last_digit-injective m n (rw (decimal-last f m small, decimal-last g n small') at e) in
        ground arith
    | inr large ↦ absurd (one_longer f g m n small large hn e)
  ]
  | inr large ↦ elim (Bool-cases (ltb n 10)) [
    | inl small ↦ absurd (one_longer g f n m small large hm (sym e))
    | inr large' ↦
        let (front, last) = append_inj (rw (decimal-step f m large, decimal-step g n large') at e) (
          omega (arith, ap count e, count-decimal-step f m large, count-decimal-step g n large')) in
        omega (
          arith,
          decimal-injective f g (m / 10) (n / 10) (ground arith) (ground arith) front,
          last_digit-injective m n last,
        )
  ]
]

pub format_nat-injective : (m n : ℕ) → format_nat m ≡ format_nat n → m ≡ n
unfolding format_nat
format_nat-injective m n = decimal-injective (suc m) (suc n) m n (omega arith) (omega arith)

pub numbered_name-injective :
    (prefix : String) (m n : ℕ) → prefix ⧺ format_nat m ≡ prefix ⧺ format_nat n → m ≡ n
numbered_name-injective prefix m n e = format_nat-injective m n (append_cancel_left prefix _ _ e)
