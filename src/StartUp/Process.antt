-- ===== src/StartUp/Process.antt =====
-- Main functions: calls of other packages, each of which answers with an error or none, and ends of the
-- process where a call fails.
use kubernetes_examples.Prelude.{
  inr, ap, inl, Option-cases, ℕ, String, ◌≡◌, refl, List, [], ◌∷◌, ◌++◌, Option, none, some,
}

-- How main ends before its last line: `os.Exit`, a fatal log entry, a panic, or an early return.
pub data Ending : Type 0 where
  exited : ℕ → Ending
  fatal : Ending
  panicked : Ending
  gave_up : Ending

pub data Reached : Type 0 where
  going : Reached
  ended : Ending → Reached

-- A stretch of main, with its calls in order.
abbrev pub Process : Type 0 → Type 0 → Type 0
Process W C = W → Reached × List C × W

abbrev reached : Option String → Ending → Reached
reached none e = going
reached (some _) e = ended e

module _ {W C : Type 0} where
  abbrev pub pass : Process W C
  pass w = (going, [], w)

  abbrev pub stop : Ending → Process W C
  stop e w = (ended e, [], w)

  abbrev proceed : Reached → List C → W → Process W C → Reached × List C × W
  proceed going cs w k = let (r, more, w') = k w in (r, cs ++ more, w')
  proceed (ended e) cs w k = (ended e, cs, w)

  infixl 5 ◌>>◌
  abbrev pub ◌>>◌ : Process W C → Process W C → Process W C
  ◌>>◌ m k w = let (r, cs, w') = m w in proceed r cs w' k

  module _ (answers : C → W → Option String × W) where
    -- `if err := c; err != nil { … }`, where the block ends the process.
    abbrev pub need : C → Ending → Process W C
    need c e w = let (r, w') = answers c w in (reached r e, c ∷ [], w')

    -- A call whose error is not looked at, or is only logged.
    abbrev pub call : C → Process W C
    call c w = (going, c ∷ [], (answers c w).1)

    -- A list of calls, each with what its failure comes to: they are made in turn, as long as none fails.
    unfoldable pub follow : List (C × Ending) → Process W C
    follow [] w = (going, [], w)
    follow ((c, e) ∷ plan) w =
        let (r, w') = answers c w in
        elim r [
          | some _ ↦ (ended e, c ∷ [], w')
          | none ↦ (let (end, cs, last) = follow plan w' in (end, c ∷ cs, last))
        ]

    pub need-follow :
        (c : C) (e : Ending) (k : Process W C) (plan : List (C × Ending)) (w : W)
        → ((u : W) → k u ≡ follow plan u)
        → (need c e >> k) w ≡ follow ((c, e) ∷ plan) w
    unfolding follow
    need-follow c e k plan w same = elim (Option-cases (answers c w).0) [
      | inl r ↦ rw (follow, r) (ap (λ run. (run.0, c ∷ run.1, run.2)) (same (answers c w).1))
      | inr (x, r) ↦ rw (follow, r) refl
    ]
