-- ===== src/Kube/Memory.antt =====
-- Memory: a slice is an address, so that two objects may share its elements.
use kubernetes_examples.Prelude.{
  ◌∙◌, ℕ, suc, ◌≤◌, ◌<◌, ◌≡◌, refl, List, Option, none, some, ◌==◌, if◌then◌else◌, arith,
}

-- `next` is the first address that is free.
pub record Memory (E : Type 0) : Type 0 where
  pub next : ℕ
  pub cell : ℕ → List E

-- A slice is nil, or the address of its elements.
abbrev pub Slice : Type 0
Slice = Option ℕ

-- The slice has been made before the address `n`, or from there on.
unfoldable pub IsBelow : ℕ → Slice → Type 0
IsBelow n none = Unit {0}
IsBelow n (some p) = p < n

unfoldable pub IsFrom : ℕ → Slice → Type 0
IsFrom n none = Unit {0}
IsFrom n (some p) = n ≤ p

pub IsBelow-mono : (s : Slice) {m n : ℕ} → m ≤ n → IsBelow m s → IsBelow n s
unfolding IsBelow
IsBelow-mono none h b = tt
IsBelow-mono (some p) h b = omega arith

pub IsFrom-mono : (s : Slice) {m n : ℕ} → m ≤ n → IsFrom n s → IsFrom m s
unfolding IsFrom
IsFrom-mono none h b = tt
IsFrom-mono (some p) h b = omega arith

module _ {E : Type 0} where
  -- What a slice shows: nil, or its elements.
  unfoldable pub elements : Memory E → Slice → Option (List E)
  elements mem none = none
  elements mem (some p) = some (mem.cell p)

  -- Elements written in place.
  unfoldable pub write_cell : ℕ → List E → Memory E → Memory E
  write_cell p es mem = record mem { cell = λ q. if p == q then es else mem.cell q }

  -- `make`, and the elements written to it.
  unfoldable pub make_slice : List E → Memory E → Slice × Memory E
  make_slice es mem = (
    some mem.next,
    record { next = suc mem.next; cell = λ q. if mem.next == q then es else mem.cell q },
  )

  -- Everything that `mem` shows, `mem'` shows as well.
  pub record Extends (mem mem' : Memory E) : Type 0 where
    pub grows : mem.next ≤ mem'.next
    pub shows : (s : Slice) → IsBelow mem.next s → elements mem' s ≡ elements mem s

  pub Extends-refl : (mem : Memory E) → Extends mem mem
  Extends-refl mem = record { grows = omega arith; shows = λ s h. refl }

  pub Extends-trans : {a b c : Memory E} → Extends a b → Extends b c → Extends a c
  Extends-trans {a} {b} {c} f g = record {
    grows = omega (arith, f.grows, g.grows);
    shows = λ s h. g.shows s (IsBelow-mono s f.grows h) ∙ f.shows s h;
  }

  old_shows :
      (es : List E) (mem : Memory E) (s : Slice)
      → IsBelow mem.next s
      → elements (make_slice es mem).1 s ≡ elements mem s
  unfolding elements make_slice IsBelow
  old_shows es mem none h = refl
  old_shows es mem (some p) h = ground arith

  pub make_slice-Extends : (es : List E) (mem : Memory E) → Extends mem (make_slice es mem).1
  unfolding make_slice
  make_slice-Extends es mem = record { grows = omega arith; shows = λ s h. old_shows es mem s h }

  pub make_slice-shows :
      (es : List E) (mem : Memory E)
      → elements (make_slice es mem).1 (make_slice es mem).0 ≡ some es
  unfolding make_slice elements
  make_slice-shows es mem = ground arith

  pub make_slice-IsFrom : (es : List E) (mem : Memory E) → IsFrom mem.next (make_slice es mem).0
  unfolding make_slice IsFrom
  make_slice-IsFrom es mem = omega arith

  -- A write to what was made before does not show in what was made from there on.
  pub write_below :
      (n p : ℕ) (es : List E) (mem : Memory E) (s : Slice)
      → p < n
      → IsFrom n s
      → elements (write_cell p es mem) s ≡ elements mem s
  unfolding write_cell elements IsFrom
  write_below n p es mem none h f = refl
  write_below n p es mem (some q) h f = ground arith

  -- A write to what was made from there on does not show in what was made before.
  pub write_from :
      (n p : ℕ) (es : List E) (mem : Memory E) (s : Slice)
      → n ≤ p
      → IsBelow n s
      → elements (write_cell p es mem) s ≡ elements mem s
  unfolding write_cell elements IsBelow
  write_from n p es mem none h f = refl
  write_from n p es mem (some q) h f = ground arith
