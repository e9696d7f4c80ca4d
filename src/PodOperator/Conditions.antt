-- ===== src/PodOperator/Conditions.antt =====
-- The conditions of a PodManager: `SetCondition` and `RemoveCondition` against a finite map from types
-- to conditions.
use kubernetes_examples.Prelude.{
  String, false, ◌≡◌, refl, List, [], ◌∷◌, Option, none, some, if◌then◌else◌, arith, str_eq,
  str_eq_iff, Bool-cases, inl, inr,
}
use kubernetes_examples.PodOperator.Types.{
  PodCondition, PodManagerStatus, set_in, set_condition, remove_in, remove_condition,
}

-- The first condition of a type.
unfoldable pub find_condition : String → List PodCondition → Option PodCondition
find_condition type [] = none
find_condition type (c ∷ cs) = if str_eq c.type type then some c else find_condition type cs

-- What a type holds after `SetCondition`: a condition of the same status stays as it was.
unfoldable pub refreshed : PodCondition → Option PodCondition → PodCondition
refreshed cond none = cond
refreshed cond (some c) = if str_eq c.status cond.status then c else cond

set_in-find :
    (type : String) (cond : PodCondition) (cs : List PodCondition)
    → find_condition type (set_in cond cs) ≡ (
        if str_eq cond.type type
        then some (refreshed cond (find_condition cond.type cs))
        else find_condition type cs)
unfolding set_in find_condition refreshed
set_in-find type cond [] = refl
set_in-find type cond (c ∷ cs) = ground (
  arith,
  set_in-find type cond cs,
  str_eq_iff c.type cond.type,
  str_eq_iff c.type type,
  str_eq_iff cond.type type,
)

-- After `SetCondition` the condition's type holds it, or the condition that it held if that has the
-- same status; every other type holds what it held.
pub set_condition-find :
    (type : String) (cond : PodCondition) (m : PodManagerStatus)
    → find_condition type (set_condition cond m).conditions ≡ (
        if str_eq cond.type type
        then some (refreshed cond (find_condition cond.type m.conditions))
        else find_condition type m.conditions)
unfolding set_condition
set_condition-find type cond m = set_in-find type cond m.conditions

-- No condition of the type.
abbrev pub IsFresh : String → List PodCondition → Type 0
IsFresh type [] = Unit
IsFresh type (c ∷ cs) = (str_eq c.type type ≡ false) × IsFresh type cs

-- At most one condition of each type.
abbrev pub IsDistinct : List PodCondition → Type 0
IsDistinct [] = Unit
IsDistinct (c ∷ cs) = IsFresh c.type cs × IsDistinct cs

set_in-IsFresh :
    (type : String) (cond : PodCondition) (cs : List PodCondition)
    → str_eq cond.type type ≡ false
    → IsFresh type cs
    → IsFresh type (set_in cond cs)
unfolding set_in
set_in-IsFresh type cond [] ne f = (ne, tt)
set_in-IsFresh type cond (c ∷ cs) ne f = ground (arith, set_in-IsFresh type cond cs ne f.1)

IsFresh-subst : (s t : String) (cs : List PodCondition) → s ≡ t → IsFresh s cs → IsFresh t cs
IsFresh-subst s t cs e f = rw (← e) f

set_in-IsDistinct :
    (cond : PodCondition) (cs : List PodCondition) → IsDistinct cs → IsDistinct (set_in cond cs)
unfolding set_in
set_in-IsDistinct cond [] d = (tt, tt)
set_in-IsDistinct cond (c ∷ cs) (f, d) = elim (Bool-cases (str_eq c.type cond.type)) [
  | inl same ↦ elim (Bool-cases (str_eq c.status cond.status)) [
    | inl e ↦ rw (same, e) (f, d)
    | inr e ↦ rw (same, e) (IsFresh-subst _ _ cs ((str_eq_iff _ _).0 same) f, d)
  ]
  | inr other ↦ rw other (
    set_in-IsFresh c.type cond cs
        (ground (arith, str_eq_iff c.type cond.type, str_eq_iff cond.type c.type)) f,
    set_in-IsDistinct cond cs d,
  )
]

IsFresh-find :
    (type : String) (cs : List PodCondition) → IsFresh type cs → find_condition type cs ≡ none
unfolding find_condition
IsFresh-find type [] f = refl
IsFresh-find type (c ∷ cs) (e, f) = rw e (IsFresh-find type cs f)

-- `SetCondition` keeps at most one condition of each type.
set_condition-IsDistinct :
    (cond : PodCondition) (m : PodManagerStatus)
    → IsDistinct m.conditions
    → IsDistinct (set_condition cond m).conditions
unfolding set_condition
set_condition-IsDistinct cond m d = set_in-IsDistinct cond m.conditions d

remove_in-find :
    (type other : String) (cs : List PodCondition)
    → IsDistinct cs
    → find_condition other (remove_in type cs)
      ≡ (if str_eq type other then none else find_condition other cs)
unfolding remove_in find_condition
remove_in-find type other [] d = ground arith
remove_in-find type other (c ∷ cs) (f, d) = ground (
  arith,
  remove_in-find type other cs d,
  str_eq_iff c.type type,
  str_eq_iff c.type other,
  str_eq_iff type other,
  IsFresh-find c.type cs f,
)

-- Where each type has at most one condition, `RemoveCondition` leaves none of its type and every other
-- type as it was.
remove_condition-find :
    (type other : String) (m : PodManagerStatus)
    → IsDistinct m.conditions
    → find_condition other (remove_condition type m).conditions
      ≡ (if str_eq type other then none else find_condition other m.conditions)
unfolding remove_condition
remove_condition-find type other m d = remove_in-find type other m.conditions d

-- Where each type has at most one condition, a status is a finite map from types to conditions. After
-- `SetCondition` each type still has at most one; the type of the condition holds it, or the condition
-- that it held if that has the same status, and every other type holds what it held. After
-- `RemoveCondition` its type holds none and every other type what it held.
pub conditions_are_map :
    (type read : String) (cond : PodCondition) (m : PodManagerStatus)
    → IsDistinct m.conditions
    → IsDistinct (set_condition cond m).conditions
      × (find_condition read (set_condition cond m).conditions ≡ (
          if str_eq cond.type read
          then some (refreshed cond (find_condition cond.type m.conditions))
          else find_condition read m.conditions))
      × (find_condition read (remove_condition type m).conditions
          ≡ (if str_eq type read then none else find_condition read m.conditions))
conditions_are_map type read cond m d = (
  set_condition-IsDistinct cond m d,
  set_condition-find read cond m,
  remove_condition-find type read m d,
)
