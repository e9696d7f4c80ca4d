-- ===== src/ClientExamples/ReflectorLaws.antt =====
-- What the statistics count.
use kubernetes_examples.Prelude.{
  zero, inr, str_eq_iff, inl, Bool-cases, none, str_eq, Option, if◌then◌else◌, suc, ◌+◌, ◌≤◌, ℕ,
  String, ◌≡◌, refl, ◌∙◌, List, [], ◌∷◌, some, arith, length, lookup, lookup-insert, ap,
}
use kubernetes_examples.Prelude.Int.{ℤ, pos, to_int64, bits}
use kubernetes_examples.ClientExamples.Reflector.{
  Stats, with_maps, count_of, count_up, update_last_seen, observe, observe_all, printed_count,
  no_stats,
}

abbrev with_counts : List (String × String) → List (String × ℤ) → Stats
with_counts seen counts = record { last_seen = some seen; pod_count = some counts }

one_more : (k : ℕ) → suc k ≤ 9223372036854775807 → to_int64 (bits (pos k) + 1) ≡ pos (suc k)
unfolding to_int64 bits
one_more k h = ground arith

-- What is printed for a namespace that was counted so often.
abbrev pub shown : ℕ → Option ℤ
shown zero = none
shown (suc k) = some (pos (suc k))

-- 1 where the first Pod of the list is in the namespace.
abbrev pub first_in : String → List (String × String) → ℕ
first_in ns [] = 0
first_in ns ((n, _) ∷ _) = if str_eq n ns then 1 else 0

-- The rounds in which the first Pod is in the namespace.
unfoldable pub rounds_in : String → List (String × List (String × String)) → ℕ
rounds_in ns [] = 0
rounds_in ns ((_, pods) ∷ rounds) = first_in ns pods + rounds_in ns rounds

recount : {o : Option ℤ} (m n : ℕ) → o ≡ shown m → m ≡ n → o ≡ shown n
recount m n e same = e ∙ ap shown same

count_there :
    (ns : String) (counts : List (String × ℤ)) (k : ℕ)
    → lookup ns counts ≡ shown k
    → count_of ns counts ≡ pos k
unfolding count_of
count_there ns counts zero e = ground (arith, e)
count_there ns counts (suc k) e = ground (arith, e)

lookup-count_up :
    (ns m : String) (counts : List (String × ℤ)) (k : ℕ)
    → lookup ns counts ≡ shown k
    → suc k ≤ 9223372036854775807
    → lookup ns (count_up m counts) ≡ shown ((if str_eq m ns then 1 else 0) + k)
unfolding count_up
lookup-count_up ns m counts k e h = elim (Bool-cases (str_eq m ns)) [
  | inl t ↦
      let same : m ≡ ns = (str_eq_iff m ns).0 t in
      rw (lookup-insert m ns (to_int64 (bits (count_of m counts) + 1)) counts, t)
        (rw (same, count_there ns counts k e, one_more k h)
          (recount (suc k) (1 + k) refl (omega arith)))
  | inr f ↦
      rw (lookup-insert m ns (to_int64 (bits (count_of m counts) + 1)) counts, f)
        (recount k (0 + k) e (omega arith))
]

module _ (ns : String) where
  counted_from :
      (rounds : List (String × List (String × String))) (seen : List (String × String))
      (counts : List (String × ℤ)) (k : ℕ)
      → lookup ns counts ≡ shown k
      → k + length rounds ≤ 9223372036854775807
      → (t : Stats) × (observe_all rounds (with_counts seen counts) ≡ some t)
        × (printed_count ns t ≡ shown (rounds_in ns rounds + k))
  unfolding observe_all observe update_last_seen with_maps printed_count rounds_in
  counted_from [] seen counts k e h =
      (with_counts seen counts, refl, recount k (0 + k) e (omega arith))
  counted_from ((now, []) ∷ rounds) seen counts k e h =
      let (t, run, count) = counted_from rounds seen counts k e (omega (arith, h)) in
      (t, run, recount _ _ count (omega arith))
  counted_from ((now, (n, name) ∷ _) ∷ rounds) seen counts k e h =
      let (t, run, count) =
        counted_from rounds _ (count_up n counts) ((if str_eq n ns then 1 else 0) + k)
          (lookup-count_up ns n counts k e (omega (arith, h))) (ground (arith, h)) in
      (t, run, recount _ _ count (omega arith))

  -- Whatever the store lists in each round, let the number of rounds be an int. Then no round panics, and what
  -- is printed as the number of Pods of a namespace is the number of rounds in which the first Pod listed
  -- is in that namespace; of a namespace with no such round nothing is printed.
  pub rounds_counted :
      (rounds : List (String × List (String × String)))
      → length rounds ≤ 9223372036854775807
      → (t : Stats) × (observe_all rounds no_stats ≡ some t)
        × (printed_count ns t ≡ shown (rounds_in ns rounds))
  unfolding observe_all observe update_last_seen with_maps printed_count rounds_in lookup
  rounds_counted [] h = (no_stats, refl, refl)
  rounds_counted ((now, []) ∷ rounds) h =
      let (t, run, count) = rounds_counted rounds (omega (arith, h)) in
      (t, run, recount _ _ count (omega arith))
  rounds_counted ((now, p ∷ ps) ∷ rounds) h =
      let (t, run, count) = counted_from ((now, p ∷ ps) ∷ rounds) [] [] 0 refl (omega (arith, h)) in
      (t, run, recount _ _ count (omega arith))
