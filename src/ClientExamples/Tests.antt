-- ===== src/ClientExamples/Tests.antt =====
-- The scripts at a server that makes up numbers for names.
use kubernetes_examples.Prelude.{
  ℕ, suc, ◌+◌, ◌<◌, String, Bool, true, false, ◌≡◌, ◌⊎◌, ◌↔◌, refl, List, [], ◌∷◌, Option, none,
  some, arith, if◌then◌else◌, str_eq, str_eq_iff, str_eq_of_ne,
}
use kubernetes_examples.Prelude.Decimal.{format_nat}
use kubernetes_examples.Prelude.Decimal.Injective.{format_nat-injective}
use kubernetes_examples.Prelude.Results.{ok, returned, panicked}
use kubernetes_examples.ClientExamples.ConfigMaps.{ConfigMap, ConfigMapClient, HealthyServer}
use kubernetes_examples.ClientExamples.Scripts.{
  namespace, exercise, dynamic_informer, typed_informer,
}
use kubernetes_examples.ClientExamples.ScriptLaws.{IsCleaned, programs-IsCleaned}
use kubernetes_examples.ClientExamples.Dynamic.{manage_example}
use kubernetes_examples.Prelude.Int.{pos}
use kubernetes_examples.ClientExamples.Reflector.{Stats, observe_all, no_stats, printed_count}
use kubernetes_examples.ClientExamples.ReflectorLaws.{rounds_in, rounds_counted}
use kubernetes_examples.ClientExamples.DynamicLaws.{manage_example-panicked_iff}

-- A number beyond all of the list.
unused : List ℕ → ℕ
unused [] = 0
unused (k ∷ ks) = suc (k + unused ks)

taken : String → List ℕ → Bool
taken m [] = false
taken m (k ∷ ks) = let rest = taken m ks in if str_eq (format_nat k) m then true else rest

without : String → List ℕ → List ℕ
without m [] = []
without m (k ∷ ks) = let rest = without m ks in if str_eq (format_nat k) m then rest else k ∷ rest

not-taken : (n : ℕ) (ks : List ℕ) → unused ks < suc n → taken (format_nat n) ks ≡ false
unfolding taken unused
not-taken n [] h = refl
not-taken n (k ∷ ks) h =
    rw
      (
        str_eq_of_ne (format_nat k) (format_nat n)
            (λ e. let same = format_nat-injective k n e in absurd (omega (arith, h, same))),
        not-taken n ks (omega (arith, h)),
      )
      refl

taken-without :
    (n m : String) (ks : List ℕ)
    → taken m (without n ks) ≡ (if str_eq n m then false else taken m ks)
unfolding taken without
taken-without n m [] = ground arith
taken-without n m (k ∷ ks) = ground (
  arith,
  taken-without n m ks,
  str_eq_iff (format_nat k) n,
  str_eq_iff (format_nat k) m,
  str_eq_iff n m,
)

unfoldable drop_taken : String → List ℕ → Option String × List ℕ
drop_taken n ks = if taken n ks then (none, without n ks) else (some "not found", ks)

abbrev numbered : ℕ → ConfigMap → ConfigMap
numbered n cm = record cm { namespace = namespace; name = format_nat n }

abbrev empty_map : ConfigMap
empty_map = record {
  namespace = "default";
  name = "example-config";
  generate_name = "";
  labels = [];
  data' = none;
}

abbrev numbering : ConfigMapClient (List ℕ)
numbering = record {
  create = λ ns cm w. (ok (numbered (unused w) cm), unused w ∷ w);
  get = λ ns n w. (ok empty_map, w);
  update = λ ns cm w. (ok cm, w);
  delete = λ ns n w. drop_taken n w;
  synced = λ w. true;
  lister_list = λ labels w. ok (empty_map ∷ []);
}

dropped : (n : String) (w : List ℕ) → taken n w ≡ true → drop_taken n w ≡ (none, without n w)
unfolding drop_taken
dropped n w there = rw there refl

healthy : HealthyServer numbering namespace
unfolding taken
healthy = record {
  exists = λ m w. taken m w;
  create-made = λ cm w. (
    numbered (unused w) cm,
    unused w ∷ w,
    refl,
    refl,
    not-taken (unused w) w (omega arith),
    λ m. refl,
  );
  delete-gone = λ n w there. (without n w, dropped n w there, λ m. taken-without n m w);
}

programs-IsCleaned_example :
    ((w' : List ℕ) × (exercise numbering (3 ∷ []) ≡ (returned tt, w'))
      × ((m : String) → healthy.exists m w' ≡ healthy.exists m (3 ∷ [])))
    × IsCleaned numbering healthy (3 ∷ []) (dynamic_informer numbering "example-x" (3 ∷ []))
    × IsCleaned numbering healthy (3 ∷ []) (typed_informer numbering "example-x" (3 ∷ []))
programs-IsCleaned_example = programs-IsCleaned numbering healthy "example-x" (3 ∷ [])

manage_example-panicked_iff_example :
    let run = manage_example numbering [] in
    ((run.0 ≡ panicked) ↔ ((obj : ConfigMap) × (ok empty_map ≡ ok obj) × (obj.data' ≡ none)))
    × ((run ≡ (panicked, 0 ∷ []))
        ⊎ ((last : List ℕ) × (run ≡ (returned tt, (drop_taken "example-config" last).1))))
unfolding unused
manage_example-panicked_iff_example = manage_example-panicked_iff numbering []

-- Two Pods in two namespaces; the store lists them in either order.
abbrev three_rounds : List (String × List (String × String))
three_rounds =
    ("10:00", ("default", "web") ∷ ("kube-system", "dns") ∷ [])
    ∷ ("10:02", ("kube-system", "dns") ∷ ("default", "web") ∷ [])
    ∷ ("10:04", ("default", "web") ∷ ("kube-system", "dns") ∷ [])
    ∷ []

rounds_counted_example :
    (t : Stats) × (observe_all three_rounds no_stats ≡ some t)
    × (printed_count "default" t ≡ some (pos 2))
unfolding rounds_in str_eq
rounds_counted_example = rounds_counted "default" three_rounds (omega arith)
