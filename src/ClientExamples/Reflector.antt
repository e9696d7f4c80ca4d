-- ===== src/ClientExamples/Reflector.antt =====
-- The statistics of client-go/using-reflector/examples/advanced_example.go. The reflector fills a store, whose
-- lists of Pods are a parameter; its locks, timers and signals are left out.
use kubernetes_examples.Prelude.{◌+◌, String, List, [], ◌∷◌, Option, none, some, insert, lookup}
use kubernetes_examples.Prelude.Int.{ℤ, pos, to_int64, bits}
use kubernetes_examples.Prelude.Decimal.{◌⧺◌}

infixl 5 ◌>>=◌
abbrev pub ◌>>=◌ : {A B : Type 0} → Option A → (A → Option B) → Option B
◌>>=◌ none f = none
◌>>=◌ (some a) f = f a

-- `Stats`; none is a nil map.
pub record Stats : Type 0 where
  pub last_seen : Option (List (String × String))
  pub pod_count : Option (List (String × ℤ))

-- `if s.lastSeen == nil { … }`
unfoldable pub with_maps : Stats → Stats
with_maps s = elim s.last_seen [
  | none ↦ record { last_seen = some []; pod_count = some [] }
  | some seen ↦ s
]

-- The number that a key has, 0 where it has none.
unfoldable pub count_of : String → List (String × ℤ) → ℤ
count_of ns counts = elim (lookup ns counts) [ none ↦ pos 0 | some n ↦ n ]

-- `s.podCount[namespace]++` on an int.
unfoldable pub count_up : String → List (String × ℤ) → List (String × ℤ)
count_up ns counts = insert ns (to_int64 (bits (count_of ns counts) + 1)) counts

-- `m[key] = v` panics on a nil map: none.
unfoldable pub update_last_seen : (now namespace name : String) → Stats → Option Stats
update_last_seen now namespace name s = do
  let t = with_maps s
  seen ← t.last_seen
  counts ← t.pod_count
  some (record {
    last_seen = some (insert (namespace ⧺ "/" ⧺ name) now seen);
    pod_count = some (count_up namespace counts);
  })

-- One round of the goroutine that watches the store, on the namespaces and names of its Pods.
unfoldable pub observe : String → List (String × String) → Stats → Option Stats
observe now [] s = some s
observe now ((namespace, name) ∷ pods) s = update_last_seen now namespace name s

-- Rounds, by their times and by what the store lists in each. A store lists its objects in no fixed order.
unfoldable pub observe_all : List (String × List (String × String)) → Stats → Option Stats
observe_all [] s = some s
observe_all ((now, pods) ∷ rounds) s = do t ← observe now pods s; observe_all rounds t

-- What `Print` says of a namespace.
unfoldable pub printed_count : String → Stats → Option ℤ
printed_count ns s = do counts ← s.pod_count; lookup ns counts

abbrev pub no_stats : Stats
no_stats = record { last_seen = none; pod_count = none }
