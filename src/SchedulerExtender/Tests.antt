-- ===== src/SchedulerExtender/Tests.antt =====
-- The theorems about the extender at concrete requests.
use kubernetes_examples.Prelude.Results.{err, ok, panicked, returned}
use kubernetes_examples.Prelude.{
  Mem, ℕ, String, Bool, true, false, ◌≡◌, ◌⊎◌, ◌↔◌, refl, List, [], ◌∷◌, none, some, if◌then◌else◌,
  lookup, zero, suc,
}
use kubernetes_examples.SchedulerExtender.Handlers.{
  Node, ExtenderArgs, ExtenderFilterResult, Predicate, Bind, BindingArgs, predicate_handler,
}
use kubernetes_examples.SchedulerExtender.Routes.{Json, predicate_route, bind_route}
use kubernetes_examples.SchedulerExtender.Laws.{
  last_error, predicate_handler-answer, predicate_route-panicked_iff, bind_route-panicked_iff,
}

abbrev node : String → Bool → Node
node name busy = record { name = name; unschedulable = busy }

-- It refuses unschedulable nodes with an error.
abbrev schedulable : Predicate ℕ
schedulable = record {
  name = "schedulable";
  func = λ pod n. if n.unschedulable then err "unschedulable" else ok true;
}

abbrev nodes : List Node
nodes = node "a" false ∷ node "b" true ∷ []

predicate_handler-answer_example :
    (r : ExtenderFilterResult) × (can : List Node) × (cannot : List (String × String))
    × (predicate_handler schedulable (record { pod = some 1; nodes = some nodes }) ≡ returned r)
    × (r.nodes ≡ some can)
    × (r.failed_nodes ≡ some cannot)
    × ((n : Node) → Mem n can ↔ (Mem n nodes × (schedulable.func 1 n ≡ ok true)))
    × ((name : String) → lookup name cannot ≡ last_error schedulable 1 nodes name)
predicate_handler-answer_example = predicate_handler-answer schedulable 1 nodes

-- The number 0 decodes as a request, every other does not; every answer is encoded.
abbrev numbers : {A R : Type 0} → A → Json ℕ Bool A R
numbers a = record {
  decode = λ b. elim b [ zero ↦ ok a | suc _ ↦ err "bad request" ];
  marshal = λ r. ok true;
}

abbrev filtering : Json ℕ Bool (ExtenderArgs ℕ) ExtenderFilterResult
filtering = numbers (record { pod = none; nodes = some nodes })

abbrev binding_args : BindingArgs
binding_args = record { pod_name = "p"; pod_namespace = "default"; pod_uid = "u"; node = "a" }

abbrev binding : Json ℕ Bool BindingArgs String
binding = numbers binding_args

abbrev binds : Bind
binds = record { func = λ args. none }

predicate_route-panicked_iff_example :
    ((args : ExtenderArgs ℕ)
      → filtering.decode 0 ≡ ok args
      → ((predicate_route filtering schedulable (some 0)).outcome ≡ panicked) ↔ (
          (args.nodes ≡ none)
          ⊎ ((n : Node) × (ns : List Node) × (args.nodes ≡ some (n ∷ ns)) × (args.pod ≡ none))))
    × ((e : String)
        → filtering.decode 0 ≡ err e
        → (predicate_route filtering schedulable (some 0)).outcome ≡ returned tt)
predicate_route-panicked_iff_example =
    predicate_route-panicked_iff filtering schedulable (λ r. (true, refl)) 0

bind_route-panicked_iff_example :
    ((bind_route binding binds (some 0)).outcome ≡ panicked) ↔ (binds.func binding_args ≡ none)
bind_route-panicked_iff_example =
    bind_route-panicked_iff binding binds (λ e. (true, refl)) 0 binding_args refl
