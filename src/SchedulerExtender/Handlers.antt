-- ===== src/SchedulerExtender/Handlers.antt =====
-- k8s-scheduler-extender-example/predicate.go, prioritize.go, bind.go, preemption.go, and the extensions
-- and levels of main.go.
use kubernetes_examples.Prelude.Results.{Attempt, ok, err, Run, returned, panicked}
use kubernetes_examples.Prelude.{
  ℕ, String, Bool, true, List, [], ◌∷◌, map, Option, none, some, if◌then◌else◌, insert, str_eq,
}

-- `P` stands for `v1.Pod`; of a node the sources read its name. Pointers may be nil.
pub record Node : Type 0 where
  pub name : String
  pub unschedulable : Bool

pub record ExtenderArgs (P : Type 0) : Type 0 where
  pub pod : Option P
  pub nodes : Option (List Node)

pub record ExtenderFilterResult : Type 0 where
  pub nodes : Option (List Node)
  pub failed_nodes : Option (List (String × String))
  pub error : String

pub record HostPriority : Type 0 where
  pub host : String
  pub score : ℕ

pub record Predicate (P : Type 0) : Type 0 where
  pub name : String
  pub func : P → Node → Attempt Bool

pub record Prioritize (P : Type 0) : Type 0 where
  pub name : String
  pub func : P → List Node → Attempt (List HostPriority)

pub record BindingArgs : Type 0 where
  pub pod_name : String
  pub pod_namespace : String
  pub pod_uid : String
  pub node : String

-- `none` is a nil error.
pub record Bind : Type 0 where
  pub func : BindingArgs → Option String

-- `X` and `Y` are the maps of victims.
pub record PreemptionArgs (P X Y : Type 0) : Type 0 where
  pub pod : Option P
  pub victims : X
  pub meta_victims : Y

pub record Preemption (P X Y : Type 0) : Type 0 where
  pub func : P → X → Y → Y

module _ {P : Type 0} where
  -- The loop, from its last round to its first: `canSchedule` collects the nodes that follow, and
  -- `canNotSchedule` is built by the rounds before.
  unfoldable pub fitting : Predicate P → P → List Node → List Node
  fitting p pod [] = []
  fitting p pod (node ∷ nodes) =
      let rest = fitting p pod nodes in
      elim (p.func pod node) [ err _ ↦ rest | ok b ↦ if b then node ∷ rest else rest ]

  unfoldable pub failing :
      Predicate P → P → List Node → List (String × String) → List (String × String)
  failing p pod [] cannot = cannot
  failing p pod (node ∷ nodes) cannot = elim (p.func pod node) [
    | err e ↦ failing p pod nodes (insert node.name e cannot)
    | ok _ ↦ failing p pod nodes cannot
  ]

  unfoldable pub filter_result : Predicate P → P → List Node → ExtenderFilterResult
  filter_result p pod nodes = record {
    nodes = some (fitting p pod nodes);
    failed_nodes = some (failing p pod nodes []);
    error = "";
  }

  -- `args.Nodes` is read first; `*pod` is read in the loop.
  unfoldable pub filter_nodes : Predicate P → Option P → List Node → Run ExtenderFilterResult
  filter_nodes p none [] = returned (record { nodes = some []; failed_nodes = some []; error = "" })
  filter_nodes p none (_ ∷ _) = panicked
  filter_nodes p (some pod) nodes = returned (filter_result p pod nodes)

  unfoldable pub predicate_handler : Predicate P → ExtenderArgs P → Run ExtenderFilterResult
  predicate_handler p args = elim args.nodes [
    | none ↦ panicked
    | some nodes ↦ filter_nodes p args.pod nodes
  ]

  unfoldable pub prioritize_nodes :
      Prioritize P → P → Option (List Node) → Run (Attempt (List HostPriority))
  prioritize_nodes p pod none = panicked
  prioritize_nodes p pod (some nodes) = returned (p.func pod nodes)

  unfoldable pub prioritize_handler :
      Prioritize P → ExtenderArgs P → Run (Attempt (List HostPriority))
  prioritize_handler p args = elim args.pod [
    | none ↦ panicked
    | some pod ↦ prioritize_nodes p pod args.nodes
  ]

  unfoldable pub preemption_handler :
      {X Y : Type 0} → Preemption P X Y → PreemptionArgs P X Y → Run Y
  preemption_handler p args = elim args.pod [
    | none ↦ panicked
    | some pod ↦ returned (p.func pod args.victims args.meta_victims)
  ]

  unfoldable pub true_predicate : Predicate P
  true_predicate = record { name = "always_true"; func = λ pod node. ok true }

  unfoldable pub zero_priority : Prioritize P
  zero_priority = record {
    name = "zero_score";
    func = λ pod nodes. ok (map (λ n. record { host = n.name; score = 0 }) nodes);
  }

  unfoldable pub echo_preemption : {X Y : Type 0} → Preemption P X Y
  echo_preemption = record { func = λ pod victims meta_victims. meta_victims }

-- `err.Error()` of a nil error panics; the result holds the text of the error.
unfoldable pub bind_handler : Bind → BindingArgs → Run String
bind_handler b args = elim (b.func args) [ none ↦ panicked | some e ↦ returned e ]

unfoldable pub no_bind : Bind
no_bind = record {
  func = λ args.
      some
        "This extender doesn't support Bind.  Please make 'BindVerb' be empty in your ExtenderConfig.";
}

-- `colog.Level`
pub data Level : Type 0 where
  trace debug info warning error alert : Level

-- `upper` is `strings.ToUpper`.
unfoldable pub string_to_level : (upper : String → String) → String → Level
string_to_level upper s =
    let level = upper s in
    if str_eq level "TRACE"
    then trace
    else if str_eq level "DEBUG"
    then debug
    else if str_eq level "INFO"
    then info
    else if str_eq level "WARNING"
    then warning
    else if str_eq level "ERROR"
    then error
    else if str_eq level "ALERT"
    then alert
    else info
