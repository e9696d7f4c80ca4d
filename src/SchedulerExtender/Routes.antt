-- ===== src/SchedulerExtender/Routes.antt =====
-- k8s-scheduler-extender-example/routes.go: the HTTP handlers. Log entries are left out; so is
-- `DebugLogging`, which only writes them around its handler.
use kubernetes_examples.Prelude.Results.{Attempt, Run, err, ok, panicked, returned}
use kubernetes_examples.Prelude.{ℕ, String, List, [], ◌∷◌, ◌++◌, Option, none, some}
use kubernetes_examples.Prelude.Decimal.{◌⧺◌}
use kubernetes_examples.SchedulerExtender.Handlers.{
  ExtenderArgs, ExtenderFilterResult, HostPriority, Predicate, Prioritize, Bind, BindingArgs,
  Preemption, PreemptionArgs, predicate_handler, prioritize_handler, bind_handler,
  preemption_handler,
}

-- What a handler does to the response writer, in order. `V` is the type of encoded bodies.
pub data Write (V : Type 0) : Type 0 where
  http_error : String → ℕ → Write V
  content_type : String → Write V
  write_header : ℕ → Write V
  write_body : V → Write V

-- The writes of a handler, and whether it returned.
pub record Served (V : Type 0) : Type 0 where
  pub writes : List (Write V)
  pub outcome : Run (Unit {0})

-- JSON for requests of type `A` and answers of type `R`.
pub record Json (B V A R : Type 0) : Type 0 where
  pub decode : B → Attempt A
  pub marshal : R → Attempt V

module _ {B V A R : Type 0} (json : Json B V A R) where
  -- The end of each route.
  unfoldable pub respond : List (Write V) → R → Served V
  respond before r = elim (json.marshal r) [
    | err e ↦ record { writes = before; outcome = panicked }
    | ok v ↦ record {
      writes = before ++ content_type "application/json" ∷ write_header 200 ∷ write_body v ∷ [];
      outcome = returned tt;
    }
  ]

  unfoldable pub respond_run : Run R → Served V
  respond_run panicked = record { writes = []; outcome = panicked }
  respond_run (returned r) = respond [] r

  -- `checkBody` answers 400 to a nil body but does not end the route, whose decoder then panics.
  unfoldable pub with_body : Option B → (Attempt A → Served V) → Served V
  with_body none route = record {
    writes = http_error "Please send a request body" 400 ∷ [];
    outcome = panicked;
  }
  with_body (some b) route = route (json.decode b)

unfoldable pub prioritized : Run (Attempt (List HostPriority)) → Run (List HostPriority)
prioritized panicked = panicked
prioritized (returned (err e)) = panicked
prioritized (returned (ok list)) = returned list

unfoldable pub returned_some : {Y : Type 0} → Run Y → Run (Option Y)
returned_some panicked = panicked
returned_some (returned y) = returned (some y)

module _ {B V : Type 0} where
  -- The answer is the text of an error.
  unfoldable pub bind_route : Json B V BindingArgs String → Bind → Option B → Served V
  bind_route json b body = with_body json body λ decoded. elim decoded [
    | err e ↦ respond json [] e
    | ok args ↦ respond_run json (bind_handler b args)
  ]

module _ {B V P : Type 0} where
  unfoldable pub predicate_route :
      Json B V (ExtenderArgs P) ExtenderFilterResult → Predicate P → Option B → Served V
  predicate_route json p body = with_body json body λ decoded. elim decoded [
    | err e ↦ respond json [] (record { nodes = none; failed_nodes = none; error = e })
    | ok args ↦ respond_run json (predicate_handler p args)
  ]

  unfoldable pub prioritize_route :
      Json B V (ExtenderArgs P) (List HostPriority) → Prioritize P → Option B → Served V
  prioritize_route json p body = with_body json body λ decoded. elim decoded [
    | err e ↦ record { writes = []; outcome = panicked }
    | ok args ↦ respond_run json (prioritized (prioritize_handler p args))
  ]

  -- `none` is the nil result, which is encoded and written even after the status 400.
  unfoldable pub preemption_route :
      {X Y : Type 0}
      → Json B V (PreemptionArgs P X Y) (Option Y)
      → Preemption P X Y
      → Option B
      → Served V
  preemption_route json p body = with_body json body λ decoded. elim decoded [
    | err e ↦ respond json (content_type "application/json" ∷ write_header 400 ∷ []) none
    | ok args ↦ respond_run json (returned_some (preemption_handler p args))
  ]

-- `httprouter.Router` with handlers of type `H`; only the methods POST and GET are used.
pub record Router (S H : Type 0) : Type 0 where
  pub lookup : String → String → S → Option H
  pub handle : String → String → H → S → S

module _ {S H : Type 0} (router : Router S H) where
  unfoldable pub add_version : H → S → S
  add_version route s = router.handle "GET" "/version" route s

  unfoldable pub add_predicate : {P : Type 0} → Predicate P → H → S → S
  add_predicate p route s = router.handle "POST" ("/scheduler/predicates/" ⧺ p.name) route s

  unfoldable pub add_prioritize : {P : Type 0} → Prioritize P → H → S → S
  add_prioritize p route s = router.handle "POST" ("/scheduler/priorities/" ⧺ p.name) route s

  -- A second call changes nothing.
  unfoldable pub add_bind : H → S → S
  add_bind route s = elim (router.lookup "POST" "/scheduler/bind" s) [
    | some _ ↦ s
    | none ↦ router.handle "POST" "/scheduler/bind" route s
  ]

  unfoldable pub add_preemption : H → S → S
  add_preemption route s = elim (router.lookup "POST" "/scheduler/preemption" s) [
    | some _ ↦ s
    | none ↦ router.handle "POST" "/scheduler/preemption" route s
  ]
