-- ===== src/SchedulerExtender/SetUp.antt =====
-- k8s-scheduler-extender-example/main.go: the routes that main adds before the server starts.
use kubernetes_examples.Prelude.{List, [], ◌∷◌}
use kubernetes_examples.SchedulerExtender.Handlers.{
  Predicate, Prioritize, Bind, true_predicate, zero_priority, no_bind,
}
use kubernetes_examples.SchedulerExtender.Routes.{
  Router, add_version, add_predicate, add_prioritize, add_bind,
}

-- The handlers of the routes: `VersionRoute`, `PredicateRoute`, `PrioritizeRoute` and `BindRoute`, each in
-- `DebugLogging`.
pub record RouteHandlers (P H : Type 0) : Type 0 where
  pub version_route : H
  pub predicate_route_of : Predicate P → H
  pub prioritize_route_of : Prioritize P → H
  pub bind_route_of : Bind → H

module _ {S P H : Type 0} (router : Router S H) (routes : RouteHandlers P H) where
  -- `for _, p := range predicates`
  unfoldable pub add_predicates : List (Predicate P) → S → S
  add_predicates [] s = s
  add_predicates (p ∷ ps) s =
      add_predicates ps (add_predicate router p (routes.predicate_route_of p) s)

  unfoldable pub add_priorities : List (Prioritize P) → S → S
  add_priorities [] s = s
  add_priorities (p ∷ ps) s =
      add_priorities ps (add_prioritize router p (routes.prioritize_route_of p) s)

  unfoldable pub set_up : S → S
  set_up s = add_bind router (routes.bind_route_of no_bind) (
      add_priorities (zero_priority ∷ [])
        (add_predicates (true_predicate ∷ []) (add_version router routes.version_route s)))
