-- ===== src/SchedulerExtender/SetUpTests.antt =====
-- The routes of the scheduler extender on a router that keeps them in a list.
use kubernetes_examples.Prelude.{str_eq, String, ◌≡◌, refl, List, [], ◌∷◌, none, ℕ}
use kubernetes_examples.SchedulerExtender.Routes.{Router}
use kubernetes_examples.SchedulerExtender.SetUp.{RouteHandlers, set_up}
use kubernetes_examples.SchedulerExtender.SetUpLaws.{RouterLaw, table, route_in, set_up-lookup}

abbrev list_router : Router (List (String × String × String)) String
list_router = record { lookup = route_in; handle = λ m p h s. (m, p, h) ∷ s }

abbrev named_routes : RouteHandlers ℕ String
named_routes = record {
  version_route = "version";
  predicate_route_of = λ p. p.name;
  prioritize_route_of = λ p. p.name;
  bind_route_of = λ b. "bind";
}

list_router-RouterLaw : RouterLaw list_router
list_router-RouterLaw m p m' p' h s = refl

set_up-lookup_example :
    list_router.lookup "POST" "/scheduler/preemption" (set_up list_router named_routes [])
    ≡ route_in "POST" "/scheduler/preemption" (table named_routes)
set_up-lookup_example =
    set_up-lookup list_router named_routes list_router-RouterLaw [] "POST" "/scheduler/preemption"
      (λ m p. refl)

no_preemption : route_in "POST" "/scheduler/preemption" (table named_routes) ≡ none
unfolding str_eq
no_preemption = refl
