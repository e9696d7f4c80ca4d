-- ===== src/SchedulerExtender/SetUpLaws.antt =====
-- Which requests the scheduler extender has a route for.
use kubernetes_examples.Prelude.{
  String, ◌&&◌, ◌≡◌, refl, List, [], ◌∷◌, Option, none, some, if◌then◌else◌, str_eq,
}
use kubernetes_examples.SchedulerExtender.Handlers.{true_predicate, zero_priority, no_bind}
use kubernetes_examples.SchedulerExtender.Routes.{
  Router, add_version, add_predicate, add_prioritize, add_bind,
}
use kubernetes_examples.SchedulerExtender.SetUp.{
  RouteHandlers, add_predicates, add_priorities, set_up,
}

module _ {S H : Type 0} (router : Router S H) where
  -- A handler is found under the method and the path that it was added with, and the others as before.
  abbrev pub RouterLaw : Type 0
  RouterLaw =
      (m p m' p' : String) (h : H) (s : S)
      → router.lookup m p (router.handle m' p' h s)
        ≡ (if str_eq m' m && str_eq p' p then some h else router.lookup m p s)

-- The routes of the program, by method and path.
abbrev pub table : {P H : Type 0} → RouteHandlers P H → List (String × String × H)
table routes =
    ("POST", "/scheduler/bind", routes.bind_route_of no_bind)
    ∷ ("POST", "/scheduler/priorities/zero_score", routes.prioritize_route_of zero_priority)
    ∷ ("POST", "/scheduler/predicates/always_true", routes.predicate_route_of true_predicate)
    ∷ ("GET", "/version", routes.version_route)
    ∷ []

abbrev pub route_in : {H : Type 0} → String → String → List (String × String × H) → Option H
route_in m p [] = none
route_in m p ((m', p', h) ∷ rest) =
    let later = route_in m p rest in if str_eq m' m && str_eq p' p then some h else later

module _ {S P H : Type 0} (router : Router S H) (routes : RouteHandlers P H)
    (law : RouterLaw router) where
  abbrev before_bind : S → S
  before_bind s =
      router.handle "POST" "/scheduler/priorities/zero_score"
        (routes.prioritize_route_of zero_priority)
        (router.handle "POST" "/scheduler/predicates/always_true"
          (routes.predicate_route_of true_predicate)
          (router.handle "GET" "/version" routes.version_route s))

  bind_free :
      (s : S)
      → router.lookup "POST" "/scheduler/bind" s ≡ none
      → router.lookup "POST" "/scheduler/bind" (before_bind s) ≡ none
  unfolding str_eq
  bind_free s empty =
      rw
        (
          law "POST" "/scheduler/bind" "POST" "/scheduler/priorities/zero_score" _ _,
          law "POST" "/scheduler/bind" "POST" "/scheduler/predicates/always_true" _ _,
          law "POST" "/scheduler/bind" "GET" "/version" _ _,
        )
        empty

  set_up-handle :
      (s : S)
      → router.lookup "POST" "/scheduler/bind" s ≡ none
      → set_up router routes s
        ≡ router.handle "POST" "/scheduler/bind" (routes.bind_route_of no_bind) (before_bind s)
  unfolding set_up add_bind add_predicates add_priorities add_predicate add_prioritize add_version
      true_predicate zero_priority
  set_up-handle s empty = rw (set_up, add_bind, bind_free s empty) refl

  -- Where a router finds what was added, and has no route at first, the program gives it routes for exactly
  -- four requests: the version, the predicate always_true, the priority zero_score, and the binding. There is
  -- none for preemption.
  pub set_up-lookup :
      (s : S) (m p : String)
      → ((m' p' : String) → router.lookup m' p' s ≡ none)
      → router.lookup m p (set_up router routes s) ≡ route_in m p (table routes)
  set_up-lookup s m p empty =
      rw
        (
          set_up-handle s (empty "POST" "/scheduler/bind"),
          law m p "POST" "/scheduler/bind" _ _,
          law m p "POST" "/scheduler/priorities/zero_score" _ _,
          law m p "POST" "/scheduler/predicates/always_true" _ _,
          law m p "GET" "/version" _ _,
          empty m p,
        )
        refl
