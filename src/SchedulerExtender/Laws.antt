-- ===== src/SchedulerExtender/Laws.antt =====
-- Which nodes the extender lets pass, and which requests make its routes panic.
use kubernetes_examples.Prelude.Results.{Attempt-cases, err, ok, panicked, returned}
use kubernetes_examples.Prelude.{
  Mem, sym, ap, ◌∙◌, Option-cases, String, true, false, ◌≡◌, ◌≢◌, ◌⊎◌, ◌↔◌, refl, inl, inr, List,
  [], ◌∷◌, Option, none, some, arith, if◌then◌else◌, insert, lookup, lookup-insert, str_eq,
}
use kubernetes_examples.SchedulerExtender.Handlers.{
  Node, ExtenderArgs, ExtenderFilterResult, Predicate, Bind, BindingArgs, fitting, failing,
  filter_result, filter_nodes, predicate_handler, bind_handler,
}
use kubernetes_examples.SchedulerExtender.Routes.{
  Json, respond, respond_run, with_body, predicate_route, bind_route,
}

module _ {P : Type 0} (p : Predicate P) (pod : P) where
  -- The error of the last node of a name for which the predicate reports one.
  unfoldable pub last_error : List Node → String → Option String
  last_error [] name = none
  last_error (node ∷ nodes) name =
      let later = last_error nodes name in
      elim later [
        | some e ↦ some e
        | none ↦ elim (p.func pod node) [
          | err e ↦ if str_eq node.name name then some e else none
          | ok _ ↦ none
        ]
      ]

  failing-lookup :
      (nodes : List Node) (cannot : List (String × String)) (name : String)
      → lookup name (failing p pod nodes cannot)
        ≡ (elim (last_error nodes name) [ some e ↦ some e | none ↦ lookup name cannot ])
  unfolding failing last_error
  failing-lookup [] cannot name = refl
  failing-lookup (node ∷ nodes) cannot name = elim (Attempt-cases (p.func pod node)) [
    | inl (b, e) ↦ ground (arith, e, failing-lookup nodes cannot name)
    | inr (t, e) ↦ ground (
      arith,
      e,
      failing-lookup nodes (insert node.name t cannot) name,
      lookup-insert node.name name t cannot,
    )
  ]

  fitting-fits :
      (m : Node) (nodes : List Node)
      → p.func pod m ≡ ok true
      → fitting p pod (m ∷ nodes) ≡ m ∷ fitting p pod nodes
  unfolding fitting
  fitting-fits m nodes e = ground (arith, e)

  fitting-skips :
      (m : Node) (nodes : List Node)
      → p.func pod m ≢ ok true
      → fitting p pod (m ∷ nodes) ≡ fitting p pod nodes
  unfolding fitting
  fitting-skips m nodes e = ground (arith, e, Attempt-cases (p.func pod m))

  skipped :
      (n m : Node) (nodes : List Node)
      → p.func pod m ≢ ok true
      → (Mem n (fitting p pod nodes) ↔ (Mem n nodes × (p.func pod n ≡ ok true)))
      → Mem n (fitting p pod (m ∷ nodes)) ↔ (Mem n (m ∷ nodes) × (p.func pod n ≡ ok true))
  unfolding Mem
  skipped n m nodes e ih = rw (fitting-skips m nodes e) (
    (λ h. let (a, b) = ih.0 h in (inr a, b)),
    λ (h, fits). elim h [
      | inl same ↦ elim (e (sym (ap (p.func pod) same) ∙ fits)) [ ]
      | inr later ↦ ih.1 (later, fits)
    ],
  )

  fitting-Mem :
      (n : Node) (nodes : List Node)
      → Mem n (fitting p pod nodes) ↔ (Mem n nodes × (p.func pod n ≡ ok true))
  unfolding fitting Mem
  fitting-Mem n [] = ground arith
  fitting-Mem n (m ∷ nodes) =
      let ih = fitting-Mem n nodes in
      elim (Attempt-cases (p.func pod m)) [
        | inl (true, e) ↦ rw (fitting-fits m nodes e) (
          (λ h. elim h [
            | inl same ↦ (inl same, rw same e)
            | inr later ↦ let (a, b) = ih.0 later in (inr a, b)
          ]),
          λ (h, fits). elim h [ inl same ↦ inl same | inr later ↦ inr (ih.1 (later, fits)) ],
        )
        | inl (false, e) ↦ skipped n m nodes (λ f. ground (arith, e, f)) ih
        | inr (t, e) ↦ skipped n m nodes (λ f. ground (arith, e, f)) ih
      ]

  -- On a request with a Pod and a list of nodes, the handler answers; a node is let pass exactly when it
  -- is on the list and the predicate holds for it with no error; and a name has an error exactly when the
  -- predicate reports one for a node of that name, the last such one. A node that the predicate refuses
  -- with no error is in neither part of the answer.
  pub predicate_handler-answer :
      (nodes : List Node)
      → (r : ExtenderFilterResult) × (can : List Node) × (cannot : List (String × String))
        × (predicate_handler p (record { pod = some pod; nodes = some nodes }) ≡ returned r)
        × (r.nodes ≡ some can)
        × (r.failed_nodes ≡ some cannot)
        × ((n : Node) → Mem n can ↔ (Mem n nodes × (p.func pod n ≡ ok true)))
        × ((name : String) → lookup name cannot ≡ last_error nodes name)
  unfolding predicate_handler filter_nodes filter_result lookup
  predicate_handler-answer nodes = (
    filter_result p pod nodes,
    fitting p pod nodes,
    failing p pod nodes [],
    refl,
    refl,
    refl,
    (λ n. fitting-Mem n nodes),
    λ name. ground (arith, failing-lookup nodes [] name, Option-cases (last_error nodes name)),
  )

module _ {B V P : Type 0} where
  -- A filter request that decodes, whose answers are encoded, makes its route panic exactly when the
  -- request has no list of nodes, or has nodes on it but no Pod; a request that does not decode never
  -- does.
  pub predicate_route-panicked_iff :
      (json : Json B V (ExtenderArgs P) ExtenderFilterResult) (p : Predicate P)
      → ((r : ExtenderFilterResult) → (v : V) × (json.marshal r ≡ ok v))
      → (body : B)
      → ((args : ExtenderArgs P)
          → json.decode body ≡ ok args
          → ((predicate_route json p (some body)).outcome ≡ panicked) ↔ (
              (args.nodes ≡ none)
              ⊎ ((n : Node) × (ns : List Node) × (args.nodes ≡ some (n ∷ ns)) × (args.pod ≡ none))))
        × ((e : String)
            → json.decode body ≡ err e
            → (predicate_route json p (some body)).outcome ≡ returned tt)
  unfolding predicate_route with_body respond respond_run predicate_handler filter_nodes
  predicate_route-panicked_iff json p total body = (
    (λ args decoded. elim (Option-cases args.nodes) [
      | inl e ↦ ground (arith, decoded, e)
      | inr ([], e) ↦ elim (Option-cases args.pod) [
        | inl f ↦
            let (v, m) = total (record { nodes = some []; failed_nodes = some []; error = "" }) in
            ground (arith, decoded, e, f, m)
        | inr (pod, f) ↦
            let (v, m) = total (filter_result p pod []) in ground (arith, decoded, e, f, m)
      ]
      | inr (n ∷ ns, e) ↦ elim (Option-cases args.pod) [
        | inl f ↦ ((λ _. inr (n, ns, e, f)), λ _. ground (arith, decoded, e, f))
        | inr (pod, f) ↦
            let (v, m) = total (filter_result p pod (n ∷ ns)) in ground (arith, decoded, e, f, m)
      ]
    ]),
    λ e wrong.
        let (v, m) = total (record { nodes = none; failed_nodes = none; error = e }) in
        ground (arith, wrong, m),
  )

module _ {B V : Type 0} where
  -- Where the answers are encoded, a binding request that decodes makes its route panic exactly when the
  -- binding succeeds.
  pub bind_route-panicked_iff :
      (json : Json B V BindingArgs String) (b : Bind)
      → ((e : String) → (v : V) × (json.marshal e ≡ ok v))
      → (body : B) (args : BindingArgs) → json.decode body ≡ ok args
      → ((bind_route json b (some body)).outcome ≡ panicked) ↔ (b.func args ≡ none)
  unfolding bind_route with_body respond respond_run bind_handler
  bind_route-panicked_iff json b total body args decoded = elim (Option-cases (b.func args)) [
    | inl e ↦ ground (arith, decoded, e)
    | inr (t, e) ↦ let (v, m) = total t in ground (arith, decoded, e, m)
  ]
