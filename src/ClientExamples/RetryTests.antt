-- ===== src/ClientExamples/RetryTests.antt =====
-- The update of a Deployment at a server where someone else scales it up in between.
use kubernetes_examples.ClientExamples.DemoDeployment.{demo_deployment, update_demo, edited}
use kubernetes_examples.ClientExamples.Retrying.{
  retry_edit, get_edit_update, send_edited, error_of, expect_none,
}
use kubernetes_examples.ClientExamples.RetryLaws.{
  DemoServer, edited-version, IsEdited, update_demo-IsEdited,
}
use kubernetes_examples.Prelude.{
  String, refl, ap, ◌∙◌, sym, str_eq_iff, inr, inl, Bool-cases, arith, ◌≡◌, ℕ, zero, suc, [],
  Option, none, some, if◌then◌else◌, str_eq,
}
use kubernetes_examples.Prelude.Int.{pos}
use kubernetes_examples.Prelude.Results.{Run, returned, panicked}
use kubernetes_examples.ClientExamples.Deployments.{
  again, last, Retried, Retry, Deployment, CallError, conflict, not_found, failure, Reply, ok, err,
  DeploymentClient, Trial,
}

-- Someone scales the Deployment up, once.
abbrev scaled : Deployment → Deployment
scaled d =
    if str_eq d.resource_version "2"
    then d
    else record d { resource_version = "2"; replicas = some (pos 5) }

abbrev read : Option Deployment → Reply Deployment
read none = err (not_found "no deployment")
read (some d) = ok d

abbrev disturbed : Option Deployment → Option Deployment
disturbed none = none
disturbed (some d) = some (scaled d)

abbrev taken : Deployment → Option Deployment → Reply Deployment × Option Deployment
taken sent none = (err (not_found "no deployment"), none)
taken sent (some d) =
    if str_eq d.resource_version sent.resource_version
    then (
      ok (record sent { resource_version = "3" }),
      some (record sent { resource_version = "3" }),
    )
    else (err (conflict "changed"), some d)

unfoldable demo_client : DeploymentClient (Option Deployment)
demo_client = record {
  create = λ d w. (ok d, some d);
  get = λ name w. (read w, disturbed w);
  update = taken;
  list = λ w. (ok [], w);
  delete = λ name how w. (none, none);
}

-- As many runs as `retry.DefaultRetry` allows, by those left.
abbrev retry_step :
    {W : Type 0}
    → Trial W
    → (Trial W → Trial W)
    → Run (Option CallError)
    → W
    → Run (Option CallError) × W
retry_step trial rest (returned (some (conflict text))) w = rest trial w
retry_step trial rest (returned (some (not_found text))) w = (returned (some (not_found text)), w)
retry_step trial rest (returned (some (failure text))) w = (returned (some (failure text)), w)
retry_step trial rest (returned none) w = (returned none, w)
retry_step trial rest panicked w = (panicked, w)

abbrev retried : {W : Type 0} → ℕ → Trial W → Trial W
retried zero trial w = trial w
retried (suc n) trial w = let (r, w') = trial w in retry_step trial (retried n) r w'

module _ {W : Type 0} (trial : Trial W) where
  ran : (w : W) → Retried trial w (trial w).0 (trial w).1
  ran w = last w

  stepped :
      (n : ℕ) (w : W) (r : Run (Option CallError))
      → ((u : W) → Retried trial u (retried n trial u).0 (retried n trial u).1)
      → (trial w).0 ≡ r
      → Retried trial w
          (retry_step trial (retried n) r (trial w).1).0
          (retry_step trial (retried n) r (trial w).1).1
  stepped n w (returned (some (conflict text))) more e = again text e (more (trial w).1)
  stepped n w (returned (some (not_found text))) more e = rw e at (ran w)
  stepped n w (returned (some (failure text))) more e = rw e at (ran w)
  stepped n w (returned none) more e = rw e at (ran w)
  stepped n w panicked more e = rw e at (ran w)

  retried-Retried : (n : ℕ) (w : W) → Retried trial w (retried n trial w).0 (retried n trial w).1
  retried-Retried zero w = last w
  retried-Retried (suc n) w = stepped n w (trial w).0 (retried-Retried n) refl

unfoldable five_times : Retry (Option Deployment)
five_times = record {
  retry_on_conflict = retried 4;
  as_documented = λ trial w. retried-Retried trial 4 w;
}

abbrev read_version : Reply Deployment → String
read_version (ok d) = d.resource_version
read_version (err _) = ""

abbrev kept_version : Option Deployment → String
kept_version (some d) = d.resource_version
kept_version none = ""

read-scaled :
    (d : Deployment) (w : Option Deployment)
    → read w ≡ ok d
    → (e : Deployment) → disturbed w ≡ some e
    → e.resource_version ≡ d.resource_version
    → e ≡ d
read-scaled d none got e kept same = absurd (ground (arith, got))
read-scaled d (some x) got e kept same = elim (Bool-cases (str_eq x.resource_version "2")) [
  | inl t ↦ ground (arith, got, kept, same, t)
  | inr f ↦
      let two : "2" ≡ e.resource_version = ap kept_version (rw f at kept) in
      let x_two = ap read_version got ∙ sym (two ∙ same) in
      absurd (ground (arith, f, (str_eq_iff x.resource_version "2").1 x_two))
]

taken-stored :
    (d sent : Deployment) (w : Option Deployment)
    → (taken sent w).0 ≡ ok d
    → (e : Deployment) × (w ≡ some e)
      × (e.resource_version ≡ sent.resource_version)
      × ((taken sent w).1 ≡ some (record sent { resource_version = d.resource_version }))
taken-stored d sent none h = absurd (ground (arith, h))
taken-stored d sent (some x) h =
    elim (Bool-cases (str_eq x.resource_version sent.resource_version)) [
      | inl t ↦
          let v = ap read_version (rw t at h) in (x, refl, (str_eq_iff _ _).0 t, rw (t, ← v) refl)
      | inr f ↦ absurd (ground (arith, h, f))
    ]

unfoldable demo_server : DemoServer demo_client
unfolding demo_client
demo_server = record {
  stored = λ w. w;
  get-version = read-scaled;
  update-checked = taken-stored;
  edit-version = edited-version;
}

abbrev first_version : Deployment
first_version = record demo_deployment { resource_version = "1" }

-- The first update meets a conflict, the second one is taken.
update_demo_returns : (update_demo demo_client five_times (some first_version)).0 ≡ returned tt
unfolding update_demo five_times demo_client retry_edit get_edit_update edited send_edited error_of
    expect_none demo_deployment str_eq
update_demo_returns = refl

update_demo-IsEdited_example :
    IsEdited demo_client demo_server (update_demo demo_client five_times (some first_version)).1
update_demo-IsEdited_example =
    update_demo-IsEdited demo_client demo_server five_times (some first_version) update_demo_returns
