-- ===== src/PodOperator/ConvergenceTests.antt =====
-- `Reconcile` at a cluster that answers every call and deletes Pods gracefully.
use kubernetes_examples.Kube.Client.{Client, second}
use kubernetes_examples.PodOperator.Reconciled.{WritesStatus, reconcile-converges}
use kubernetes_examples.Prelude.{
  if◌then◌else◌, some, Option, str_eq, ◌*◌, sym, suc, ℕ, ◌≤◌, String, true, false, ◌≡◌, ◌≢◌, refl,
  inl, inr, List, [], ◌∷◌, ◌++◌, none, arith, length, Mem, str_eq_refl, str_eq_of_ne,
}
use kubernetes_examples.Prelude.Int.{pos}
use kubernetes_examples.Kube.Objects.{Pod}
use kubernetes_examples.Kube.Effect.{not_found, already_exists, ok, done}
use kubernetes_examples.Kube.Store.{found, member, plain_meta, has_pod, drop_pod}
use kubernetes_examples.PodOperator.Types.{PodManager}
use kubernetes_examples.PodOperator.Controller.{
  finalizer_name, owner_labels, reconcile, new_pod_for_pod_manager,
}
use kubernetes_examples.PodOperator.Convergence.{IsFree, IsApart, PodServer}
use kubernetes_examples.PodOperator.Names.{name-injective}
use kubernetes_examples.PodOperator.Tests.{stale, key, three}

-- A cluster where a Pod that is deleted is kept, in deletion.
record Draining : Type 0 where
  object : Option PodManager
  running : List Pod
  leaving : List Pod

unfoldable draining_client : Client Draining PodManager
draining_client = record {
  get = λ key s. (found s.object, s);
  update = λ x s. (none, record s { object = some x });
  update_status = λ x s. (none, record s { object = some x });
  list = λ ns labels s. (ok (s.running ++ s.leaving), s);
  create = λ p s.
      if has_pod p.meta.name (s.running ++ s.leaving)
      then (some (already_exists "pod exists"), s)
      else (none, record s { running = p ∷ s.running });
  delete = λ p s.
      if has_pod p.meta.name s.running
      then (none, record s { running = drop_pod p.meta.name s.running; leaving = p ∷ s.leaving })
      else (some (not_found "no pod"), s);
}

not-has_pod : (m : String) (ps : List Pod) → IsFree m ps → has_pod m ps ≡ false
unfolding IsFree has_pod
not-has_pod m [] f = refl
not-has_pod m (p ∷ ps) (ne, f) = rw (str_eq_of_ne p.meta.name m ne, not-has_pod m ps f) refl

listed-drops :
    (p : Pod) (ps : List Pod)
    → Mem p ps
    → (has_pod p.meta.name ps ≡ true) × (suc (length (drop_pod p.meta.name ps)) ≡ length ps)
unfolding Mem has_pod drop_pod
listed-drops p [] m = absurd m
listed-drops p (q ∷ qs) (inl e) = rw (← e) (ground (arith, str_eq_refl p.meta.name))
listed-drops p (q ∷ qs) (inr m) = ground (arith, listed-drops p qs m)

others-stay :
    (p q : Pod) (ps : List Pod)
    → q.meta.name ≢ p.meta.name
    → Mem q ps
    → Mem q (drop_pod p.meta.name ps)
unfolding Mem drop_pod
others-stay p q [] ne m = absurd m
others-stay p q (r ∷ rs) ne (inl e) =
    rw (← e) (rw (str_eq_of_ne q.meta.name p.meta.name ne) (inl refl))
others-stay p q (r ∷ rs) ne (inr m) = ground (arith, m, others-stay p q rs ne m)

created :
    (p : Pod) (s : Draining)
    → IsFree p.meta.name (s.running ++ s.leaving)
    → draining_client.create p s ≡ (none, record s { running = p ∷ s.running })
unfolding draining_client
created p s f = rw (not-has_pod p.meta.name (s.running ++ s.leaving) f) refl

dropped :
    (p : Pod) (s : Draining)
    → Mem p s.running
    → draining_client.delete p s
      ≡ (none, record s { running = drop_pod p.meta.name s.running; leaving = p ∷ s.leaving })
unfolding draining_client
dropped p s m = rw ((listed-drops p s.running m).0) refl

IsFree-cons :
    (m : String) (p : Pod) (ps : List Pod) → m ≢ p.meta.name → IsFree m ps → IsFree m (p ∷ ps)
unfolding IsFree
IsFree-cons m p ps ne f = ((λ e. ne (sym e)), f)

answering : PodServer draining_client plain_meta
answering = record {
  present = λ s. s.running ++ s.leaving;
  alive = λ s. s.running;
  create-adds = λ pm j s f. (
    _,
    created (new_pod_for_pod_manager plain_meta pm (pos j)) s f,
    refl,
    λ m ne g. IsFree-cons m _ _ ne g,
  );
  delete-starts = λ p s m.
      (_, dropped p s m, (listed-drops p s.running m).1, λ q ne h. others-stay p q s.running ne h);
}

abbrev pub first_pod : Pod
first_pod = new_pod_for_pod_manager plain_meta three (pos 0)

others-IsFree :
    (j : ℕ)
    → 1 ≤ j
    → IsFree (new_pod_for_pod_manager plain_meta three (pos j)).meta.name (first_pod ∷ [])
unfolding IsFree
others-IsFree j h =
    ((λ e. let same = name-injective plain_meta three 0 j e in absurd (omega (arith, h, same))), tt)

first_pod-IsApart : IsApart (first_pod ∷ [])
unfolding IsApart IsFree
first_pod-IsApart = (tt, tt)

abbrev one_of_three : Draining
one_of_three = record { object = some three; running = first_pod ∷ []; leaving = [] }

statuses_written : WritesStatus draining_client plain_meta answering
unfolding answering draining_client
statuses_written = λ x w. (refl, refl)

three-found : (draining_client.get key one_of_three).0 ≡ ok three
unfolding draining_client
three-found = refl

three-owned : plain_meta.contains_finalizer three.meta finalizer_name ≡ true
unfolding plain_meta member str_eq
three-owned = refl

three-listed :
    (draining_client.list key.namespace (owner_labels three) one_of_three).0 ≡ ok (first_pod ∷ [])
unfolding draining_client
three-listed = refl

reconcile-converges_example :
    let run = reconcile draining_client plain_meta key one_of_three in
    (run.0 ≡ done (record { requeue = false; requeue_after = 30 * second }))
    × (length (answering.alive run.2) ≡ 3)
unfolding answering draining_client
reconcile-converges_example =
    reconcile-converges draining_client plain_meta answering key three stale [] 3 (first_pod ∷ [])
      one_of_three statuses_written three-found refl three-owned refl refl three-listed refl refl
      (omega arith) first_pod-IsApart others-IsFree
