-- ===== src/PodOperator/Names.antt =====
-- The names of the Pods that step 5 of `Reconcile` creates.
use text.Mathlib.TextLemmas.{append_cancel_left}
use kubernetes_examples.Prelude.{
  ℕ, zero, suc, ◌+◌, ◌-◌, ◌≤◌, ◌≡◌, ◌≢◌, sym, List, map, some, arith, length, get_elem?,
}
use kubernetes_examples.Prelude.Int.{pos, int32_max}
use kubernetes_examples.Prelude.Decimal.{format_int}
use kubernetes_examples.Prelude.Decimal.Injective.{numbered_name-injective}
use kubernetes_examples.Kube.Objects.{Pod}
use kubernetes_examples.Kube.Effect.{done}
use kubernetes_examples.Kube.Client.{Client, MetaLib}
use kubernetes_examples.Kube.Trace.{creates}
use kubernetes_examples.PodOperator.Types.{PodManager}
use kubernetes_examples.PodOperator.Controller.{new_pod_for_pod_manager, adjust_pods}
use kubernetes_examples.PodOperator.Scaling.{interval, adjust_pods-done}

-- Different numbers make different names.
pub name-injective :
    (lib : MetaLib) (pm : PodManager) (i j : ℕ)
    → (new_pod_for_pod_manager lib pm (pos i)).meta.name
      ≡ (new_pod_for_pod_manager lib pm (pos j)).meta.name
    → i ≡ j
unfolding new_pod_for_pod_manager format_int
name-injective lib pm i j e =
    numbered_name-injective "-" i j (append_cancel_left pm.meta.name _ _ e)

map-interval :
    {A : Type 0} (f : ℕ → A) (start n i : ℕ) (a : A)
    → get_elem? (map f (interval start n)) i ≡ some a
    → a ≡ f (start + i)
map-interval f start zero i a h = cc
map-interval f start (suc n) zero a h = ground (arith, h)
map-interval f start (suc n) (suc i) a h =
    let e : suc start + i ≡ start + suc i = omega arith in
    rw (sym e) (map-interval f (suc start) n i a h)

module _ {W : Type 0} (api : Client W PodManager) (lib : MetaLib) (pm : PodManager)
    (items : List Pod) (d : ℕ) (wanted : pm.spec.replicas ≡ pos d)
    (fits : length items ≤ int32_max) where
  -- Where the number wanted is not negative, that of the listed Pods is an int32 and step 5 ends with no
  -- error, no two of the Pods that it has created have the same name.
  created_names_differ :
      (w : W)
      → (adjust_pods api lib pm items w).0 ≡ done tt
      → (i j : ℕ) (p q : Pod) → get_elem? (creates (adjust_pods api lib pm items w).1) i ≡ some p
      → get_elem? (creates (adjust_pods api lib pm items w).1) j ≡ some q
      → i ≢ j
      → p.meta.name ≢ q.meta.name
  created_names_differ w h i j p q at_i at_j other same =
      let made = (adjust_pods-done api lib pm items d wanted fits w h).0 in
      let n = length items in
      let new : ℕ → Pod = λ k. new_pod_for_pod_manager lib pm (pos k) in
      let e = map-interval new n (d - n) i p (rw made at at_i) in
      let f = map-interval new n (d - n) j q (rw made at at_j) in
      let numbers : n + i ≡ n + j =
        name-injective lib pm (n + i) (n + j) (rw (sym e, sym f) same) in
      other (omega arith)
