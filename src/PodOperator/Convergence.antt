-- ===== src/PodOperator/Convergence.antt =====
-- Step 5 of `Reconcile` on a server that answers every call: as many Pods as are wanted.
use kubernetes_examples.Prelude.{
  zero, suc, ℕ, ◌+◌, ◌-◌, ◌≤◌, String, ◌≡◌, ◌≢◌, refl, ap, ◌∙◌, List, [], ◌∷◌, length, drop, Mem,
  none, some, arith, inl, inr, compare-cases, drop-lt-length, get_elem?,
}
use kubernetes_examples.Prelude.Int.{pos, int32_max}
use kubernetes_examples.Kube.Objects.{Pod}
use kubernetes_examples.Kube.Effect.{done}
use kubernetes_examples.Kube.Client.{Client, MetaLib}
use kubernetes_examples.PodOperator.Types.{PodManager}
use kubernetes_examples.PodOperator.Controller.{
  new_pod_for_pod_manager, item_at, report_created, create_pods, report_deleted, delete_extra,
  adjust_pods,
}
use kubernetes_examples.PodOperator.Scaling.{scaling_up, scaling_down, at_rest}
use kubernetes_examples.PodOperator.Names.{name-injective}

-- No Pod of the list bears the name.
unfoldable pub IsFree : String → List Pod → Type 0
IsFree m [] = Unit {0}
IsFree m (p ∷ ps) = (p.meta.name ≢ m) × IsFree m ps

-- No two Pods of the list bear one name.
unfoldable pub IsApart : List Pod → Type 0
unfolding IsFree
IsApart [] = Unit {0}
IsApart (p ∷ ps) = IsFree p.meta.name ps × IsApart ps

IsFree-Mem : (m : String) (q : Pod) (ps : List Pod) → IsFree m ps → Mem q ps → q.meta.name ≢ m
unfolding IsFree Mem
IsFree-Mem m q [] f h = absurd h
IsFree-Mem m q (p ∷ ps) (ne, f) (inl e) = rw e ne
IsFree-Mem m q (p ∷ ps) (ne, f) (inr h) = IsFree-Mem m q ps f h

IsApart-drop : (n : ℕ) (ps : List Pod) → IsApart ps → IsApart (drop n ps)
unfolding IsApart
IsApart-drop zero ps a = a
IsApart-drop (suc n) [] a = a
IsApart-drop (suc n) (p ∷ ps) (f, a) = IsApart-drop n ps a

Mem-drop : (n : ℕ) (q : Pod) (ps : List Pod) → Mem q (drop n ps) → Mem q ps
unfolding Mem
Mem-drop zero q ps h = h
Mem-drop (suc n) q [] h = h
Mem-drop (suc n) q (p ∷ ps) h = inr (Mem-drop n q ps h)

module _ {W : Type 0} (api : Client W PodManager) (lib : MetaLib) where
  -- A server that answers every call. `present` are the Pods that it stores, and `alive` are those of them whose
  -- deletion has not been asked for. A Pod of a PodManager whose name no stored Pod bears is created. Deletion
  -- is graceful: of a Pod that is alive it is accepted, and the Pod is then no longer alive, but nothing
  -- is said of how long it is stored.
  pub record PodServer : Type 0 where
    pub present : W → List Pod
    pub alive : W → List Pod
    pub create-adds :
        (pm : PodManager) (j : ℕ) (w : W)
        → let p = new_pod_for_pod_manager lib pm (pos j) in
          IsFree p.meta.name (present w)
          → (w' : W) × (api.create p w ≡ (none, w'))
            × (length (alive w') ≡ suc (length (alive w)))
            × ((m : String) → m ≢ p.meta.name → IsFree m (present w) → IsFree m (present w'))
    pub delete-starts :
        (p : Pod) (w : W)
        → Mem p (alive w)
        → (w' : W) × (api.delete p w ≡ (none, w'))
          × (suc (length (alive w')) ≡ length (alive w))
          × ((q : Pod) → q.meta.name ≢ p.meta.name → Mem q (alive w) → Mem q (alive w'))

  module _ (server : PodServer) (pm : PodManager) where
    abbrev numbered : ℕ → Pod
    numbered j = new_pod_for_pod_manager lib pm (pos j)

    create-step :
        (n k : ℕ) (w w' : W)
        → api.create (numbered k) w ≡ (none, w')
        → ((create_pods api lib pm (suc n) (pos k) w).0
            ≡ (create_pods api lib pm n (pos (suc k)) w').0)
          × ((create_pods api lib pm (suc n) (pos k) w).2
              ≡ (create_pods api lib pm n (pos (suc k)) w').2)
    unfolding create_pods report_created
    create-step n k w w' e = ground (arith, e)

    create_pods-counts :
        (n k : ℕ) (w : W)
        → ((j : ℕ) → k ≤ j → IsFree (numbered j).meta.name (server.present w))
        → let run = create_pods api lib pm n (pos k) w in
          (run.0 ≡ done tt) × (length (server.alive run.2) ≡ n + length (server.alive w))
    unfolding create_pods
    create_pods-counts zero k w free = (refl, omega arith)
    create_pods-counts (suc n) k w free =
        let (w', e, more, others) = server.create-adds pm k w (free k (omega arith)) in
        let (ends, world) = create-step n k w w' e in
        let still : (j : ℕ) → suc k ≤ j → IsFree (numbered j).meta.name (server.present w') = λ j h.
          others (numbered j).meta.name
            (λ same. let i = name-injective lib pm j k same in absurd (omega (arith, h, i)))
            (free j (omega (arith, h))) in
        let (finished, count) = create_pods-counts n (suc k) w' still in
        (ends ∙ finished, rw world (omega (arith, count, more)))

    delete-step :
        (items : List Pod) (n k : ℕ) (p : Pod) (w w' : W)
        → get_elem? items k ≡ some p
        → api.delete p w ≡ (none, w')
        → ((delete_extra api lib items (suc n) (pos k) w).0
            ≡ (delete_extra api lib items n (pos (suc k)) w').0)
          × ((delete_extra api lib items (suc n) (pos k) w).2
              ≡ (delete_extra api lib items n (pos (suc k)) w').2)
    unfolding delete_extra report_deleted item_at
    delete-step items n k p w w' at e = ground (arith, at, e)

    delete_extra-counts :
        (items : List Pod) (n k : ℕ) (w : W)
        → k + n ≡ length items
        → IsApart (drop k items)
        → ((q : Pod) → Mem q (drop k items) → Mem q (server.alive w))
        → let run = delete_extra api lib items n (pos k) w in
          (run.0 ≡ done tt) × (length (server.alive run.2) + n ≡ length (server.alive w))
    unfolding delete_extra Mem IsApart
    delete_extra-counts items zero k w e apart there = (refl, omega arith)
    delete_extra-counts items (suc n) k w e apart there =
        let (p, at, split) = drop-lt-length k items (omega (arith, e)) in
        let (f, a) = rw split at apart in
        let here : Mem p (server.alive w) = there p (rw split (inl refl)) in
        let (w', sent, fewer, others) = server.delete-starts p w here in
        let (ends, world) = delete-step items n k p w w' at sent in
        let still : (q : Pod) → Mem q (drop (suc k) items) → Mem q (server.alive w') =
          λ q h. others q (IsFree-Mem p.meta.name q _ f h) (there q (rw split (inr h))) in
        let (finished, count) = delete_extra-counts items n (suc k) w' (omega (arith, e)) a still in
        (ends ∙ finished, rw world (omega (arith, count, fewer)))

    -- On a server that answers every call, let the number wanted be not negative, let the listed Pods be those
    -- that are stored and none of them be in deletion, let their number be an int32, no two of them have one
    -- name, and the numbers from theirs on be free. Then step 5 ends with no error, and as many Pods are
    -- alive, that is not in deletion, as are wanted.
    pub adjust_pods-converges :
        (d : ℕ) (items : List Pod) (w : W)
        → pm.spec.replicas ≡ pos d
        → server.present w ≡ items
        → server.alive w ≡ items
        → length items ≤ int32_max
        → IsApart items
        → ((j : ℕ)
            → length items ≤ j
            → IsFree (new_pod_for_pod_manager lib pm (pos j)).meta.name items)
        → let run = adjust_pods api lib pm items w in
          (run.0 ≡ done tt) × (length (server.alive run.2) ≡ d)
    adjust_pods-converges d items w wanted stored living fits apart free =
        elim (compare-cases (length items) d) [
          | inl less ↦
              let (ends, count) =
                create_pods-counts (d - length items) (length items) w (rw stored free) in
              rw (scaling_up api lib pm items d wanted fits w less)
                (ends, omega (arith, count, less, ap length living))
          | inr (inl same) ↦
              rw (at_rest api lib pm items d wanted fits w same)
                (refl, omega (arith, same, ap length living))
          | inr (inr more) ↦
              let (ends, count) =
                delete_extra-counts items (length items - d) d w (omega (arith, more))
                  (IsApart-drop d items apart) (λ q h. rw living (Mem-drop d q items h)) in
              rw (scaling_down api lib pm items d wanted fits w more)
                (ends, omega (arith, count, more, ap length living))
        ]
