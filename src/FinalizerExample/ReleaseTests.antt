-- ===== src/FinalizerExample/ReleaseTests.antt =====
-- The release of the finalizer at a cluster whose deletions are done at once.
use kubernetes_examples.Prelude.{
  str_eq, str_eq_iff, true, false, ℕ, String, ◌≡◌, ◌≤◌, ◌<◌, refl, inl, inr, List, [], ◌∷◌, some,
  arith, length, Mem,
}
use kubernetes_examples.Kube.Objects.{Pod, ObjectMeta}
use kubernetes_examples.Kube.Store.{
  Store, store_client, plain_meta, has_pod, drop_pod, member, without,
}
use kubernetes_examples.FinalizerExample.Controller.{finalizer_name, SimpleApp}
use kubernetes_examples.FinalizerExample.Liveness.{
  PatientServer, reconciles, finalizer-IsReleased, IsReleased,
}
use kubernetes_examples.FinalizerExample.Tests.{simple_app_kind, leaving, pod, key, cluster}

drop_pod-le : (name : String) (ps : List Pod) → length (drop_pod name ps) ≤ length ps
unfolding drop_pod
drop_pod-le name [] = omega arith
drop_pod-le name (p ∷ ps) = ground (arith, drop_pod-le name ps)

listed-drops :
    (p : Pod) (ps : List Pod)
    → Mem p ps
    → (has_pod p.meta.name ps ≡ true) × (length (drop_pod p.meta.name ps) < length ps)
unfolding Mem has_pod drop_pod
listed-drops p [] m = absurd m
listed-drops p (q ∷ qs) (inl e) = rw (← e) (ground (arith, str_eq_iff p.meta.name p.meta.name))
listed-drops p (q ∷ qs) (inr m) = ground (arith, listed-drops p qs m)

deleted-le :
    (p : Pod) (s : Store SimpleApp)
    → ((store_client.delete p s).1.object ≡ s.object)
      × (length (store_client.delete p s).1.pods ≤ length s.pods)
unfolding store_client
deleted-le p s = ground (arith, drop_pod-le p.meta.name s.pods)

deleted-lt :
    (p : Pod) (s : Store SimpleApp)
    → Mem p s.pods
    → length (store_client.delete p s).1.pods < length s.pods
unfolding store_client
deleted-lt p s m = ground (arith, listed-drops p s.pods m)

patient : PatientServer store_client key
unfolding store_client
patient = record {
  stored = λ s. s.object;
  listed = λ ns labels s. s.pods;
  left = λ s. length s.pods;
  get-answers = λ app s e. inl (rw e refl);
  list-answers = λ ns labels s. inl refl;
  delete-kept = λ p s. deleted-le p s;
  delete-listed = λ p ns labels s m. deleted-lt p s m;
  update-answers = λ x s. inl (record s { object = some x }, refl, inl refl);
}

member-without : (f : String) (gs : List String) → member f (without f gs) ≡ false
unfolding member without
member-without f [] = refl
member-without f (g ∷ gs) = ground (arith, member-without f gs)

removes :
    (m : ObjectMeta)
    → plain_meta.contains_finalizer (plain_meta.remove_finalizer m finalizer_name) finalizer_name
      ≡ false
unfolding plain_meta
removes m = member-without finalizer_name m.finalizers

leaving_owned : plain_meta.contains_finalizer leaving.meta finalizer_name ≡ true
unfolding plain_meta member str_eq
leaving_owned = refl

finalizer-IsReleased_example :
    (n : ℕ) × (n ≤ 2)
    × IsReleased store_client key plain_meta simple_app_kind patient
        (reconciles store_client key plain_meta simple_app_kind n (cluster (pod ∷ [])))
unfolding patient
finalizer-IsReleased_example =
    finalizer-IsReleased store_client key plain_meta simple_app_kind patient leaving 7 removes refl
      leaving_owned (cluster (pod ∷ [])) refl
