-- ===== src/FinalizerExample/Liveness.antt =====
-- The finalizer goes in the end: reconciliations one after another, on a server that puts off only finitely
-- many requests.
use Prim.Native.Nat.{zero}
use kubernetes_examples.Prelude.{
  ap, ℕ, suc, ◌≤◌, ◌<◌, String, true, false, ◌≡◌, ◌⊎◌, inl, inr, refl, ◌∙◌, List, [], ◌∷◌, Option,
  none, some, arith, StringMap, Mem, List-cases,
}
use kubernetes_examples.Kube.Objects.{Pod, NamespacedName, GroupVersionKind, ObjectMeta}
use kubernetes_examples.Kube.Effect.{ApiError, ok, err}
use kubernetes_examples.Kube.Client.{Client, MetaLib}
use kubernetes_examples.FinalizerExample.Controller.{
  SimpleApp, finalizer_name, pod_labels, delete_pods, tolerate_missing, cleanup_external_resources,
  release, wait_or_release, clean_up, handle_deletion, reconcile_found, reconcile_got, reconcile,
}

head-Mem : {A : Type 0} (x : A) (xs ys : List A) → ys ≡ x ∷ xs → Mem x ys
unfolding Mem
head-Mem x xs ys e = rw e (inl refl)

module _ {W : Type 0} (api : Client W SimpleApp) (req : NamespacedName) where
  -- A server without other writers. `left` bounds the requests that it still puts off: a failing request
  -- counts, and so does the deletion of a Pod that is listed, however long that Pod stays. An update stores
  -- the object, or lets it go with its last finalizer.
  pub record PatientServer : Type 0 where
    pub stored : W → Option SimpleApp
    pub listed : String → StringMap → W → List Pod
    pub left : W → ℕ
    pub get-answers :
        (app : SimpleApp) (w : W)
        → stored w ≡ some app
        → (api.get req w ≡ (ok app, w))
          ⊎ ((e : ApiError) × (w' : W) × (api.get req w ≡ (err e, w'))
              × (stored w' ≡ stored w)
              × (left w' < left w))
    pub list-answers :
        (ns : String) (labels : StringMap) (w : W)
        → (api.list ns labels w ≡ (ok (listed ns labels w), w))
          ⊎ ((e : ApiError) × (w' : W) × (api.list ns labels w ≡ (err e, w'))
              × (stored w' ≡ stored w)
              × (left w' < left w))
    pub delete-kept :
        (p : Pod) (w : W)
        → (stored (api.delete p w).1 ≡ stored w) × (left (api.delete p w).1 ≤ left w)
    pub delete-listed :
        (p : Pod) (ns : String) (labels : StringMap) (w : W)
        → Mem p (listed ns labels w)
        → left (api.delete p w).1 < left w
    pub update-answers :
        (x : SimpleApp) (w : W)
        → ((w' : W) × (api.update x w ≡ (none, w')) × ((stored w' ≡ some x) ⊎ (stored w' ≡ none)))
          ⊎ ((e : ApiError) × (w' : W) × (api.update x w ≡ (some e, w'))
              × (stored w' ≡ stored w)
              × (left w' < left w))

  module _ (lib : MetaLib) (kind : GroupVersionKind) where
    -- The world after `n` reconciliations.
    unfoldable pub reconciles : ℕ → W → W
    reconciles zero w = w
    reconciles (suc n) w = reconciles n (reconcile api lib kind req w).2

    -- The object is gone, or bears the finalizer no more.
    unfoldable pub IsReleased : PatientServer → W → Type 0
    IsReleased server w =
        (server.stored w ≡ none)
        ⊎ ((x : SimpleApp) × (server.stored w ≡ some x)
            × (lib.contains_finalizer x.meta finalizer_name ≡ false))

    module _ (server : PatientServer) (app : SimpleApp) (time : ℕ)
        (removes : (m : ObjectMeta)
          → lib.contains_finalizer (lib.remove_finalizer m finalizer_name) finalizer_name ≡ false)
        (deleting : app.meta.deletion_timestamp ≡ some time)
        (owned : lib.contains_finalizer app.meta finalizer_name ≡ true) where
      -- The object is as it was, and the server has put off a request.
      abbrev IsDelayed : W → W → Type 0
      IsDelayed w w' = (server.stored w' ≡ server.stored w) × (server.left w' < server.left w)

      delete_pods-kept :
          (items : List Pod) (w : W)
          → let w' = (delete_pods api lib kind items w).2 in
            (server.stored w' ≡ server.stored w) × (server.left w' ≤ server.left w)
      unfolding delete_pods tolerate_missing
      delete_pods-kept [] w = (refl, omega arith)
      delete_pods-kept (p ∷ ps) w =
          ground (arith, server.delete-kept p w, delete_pods-kept ps (api.delete p w).1)

      delete_pods-IsDelayed :
          (p : Pod) (ps : List Pod) (w : W)
          → server.left (api.delete p w).1 < server.left w
          → IsDelayed w (delete_pods api lib kind (p ∷ ps) w).2
      unfolding delete_pods tolerate_missing
      delete_pods-IsDelayed p ps w less =
          ground (arith, less, server.delete-kept p w, delete_pods-kept ps (api.delete p w).1)

      release-world :
          (w : W)
          → (release api lib kind app w).2
            ≡ (api.update (record app { meta = lib.remove_finalizer app.meta finalizer_name }) w).1
      unfolding release cleanup_external_resources
      release-world w = ground arith

      release-ends :
          (w : W)
          → IsReleased server (release api lib kind app w).2
            ⊎ IsDelayed w (release api lib kind app w).2
      unfolding IsReleased
      release-ends w =
          let x = record app { meta = lib.remove_finalizer app.meta finalizer_name } in
          elim (server.update-answers x w) [
            | inl (w', e, stays) ↦
                rw (release-world w, e)
                  (elim stays [
                    | inl same ↦ inl (inr (x, same, removes app.meta))
                    | inr gone ↦ inl (inl gone)
                  ])
            | inr (_, w', e, same, less) ↦ rw (release-world w, e) (inr (same, less))
          ]

      abbrev pods_in : W → List Pod
      pods_in w = server.listed app.meta.namespace (pod_labels app) w

      clean_up-some :
          (p : Pod) (ps : List Pod) (w : W)
          → api.list app.meta.namespace (pod_labels app) w ≡ (ok (p ∷ ps), w)
          → (clean_up api lib kind app w).2 ≡ (delete_pods api lib kind (p ∷ ps) w).2
      unfolding clean_up wait_or_release
      clean_up-some p ps w listed = ground (arith, listed)

      clean_up-none :
          (w : W)
          → api.list app.meta.namespace (pod_labels app) w ≡ (ok [], w)
          → (clean_up api lib kind app w).2 ≡ (release api lib kind app w).2
      unfolding clean_up wait_or_release delete_pods
      clean_up-none w listed = ground (arith, listed)

      clean_up-error :
          (e : ApiError) (w w' : W)
          → api.list app.meta.namespace (pod_labels app) w ≡ (err e, w')
          → (clean_up api lib kind app w).2 ≡ w'
      unfolding clean_up
      clean_up-error e w w' listed = ground (arith, listed)

      clean_up-ends :
          (w : W)
          → IsReleased server (clean_up api lib kind app w).2
            ⊎ IsDelayed w (clean_up api lib kind app w).2
      clean_up-ends w = elim (server.list-answers app.meta.namespace (pod_labels app) w) [
        | inr (e, w', failed, same, less) ↦ rw (clean_up-error e w w' failed) (inr (same, less))
        | inl answered ↦ elim (List-cases (pods_in w)) [
          | inl none' ↦ rw (clean_up-none w (answered ∙ ap (λ l. (ok l, w)) none')) (release-ends w)
          | inr (p, ps, some') ↦
              let less =
                server.delete-listed p app.meta.namespace (pod_labels app) w
                  (head-Mem p ps (pods_in w) some') in
              rw (clean_up-some p ps w (answered ∙ ap (λ l. (ok l, w)) some'))
                (inr (delete_pods-IsDelayed p ps w less))
        ]
      ]

      reconcile-found :
          (w : W)
          → api.get req w ≡ (ok app, w)
          → (reconcile api lib kind req w).2 ≡ (clean_up api lib kind app w).2
      unfolding reconcile reconcile_got reconcile_found handle_deletion
      reconcile-found w got = ground (arith, got, deleting, owned)

      reconcile-error :
          (e : ApiError) (w w' : W)
          → api.get req w ≡ (err e, w')
          → (reconcile api lib kind req w).2 ≡ w'
      unfolding reconcile reconcile_got
      reconcile-error e w w' got = ground (arith, got)

      reconcile-ends :
          (w : W)
          → server.stored w ≡ some app
          → IsReleased server (reconcile api lib kind req w).2
            ⊎ IsDelayed w (reconcile api lib kind req w).2
      reconcile-ends w stored = elim (server.get-answers app w stored) [
        | inl got ↦ rw (reconcile-found w got) (clean_up-ends w)
        | inr (e, w', failed, same, less) ↦ rw (reconcile-error e w w' failed) (inr (same, less))
      ]

      IsReleased-within :
          (fuel : ℕ) (w : W)
          → server.left w ≤ fuel
          → server.stored w ≡ some app
          → (n : ℕ) × (n ≤ suc fuel) × IsReleased server (reconciles n w)
      unfolding reconciles
      IsReleased-within zero w bound stored = elim (reconcile-ends w stored) [
        | inl released ↦ (1, omega arith, released)
        | inr (same, less) ↦ absurd (omega (arith, less, bound))
      ]
      IsReleased-within (suc fuel) w bound stored = elim (reconcile-ends w stored) [
        | inl released ↦ (1, omega arith, released)
        | inr (same, less) ↦
            let (n, le, released) =
              IsReleased-within fuel (reconcile api lib kind req w).2 (omega (arith, less, bound))
                (same ∙ stored) in
            (suc n, omega (arith, le), released)
      ]

      -- On a patient server, a SimpleApp that is being deleted and has the finalizer loses it, or is gone,
      -- after at most one more reconciliation than the server puts off requests.
      pub finalizer-IsReleased :
          (w : W)
          → server.stored w ≡ some app
          → (n : ℕ) × (n ≤ suc (server.left w)) × IsReleased server (reconciles n w)
      finalizer-IsReleased w stored = IsReleased-within (server.left w) w (omega arith) stored
