-- ===== src/ClientExamples/ScriptLaws.antt =====
-- The programs clean up after themselves.
use kubernetes_examples.Prelude.{
  String, true, false, ◌≡◌, ◌⊎◌, refl, arith, if◌then◌else◌, str_eq, str_eq_iff, str_eq_refl, inl,
  inr,
}
use kubernetes_examples.Prelude.Results.{returned, panicked, Run}
use kubernetes_examples.ClientExamples.ConfigMaps.{ConfigMap, ConfigMapClient, HealthyServer, ◌>>=◌}
use kubernetes_examples.ClientExamples.Scripts.{
  typed_map, dynamic_map, typed_informer, watch_config_maps, dynamic_informer, namespace,
  delete_config_map, exercise, await_cache, expect_one,
}
use kubernetes_examples.ClientExamples.CreateLaws.{create-step, delete-step, exercise-restores}

module _ {W : Type 0} (client : ConfigMapClient W) (server : HealthyServer client namespace) where
  expect-cases :
      (label : String) (w : W)
      → (expect_one client label w ≡ (returned tt, w)) ⊎ (expect_one client label w ≡ (panicked, w))
  unfolding expect_one
  expect-cases label w = ground arith

  await-cases :
      (w : W) → (await_cache client w ≡ (returned tt, w)) ⊎ (await_cache client w ≡ (panicked, w))
  unfolding await_cache
  await-cases w = ground arith

  -- The names of two objects: the second is new after the first.
  abbrev IsAdded : ConfigMap → W → W → Type 0
  IsAdded c w w' =
      (c.namespace ≡ namespace)
      × (server.exists c.name w ≡ false)
      × ((m : String) → server.exists m w' ≡ (if str_eq c.name m then true else server.exists m w))

  pair-deleted :
      (first second : ConfigMap) (w w1 w2 : W)
      → IsAdded first w w1
      → IsAdded second w1 w2
      → (w' : W) × ((delete_config_map client first >>= λ _. delete_config_map client second) w2
          ≡ (returned tt, w'))
        × ((m : String) → server.exists m w' ≡ server.exists m w)
  pair-deleted first second w w1 w2 (here, free, seen) (here', free', seen') =
      let (w3, e, gone) =
        server.delete-gone first.name w2
          (ground (arith, seen first.name, seen' first.name, str_eq_refl first.name)) in
      let (w4, e', gone') = server.delete-gone second.name w3 (
        ground (
          arith,
          free',
          seen second.name,
          seen' second.name,
          gone second.name,
          str_eq_refl second.name,
          str_eq_iff first.name second.name,
        )) in
      (
        w4,
        rw
            (
              delete-step client server first w2 w3 here e,
              delete-step client server second w3 w4 here' e',
            )
            refl,
        λ m. ground (
          arith,
          seen m,
          seen' m,
          gone m,
          gone' m,
          free,
          free',
          seen second.name,
          str_eq_iff first.name m,
          str_eq_iff second.name m,
          str_eq_refl second.name,
        ),
      )

  made-IsAdded :
      (cm : ConfigMap) (w : W)
      → let (made, w', _, _, _, _) = server.create-made cm w in IsAdded made w w'
  made-IsAdded cm w =
      let (made, w', _, here, free, seen) = server.create-made cm w in (here, free, seen)

  watch-ends :
      (cm : ConfigMap) (label : String) (w : W)
      → ((w' : W) × (watch_config_maps client cm label w ≡ (returned tt, w'))
          × ((m : String) → server.exists m w' ≡ server.exists m w))
        ⊎ ((left : ConfigMap) × (w' : W) × (watch_config_maps client cm label w ≡ (panicked, w'))
            × IsAdded left w w')
  unfolding watch_config_maps
  watch-ends cm label w =
      let (first, w1, _, _, _, _) = server.create-made cm w in
      let step = create-step client server cm w in
      let added = made-IsAdded cm w in
      elim (await-cases w1) [
        | inr e ↦ inr (first, w1, rw (step, e) refl, added)
        | inl e ↦ elim (expect-cases label w1) [
          | inr f ↦ inr (first, w1, rw (step, e, f) refl, added)
          | inl f ↦
              let (second, w2, _, _, _, _) = server.create-made cm w1 in
              let (w', done, same) = pair-deleted first second w w1 w2 added (made-IsAdded cm w1) in
              inl (w', rw (step, e, f, create-step client server cm w1) done, same)
        ]
      ]

  -- The program has returned with the names as they were, or panicked with one more.
  abbrev pub IsCleaned : W → Run (Unit {0}) × W → Type 0
  IsCleaned w run =
      ((run.0 ≡ returned tt) × ((m : String) → server.exists m run.1 ≡ server.exists m w))
      ⊎ ((left : ConfigMap) × (run.0 ≡ panicked)
          × (server.exists left.name w ≡ false)
          × ((m : String)
              → server.exists m run.1 ≡ (if str_eq left.name m then true else server.exists m w)))

  watch-IsCleaned :
      (cm : ConfigMap) (label : String) (w : W) → IsCleaned w (watch_config_maps client cm label w)
  watch-IsCleaned cm label w = elim (watch-ends cm label w) [
    | inl (w', e, same) ↦ rw e (inl (refl, same))
    | inr (left, w', e, (_, free, seen)) ↦ rw e (inr (left, refl, free, seen))
  ]

  -- On a server that answers every call, the program that exercises the workers returns, and the names that
  -- are taken afterwards are those that were taken before. So does each of the two programs with an
  -- informer, or it panics and leaves exactly one ConfigMap behind, with a name that was free.
  pub programs-IsCleaned :
      (label : String) (w : W)
      → ((w' : W) × (exercise client w ≡ (returned tt, w'))
          × ((m : String) → server.exists m w' ≡ server.exists m w))
        × IsCleaned w (dynamic_informer client label w)
        × IsCleaned w (typed_informer client label w)
  unfolding dynamic_informer typed_informer
  programs-IsCleaned label w = (
    exercise-restores client server w,
    watch-IsCleaned (dynamic_map label) label w,
    watch-IsCleaned (typed_map label) label w,
  )
