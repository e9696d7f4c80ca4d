-- ===== src/ClientExamples/DynamicLaws.antt =====
-- The program with the dynamic client panics on an object that it has not made.
use kubernetes_examples.Prelude.{
  insert, StringMap, String, none, some, ◌≡◌, ◌↔◌, refl, Option-cases, inl, inr, arith, ◌⊎◌,
}
use kubernetes_examples.Prelude.Results.{Attempt, ok, err, returned, panicked, Attempt-cases}
use kubernetes_examples.ClientExamples.ConfigMaps.{ConfigMap, ConfigMapClient}
use kubernetes_examples.ClientExamples.Dynamic.{
  example_config, with_version, create_example, send_update, update_example, delete_example,
  manage_example,
}

module _ {W : Type 0} (client : ConfigMapClient W) where
  -- The worlds after the creation, the reading and the update.
  abbrev created_in : W → W
  created_in w = (client.create "default" example_config w).1

  abbrev read_in : W → Attempt ConfigMap × W
  read_in w = client.get "default" "example-config" (created_in w)

  abbrev deleted_in : W → W
  deleted_in w = (client.delete "default" "example-config" w).1

  when_unread :
      (e : String) (w : W)
      → (read_in w).0 ≡ err e
      → manage_example client w ≡ (returned tt, deleted_in (read_in w).1)
  unfolding manage_example create_example update_example delete_example
  when_unread e w failed = ground (arith, failed)

  when_empty :
      (obj : ConfigMap) (w : W)
      → (read_in w).0 ≡ ok obj
      → obj.data' ≡ none
      → manage_example client w ≡ (panicked, (read_in w).1)
  unfolding manage_example create_example update_example delete_example send_update with_version
  when_empty obj w got e = ground (arith, got, e)

  when_filled :
      (obj : ConfigMap) (d : StringMap) (w : W)
      → (read_in w).0 ≡ ok obj
      → obj.data' ≡ some d
      → (last : W) × (manage_example client w ≡ (returned tt, deleted_in last))
  unfolding manage_example create_example update_example delete_example send_update with_version
  when_filled obj d w got e =
      let new = record obj { data' = some (insert "app.version" "2.0.0" d) } in
      ((client.update "default" new (read_in w).1).1, ground (arith, got, e))

  same-data :
      (obj other : ConfigMap) (d : StringMap) (w : W)
      → (read_in w).0 ≡ ok obj
      → (read_in w).0 ≡ ok other
      → obj.data' ≡ some d
      → other.data' ≡ none
      → ⊥
  same-data obj other d w got got' e e' = ground (arith, got, got', e, e')

  -- Whatever the server answers, the program panics exactly where the object that it reads back has no
  -- data; then it has not deleted the object. Otherwise it asks for the deletion last, whether or not the
  -- other calls have failed.
  pub manage_example-panicked_iff :
      (w : W)
      → let w1 = (client.create "default" example_config w).1 in
        let (got, w2) = client.get "default" "example-config" w1 in
        let run = manage_example client w in
        ((run.0 ≡ panicked) ↔ ((obj : ConfigMap) × (got ≡ ok obj) × (obj.data' ≡ none)))
        × ((run ≡ (panicked, w2))
            ⊎ ((last : W) × (run
                  ≡ (returned tt, (client.delete "default" "example-config" last).1))))
  manage_example-panicked_iff w = elim (Attempt-cases (read_in w).0) [
    | inr (e, failed) ↦
        let end = when_unread e w failed in
        rw end (((λ h. cc), λ (obj, got, _). cc (got, failed)), inr ((read_in w).1, refl))
    | inl (obj, got) ↦ elim (Option-cases obj.data') [
      | inl e ↦ rw (when_empty obj w got e) (((λ _. (obj, got, e)), λ _. refl), inl refl)
      | inr (d, e) ↦
          let (last, end) = when_filled obj d w got e in
          rw end (
            ((λ h. cc), λ (other, got', e'). absurd (same-data obj other d w got got' e e')),
            inr (last, refl),
          )
    ]
  ]
