-- ===== src/ClientExamples/CreateLaws.antt =====
-- ConfigMaps that are created one after another, and deleted again.
use Prim.Native.Nat.{zero}
use kubernetes_examples.Prelude.{
  ℕ, suc, String, Bool, true, false, ◌≡◌, refl, List, [], ◌∷◌, none, arith, if◌then◌else◌, str_eq,
  str_eq_iff, str_eq_refl, Bool-cases, inl, inr,
}
use kubernetes_examples.Prelude.Results.{returned}
use kubernetes_examples.ClientExamples.ConfigMaps.{ConfigMap, ConfigMapClient, HealthyServer}
use kubernetes_examples.ClientExamples.Scripts.{
  namespace, workqueue_map, create_config_map, delete_config_map, create_many, delete_many,
  exercise,
}

-- The name is that of one of the objects.
is_in : String → List ConfigMap → Bool
is_in m [] = false
is_in m (c ∷ cs) = let rest = is_in m cs in if str_eq c.name m then true else rest

-- No two objects have one name, and all are in the namespace.
IsDistinct : List ConfigMap → Type 0
unfolding is_in
IsDistinct [] = Unit
IsDistinct (c ∷ cs) = (c.namespace ≡ namespace) × (is_in c.name cs ≡ false) × IsDistinct cs

module _ {W : Type 0} (client : ConfigMapClient W) (server : HealthyServer client namespace) where
  pub create-step :
      (cm : ConfigMap) (w : W)
      → let (made, w', _, _, _, _) = server.create-made cm w in
        create_config_map client cm w ≡ (returned made, w')
  unfolding create_config_map
  create-step cm w = let (made, w', e, _, _, _) = server.create-made cm w in ground (arith, e)

  pub delete-step :
      (cm : ConfigMap) (w w' : W)
      → cm.namespace ≡ namespace
      → client.delete namespace cm.name w ≡ (none, w')
      → delete_config_map client cm w ≡ (returned tt, w')
  unfolding delete_config_map
  delete-step cm w w' here e =
      let sent : client.delete cm.namespace cm.name w ≡ (none, w') = rw here e in
      ground (arith, sent)

  -- What is new after an object has been created was new before, and is not that object.
  new-before :
      (c : ConfigMap) (cms : List ConfigMap) (w w1 : W)
      → server.exists c.name w ≡ false
      → ((m : String) → server.exists m w1 ≡ (if str_eq c.name m then true else server.exists m w))
      → ((m : String) → is_in m cms ≡ true → server.exists m w1 ≡ false)
      → (is_in c.name cms ≡ false)
        × ((m : String) → is_in m (c ∷ cms) ≡ true → server.exists m w ≡ false)
  unfolding is_in
  new-before c cms w w1 free seen new = (
    elim (Bool-cases (is_in c.name cms)) [
      | inl e ↦ ground (arith, e, new c.name e, seen c.name, str_eq_refl c.name)
      | inr e ↦ e
    ],
    λ m h. elim (Bool-cases (str_eq c.name m)) [
      | inl e ↦ rw (← (str_eq_iff _ _).0 e) free
      | inr e ↦ let later = new m (rw e at h) in ground (arith, e, later, seen m)
    ],
  )

  -- What is left to delete is still there.
  there-after :
      (c : ConfigMap) (cs : List ConfigMap) (w w1 : W)
      → is_in c.name cs ≡ false
      → ((m : String) → is_in m (c ∷ cs) ≡ true → server.exists m w ≡ true)
      → ((m : String) → server.exists m w1 ≡ (if str_eq c.name m then false else server.exists m w))
      → (m : String) → is_in m cs ≡ true
      → server.exists m w1 ≡ true
  unfolding is_in
  there-after c cs w w1 apart there seen m h = elim (Bool-cases (str_eq c.name m)) [
    | inl e ↦
        let same : c.name ≡ m = (str_eq_iff _ _).0 e in
        let gone : is_in m cs ≡ false = rw same at apart in cc (gone, h)
    | inr e ↦ rw (seen m, e) (there m (rw e h))
  ]

  -- Objects that are created one after another are new and differ.
  create_many-made :
      (n : ℕ) (w : W)
      → (cms : List ConfigMap) × (w' : W) × (create_many client n w ≡ (returned cms, w'))
        × IsDistinct cms
        × ((m : String) → is_in m cms ≡ true → server.exists m w ≡ false)
        × ((m : String) → server.exists m w' ≡ (if is_in m cms then true else server.exists m w))
  unfolding create_many is_in IsDistinct
  create_many-made zero w = ([], w, refl, tt, (λ m e. cc), λ m. refl)
  create_many-made (suc n) w =
      let (c, w1, _, here, free, seen) = server.create-made workqueue_map w in
      let (cms, w', step, distinct, new, seen') = create_many-made n w1 in
      let (apart, new') = new-before c cms w w1 free seen new in
      (
        c ∷ cms,
        w',
        rw (create-step workqueue_map w, step) refl,
        (here, apart, distinct),
        new',
        λ m. ground (arith, seen m, seen' m),
      )

  delete_many-gone :
      (cms : List ConfigMap) (w : W)
      → IsDistinct cms
      → ((m : String) → is_in m cms ≡ true → server.exists m w ≡ true)
      → (w' : W) × (delete_many client cms w ≡ (returned tt, w'))
        × ((m : String) → server.exists m w' ≡ (if is_in m cms then false else server.exists m w))
  unfolding delete_many is_in IsDistinct
  delete_many-gone [] w d there = (w, refl, λ m. refl)
  delete_many-gone (c ∷ cs) w (here, apart, distinct) there =
      let (w1, e, seen) =
        server.delete-gone c.name w (there c.name (rw (str_eq_refl c.name) refl)) in
      let (w', step, seen') =
        delete_many-gone cs w1 distinct (there-after c cs w w1 apart there seen) in
      (w', rw (delete-step c w w1 here e, step) refl, λ m. ground (arith, seen m, seen' m))

  pub exercise-restores :
      (w : W)
      → (w' : W) × (exercise client w ≡ (returned tt, w'))
        × ((m : String) → server.exists m w' ≡ server.exists m w)
  unfolding exercise
  exercise-restores w =
      let (cms, w1, step, distinct, new, seen) = create_many-made 5 w in
      let (w', step', gone) = delete_many-gone cms w1 distinct (λ m h. rw (seen m, h) refl) in
      (
        w',
        rw (step, step') refl,
        λ m. elim (Bool-cases (is_in m cms)) [
          | inl e ↦ let free = new m e in ground (arith, e, free, gone m)
          | inr e ↦ ground (arith, e, gone m, seen m)
        ],
      )
