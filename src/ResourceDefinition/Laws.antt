-- ===== src/ResourceDefinition/Laws.antt =====
-- Conversions lose nothing but the type of a single object, and defaults settle at once.
use kubernetes_examples.Prelude.{
  Bool-cases, inl, inr, false, ◌≡◌, ◌≢◌, refl, ap, List, [], ◌∷◌, map, arith, str_eq, str_eq_iff,
}
use kubernetes_examples.ResourceDefinition.Types.{
  ObjectMeta, XxxSpec, Xxx, XxxList, InternalXxx, InternalXxxList,
}
use kubernetes_examples.ResourceDefinition.Defaults.{
  set_defaults_meta, set_defaults_xxx_spec, set_defaults_xxx, set_object_defaults_xxx,
  set_object_defaults_xxx_list,
}
use kubernetes_examples.ResourceDefinition.Conversion.{
  spec_to_internal, spec_from_internal, status_to_internal, status_from_internal, to_internal,
  from_internal, cast_to_internal, cast_from_internal, list_to_internal, list_from_internal,
}

single_round_trip :
    (x back : Xxx) (y out : InternalXxx)
    → (from_internal (to_internal x out) back ≡ record x { type_meta = back.type_meta })
      × (to_internal (from_internal y back) out ≡ record y { type_meta = out.type_meta })
unfolding to_internal from_internal spec_to_internal spec_from_internal status_to_internal
    status_from_internal
single_round_trip x back y out = (refl, refl)

cast_round_trip : (xs : List Xxx) → map cast_from_internal (map cast_to_internal xs) ≡ xs
unfolding cast_to_internal cast_from_internal
cast_round_trip [] = refl
cast_round_trip (x ∷ xs) = ap (λ l. x ∷ l) (cast_round_trip xs)

list_round_trip :
    (l back : XxxList) (out : InternalXxxList)
    → list_from_internal (list_to_internal l out) back ≡ record l { type_meta = back.type_meta }
unfolding list_to_internal list_from_internal
list_round_trip l back out = rw (cast_round_trip l.items) refl

-- The conversion of an object to the other version and back gives the object again, either way round, but
-- for its kind and version, which are those of the object written to; that of a list to the internal
-- version and back gives the list again, its items with their kinds and versions, and only the kind and
-- version of the list are those of the list written to.
pub round_trips :
    (x back : Xxx) (y out : InternalXxx) (l list_back : XxxList) (list_out : InternalXxxList)
    → (from_internal (to_internal x out) back ≡ record x { type_meta = back.type_meta })
      × (to_internal (from_internal y back) out ≡ record y { type_meta = out.type_meta })
      × (list_from_internal (list_to_internal l list_out) list_back
          ≡ record l { type_meta = list_back.type_meta })
round_trips x back y out l list_back list_out =
    let (there, here) = single_round_trip x back y out in
    (there, here, list_round_trip l list_back list_out)

prefix_set : str_eq "hello-" "" ≡ false
unfolding str_eq
prefix_set = refl

display_name_set : str_eq "xxxdefaulter" "" ≡ false
unfolding str_eq
display_name_set = refl

spec_again :
    (s : XxxSpec) → set_defaults_xxx_spec (set_defaults_xxx_spec s) ≡ set_defaults_xxx_spec s
unfolding set_defaults_xxx_spec
spec_again s = elim (Bool-cases (str_eq s.display_name "")) [
  | inl e ↦ rw (e, display_name_set) refl
  | inr e ↦ rw (e, e) refl
]

meta_again : (m : ObjectMeta) → set_defaults_meta (set_defaults_meta m) ≡ set_defaults_meta m
unfolding set_defaults_meta
meta_again m = elim (Bool-cases (str_eq m.generate_name "")) [
  | inl e ↦ rw (e, prefix_set) refl
  | inr e ↦ rw (e, e) refl
]

object_again :
    (x : Xxx) → set_object_defaults_xxx (set_object_defaults_xxx x) ≡ set_object_defaults_xxx x
unfolding set_object_defaults_xxx set_defaults_xxx
object_again x =
    rw (meta_again x.meta, spec_again x.spec, spec_again x.spec, spec_again x.spec) refl

items_again :
    (xs : List Xxx)
    → map set_object_defaults_xxx (map set_object_defaults_xxx xs) ≡ map set_object_defaults_xxx xs
items_again [] = refl
items_again (x ∷ xs) = rw (object_again x, items_again xs) refl

-- Setting the defaults of a list a second time changes nothing.
defaults_settle :
    (l : XxxList)
    → set_object_defaults_xxx_list (set_object_defaults_xxx_list l) ≡ set_object_defaults_xxx_list l
unfolding set_object_defaults_xxx_list
defaults_settle l = rw (items_again l.items) refl

spec_filled :
    (s : XxxSpec)
    → let t = set_defaults_xxx_spec s in
      (t.display_name ≢ "") × (s.display_name ≢ "" → t ≡ s) × (t.description ≡ s.description)
unfolding set_defaults_xxx_spec
spec_filled s = elim (Bool-cases (str_eq s.display_name "")) [
  | inl e ↦ rw e (
    λ f. ground (arith, str_eq_iff "xxxdefaulter" "", display_name_set, f),
    λ f. ground (arith, str_eq_iff s.display_name "", e, f),
    refl,
  )
  | inr e ↦ rw e (λ f. ground (arith, str_eq_iff s.display_name "", e, f), λ f. refl, refl)
]

meta_filled :
    (m : ObjectMeta)
    → let t = set_defaults_meta m in
      (t.generate_name ≢ "") × (m.generate_name ≢ "" → t ≡ m) × (t.name ≡ m.name)
unfolding set_defaults_meta
meta_filled m = elim (Bool-cases (str_eq m.generate_name "")) [
  | inl e ↦ rw e (
    λ f. ground (arith, str_eq_iff "hello-" "", prefix_set, f),
    λ f. ground (arith, str_eq_iff m.generate_name "", e, f),
    refl,
  )
  | inr e ↦ rw e (λ f. ground (arith, str_eq_iff m.generate_name "", e, f), λ f. refl, refl)
]

-- After the defaults are set, an object has a prefix for generated names and a display name: its own where
-- it had one. Its name, its description and its status stay as they are.
defaults_fill :
    (x : Xxx)
    → let y = set_object_defaults_xxx x in
      (y.meta.generate_name ≢ "")
      × (y.spec.display_name ≢ "")
      × (x.meta.generate_name ≢ "" → y.meta ≡ x.meta)
      × (x.spec.display_name ≢ "" → y.spec ≡ x.spec)
      × (y.meta.name ≡ x.meta.name)
      × (y.spec.description ≡ x.spec.description)
      × (y.status ≡ x.status)
unfolding set_object_defaults_xxx set_defaults_xxx
defaults_fill x =
    let m = meta_filled x.meta in
    let s = spec_filled x.spec in rw (spec_again x.spec) (m.0, s.0, m.1, s.1, m.2, s.2, refl)
