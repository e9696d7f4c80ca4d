-- ===== src/ResourceDefinition/Conversion.antt =====
-- resourcedefinition/apps/v1beta1/zz_generated.conversion.go. Each conversion takes the object that it
-- writes to, as the source does, and returns it with the fields that it sets; its error is always nil.
use kubernetes_examples.Prelude.{String, List, [], ◌∷◌, map, Option, none, some}
use kubernetes_examples.ResourceDefinition.Types.{
  XxxSpec, XxxStatus, Xxx, XxxList, InternalXxxSpec, InternalXxxStatus, InternalXxx,
  InternalXxxList,
}

unfoldable pub spec_to_internal : XxxSpec → InternalXxxSpec → InternalXxxSpec
spec_to_internal s out = record out { display_name = s.display_name; description = s.description }

unfoldable pub spec_from_internal : InternalXxxSpec → XxxSpec → XxxSpec
spec_from_internal s out = record out { display_name = s.display_name; description = s.description }

unfoldable pub status_to_internal : XxxStatus → InternalXxxStatus → InternalXxxStatus
status_to_internal s out = record out {
  phase = s.phase;
  observed_generation = s.observed_generation;
  conditions = s.conditions;
}

unfoldable pub status_from_internal : InternalXxxStatus → XxxStatus → XxxStatus
status_from_internal s out = record out {
  phase = s.phase;
  observed_generation = s.observed_generation;
  conditions = s.conditions;
}

unfoldable pub to_internal : Xxx → InternalXxx → InternalXxx
to_internal x out = record out {
  meta = x.meta;
  spec = spec_to_internal x.spec out.spec;
  status = status_to_internal x.status out.status;
}

unfoldable pub from_internal : InternalXxx → Xxx → Xxx
from_internal x out = record out {
  meta = x.meta;
  spec = spec_from_internal x.spec out.spec;
  status = status_from_internal x.status out.status;
}

-- The cast of the items through `unsafe.Pointer` reads the same memory, field by field.
unfoldable pub cast_to_internal : Xxx → InternalXxx
cast_to_internal x = record {
  type_meta = x.type_meta;
  meta = x.meta;
  spec = record { display_name = x.spec.display_name; description = x.spec.description };
  status = record {
    phase = x.status.phase;
    observed_generation = x.status.observed_generation;
    conditions = x.status.conditions;
  };
}

unfoldable pub cast_from_internal : InternalXxx → Xxx
cast_from_internal x = record {
  type_meta = x.type_meta;
  meta = x.meta;
  spec = record { display_name = x.spec.display_name; description = x.spec.description };
  status = record {
    phase = x.status.phase;
    observed_generation = x.status.observed_generation;
    conditions = x.status.conditions;
  };
}

unfoldable pub list_to_internal : XxxList → InternalXxxList → InternalXxxList
list_to_internal l out = record out {
  list_meta = l.list_meta;
  items = map cast_to_internal l.items;
}

unfoldable pub list_from_internal : InternalXxxList → XxxList → XxxList
list_from_internal l out = record out {
  list_meta = l.list_meta;
  items = map cast_from_internal l.items;
}

-- The pairs of types in the order in which `RegisterConversions` adds them.
abbrev pub conversions : List (String × String)
conversions =
    ("v1beta1.XXX", "apps.XXX")
    ∷ ("apps.XXX", "v1beta1.XXX")
    ∷ ("v1beta1.XXXList", "apps.XXXList")
    ∷ ("apps.XXXList", "v1beta1.XXXList")
    ∷ ("v1beta1.XXXSpec", "apps.XXXSpec")
    ∷ ("apps.XXXSpec", "v1beta1.XXXSpec")
    ∷ ("v1beta1.XXXStatus", "apps.XXXStatus")
    ∷ ("apps.XXXStatus", "v1beta1.XXXStatus")
    ∷ []

module _ {S E : Type 0} (add : String × String → S → Option E × S) where
  unfoldable pub add_each : List (String × String) → S → Option E × S
  add_each [] s = (none, s)
  add_each (c ∷ cs) s =
      let (e, s') = add c s in
      let rest = add_each cs s' in elim e [ some err ↦ (some err, s') | none ↦ rest ]

  -- `add` is `AddGeneratedConversionFunc`; the first error ends the registration.
  unfoldable pub register_conversions : S → Option E × S
  register_conversions s = add_each conversions s
