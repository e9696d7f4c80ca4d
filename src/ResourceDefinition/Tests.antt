-- ===== src/ResourceDefinition/Tests.antt =====
-- The theorems about the resource at concrete objects.
use kubernetes_examples.Prelude.{◌≡◌, [], ◌∷◌}
use kubernetes_examples.ResourceDefinition.Types.{
  TypeMeta, Xxx, XxxList, InternalXxx, InternalXxxList, phase_running, phase_pending,
}
use kubernetes_examples.ResourceDefinition.Conversion.{
  to_internal, from_internal, list_to_internal, list_from_internal,
}
use kubernetes_examples.ResourceDefinition.Laws.{round_trips}

abbrev typed : TypeMeta
typed = record { kind = "XXX"; api_version = "apps/v1beta1" }

abbrev untyped : TypeMeta
untyped = record { kind = ""; api_version = "" }

abbrev sample : Xxx
sample = record {
  type_meta = typed;
  meta = record { name = "one"; generate_name = ""; labels = []; other = [] };
  spec = record { display_name = "One"; description = "first" };
  status = record { phase = phase_running; observed_generation = 2; conditions = [] };
}

abbrev blank : Xxx
blank = record {
  type_meta = untyped;
  meta = record { name = ""; generate_name = ""; labels = []; other = [] };
  spec = record { display_name = ""; description = "" };
  status = record { phase = phase_pending; observed_generation = 0; conditions = [] };
}

abbrev internal_blank : TypeMeta → InternalXxx
internal_blank t = record {
  type_meta = t;
  meta = record { name = ""; generate_name = ""; labels = []; other = [] };
  spec = record { display_name = ""; description = "" };
  status = record { phase = ""; observed_generation = 0; conditions = [] };
}

abbrev two : XxxList
two = record {
  type_meta = typed;
  list_meta = record { resource_version = "5"; continue_token = "" };
  items = sample ∷ blank ∷ [];
}

abbrev empty : XxxList
empty = record {
  type_meta = untyped;
  list_meta = record { resource_version = ""; continue_token = "" };
  items = [];
}

abbrev internal_empty : InternalXxxList
internal_empty = record {
  type_meta = untyped;
  list_meta = record { resource_version = ""; continue_token = "" };
  items = [];
}

round_trips_example :
    (from_internal (to_internal sample (internal_blank untyped)) blank
      ≡ record sample { type_meta = untyped })
    × (to_internal (from_internal (internal_blank typed) blank) (internal_blank untyped)
        ≡ record (internal_blank typed) { type_meta = untyped })
    × (list_from_internal (list_to_internal two internal_empty) empty
        ≡ record two { type_meta = untyped })
round_trips_example =
    round_trips sample blank (internal_blank typed) (internal_blank untyped) two empty
      internal_empty
