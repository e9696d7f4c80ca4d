-- ===== src/ResourceDefinition/Defaults.antt =====
-- resourcedefinition/apps/v1beta1/defaults.go and zz_generated.defaults.go.
use kubernetes_examples.Prelude.{map, if◌then◌else◌, str_eq}
use kubernetes_examples.ResourceDefinition.Types.{ObjectMeta, XxxSpec, Xxx, XxxList}

unfoldable pub set_defaults_xxx_spec : XxxSpec → XxxSpec
set_defaults_xxx_spec spec =
    if str_eq spec.display_name "" then record spec { display_name = "xxxdefaulter" } else spec

unfoldable pub set_defaults_meta : ObjectMeta → ObjectMeta
set_defaults_meta meta =
    if str_eq meta.generate_name "" then record meta { generate_name = "hello-" } else meta

unfoldable pub set_defaults_xxx : Xxx → Xxx
set_defaults_xxx x = record x {
  meta = set_defaults_meta x.meta;
  spec = set_defaults_xxx_spec x.spec;
}

unfoldable pub set_object_defaults_xxx : Xxx → Xxx
set_object_defaults_xxx x =
    let y = set_defaults_xxx x in record y { spec = set_defaults_xxx_spec y.spec }

-- The loop over the items.
unfoldable pub set_object_defaults_xxx_list : XxxList → XxxList
set_object_defaults_xxx_list l = record l { items = map set_object_defaults_xxx l.items }
