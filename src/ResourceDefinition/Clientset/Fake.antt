-- ===== src/ResourceDefinition/Clientset/Fake.antt =====
-- typed/apps/v1beta1/fake/fake_xxx.go: the client for tests, and fake/clientset_generated.go.
use kubernetes_examples.Prelude.Results.{Run, returned, panicked}
use kubernetes_examples.Prelude.{
  String, Bool, List, [], ◌∷◌, Option, none, some, StringMap, if◌then◌else◌,
}
use kubernetes_examples.ResourceDefinition.Types.{Xxx, XxxList}
use kubernetes_examples.ResourceDefinition.Clientset.Config.{scheme_group_version}
use kubernetes_examples.ResourceDefinition.Clientset.Rest.{ListOptions, Options, Error}
use kubernetes_examples.ResourceDefinition.Clientset.Typed.{zero_xxx, zero_list}

-- `schema.GroupVersionResource` and `schema.GroupVersionKind`.
pub record GroupVersionResource : Type 0 where
  pub group : String
  pub version : String
  pub resource : String

pub record GroupVersionKind : Type 0 where
  pub group : String
  pub version : String
  pub kind : String

unfoldable pub xxxs_resource : GroupVersionResource
xxxs_resource = record {
  group = scheme_group_version.group;
  version = scheme_group_version.version;
  resource = "xxxs";
}

unfoldable pub xxxs_kind : GroupVersionKind
xxxs_kind = record {
  group = scheme_group_version.group;
  version = scheme_group_version.version;
  kind = "XXX";
}

-- The actions of `k8s.io/client-go/testing`, by the function that builds them, with its arguments.
pub data Action : Type 0 where
  get_action : GroupVersionResource → (ns name : String) → Action
  list_action : GroupVersionResource → GroupVersionKind → (ns : String) → ListOptions → Action
  watch_action : GroupVersionResource → (ns : String) → ListOptions → Action
  create_action : GroupVersionResource → (ns : String) → Xxx → Action
  update_action : GroupVersionResource → (ns : String) → Xxx → Action
  update_subresource_action : GroupVersionResource → (subresource ns : String) → Xxx → Action
  delete_action : GroupVersionResource → (ns name : String) → Options → Action
  delete_collection_action : GroupVersionResource → (ns : String) → ListOptions → Action
  patch_subresource_action :
      GroupVersionResource → (ns name patch_type data' : String) → List String → Action

-- A `runtime.Object`; `other_object` is an object of another type.
pub data Object : Type 0 where
  xxx : Xxx → Object
  xxx_list : XxxList → Object
  other_object : Object

-- `testing.Fake` and the selectors of labels. `invokes` may answer a nil object, with or without an
-- error; `extract` is the selector of labels of `ExtractFromListOptions`, or nil.
pub record FakeLib (W S L : Type 0) : Type 0 where
  pub invokes : Action → Object → W → (Option Object × Option Error) × W
  pub invokes_watch : Action → W → (Option S × Option Error) × W
  pub extract : ListOptions → Option L
  pub everything : L
  pub matches : L → StringMap → Bool

-- `obj.(*v1beta1.XXX)` behind the test for nil.
unfoldable pub as_xxx : Option Object × Option Error → Run (Option Xxx × Option Error)
as_xxx (none, e) = returned (none, e)
as_xxx (some (xxx x), e) = returned (some x, e)
as_xxx (some (xxx_list _), e) = panicked
as_xxx (some other_object, e) = panicked

-- The loop over the items.
unfoldable pub matching : {L : Type 0} → (L → StringMap → Bool) → L → List Xxx → List Xxx
matching matches label [] = []
matching matches label (item ∷ items) =
    let rest = matching matches label items in
    if matches label item.meta.labels then item ∷ rest else rest

unfoldable pub label_or : {L : Type 0} → L → Option L → L
label_or everything none = everything
label_or everything (some label) = label

module _ {W S L : Type 0} (lib : FakeLib W S L) where
  -- The new list keeps nothing but the `ListMeta` and the items that match.
  unfoldable pub select_items :
      ListOptions → Option Object × Option Error → Run (Option XxxList × Option Error)
  select_items opts (none, e) = returned (none, e)
  select_items opts (some (xxx_list l), e) =
      let label = label_or lib.everything (lib.extract opts) in
      returned (
        some (record zero_list {
          list_meta = l.list_meta;
          items = matching lib.matches label l.items;
        }),
        e,
      )
  select_items opts (some (xxx _), e) = panicked
  select_items opts (some other_object, e) = panicked

  unfoldable pub invoke_xxx : Action → W → Run (Option Xxx × Option Error) × W
  invoke_xxx action w = let (reply, w') = lib.invokes action (xxx zero_xxx) w in (as_xxx reply, w')

  -- `FakeXXXs`, for the namespace `ns`.
  module _ (ns : String) where
    unfoldable pub fake_get : String → Options → W → Run (Option Xxx × Option Error) × W
    fake_get name opts = invoke_xxx (get_action xxxs_resource ns name)

    unfoldable pub fake_list : ListOptions → W → Run (Option XxxList × Option Error) × W
    fake_list opts w =
        let (reply, w') =
          lib.invokes (list_action xxxs_resource xxxs_kind ns opts) (xxx_list zero_list) w in
        (select_items opts reply, w')

    unfoldable pub fake_watch : ListOptions → W → (Option S × Option Error) × W
    fake_watch opts = lib.invokes_watch (watch_action xxxs_resource ns opts)

    unfoldable pub fake_create : Xxx → Options → W → Run (Option Xxx × Option Error) × W
    fake_create x opts = invoke_xxx (create_action xxxs_resource ns x)

    unfoldable pub fake_update : Xxx → Options → W → Run (Option Xxx × Option Error) × W
    fake_update x opts = invoke_xxx (update_action xxxs_resource ns x)

    unfoldable pub fake_update_status : Xxx → Options → W → Run (Option Xxx × Option Error) × W
    fake_update_status x opts = invoke_xxx (update_subresource_action xxxs_resource "status" ns x)

    unfoldable pub fake_delete : String → Options → W → Option Error × W
    fake_delete name opts w =
        let (reply, w') = lib.invokes (delete_action xxxs_resource ns name opts) (xxx zero_xxx) w in
        (reply.1, w')

    unfoldable pub fake_delete_collection : Options → ListOptions → W → Option Error × W
    fake_delete_collection opts list_opts w =
        let (reply, w') =
          lib.invokes (delete_collection_action xxxs_resource ns list_opts) (xxx_list zero_list)
            w in
        (reply.1, w')

    unfoldable pub fake_patch :
        String → String → String → Options → List String → W → Run (Option Xxx × Option Error) × W
    fake_patch name pt data' opts subresources =
        invoke_xxx (patch_subresource_action xxxs_resource ns name pt data' subresources)
