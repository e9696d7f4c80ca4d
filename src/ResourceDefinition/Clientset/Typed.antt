-- ===== src/ResourceDefinition/Clientset/Typed.antt =====
-- typed/apps/v1beta1/xxx.go: the typed client.
use kubernetes_examples.Prelude.{String, true, List, [], ◌∷◌, Option, none, some}
use kubernetes_examples.Prelude.Int.{ℤ, pos, mul_int}
use kubernetes_examples.ResourceDefinition.Types.{Xxx, XxxList}
use kubernetes_examples.ResourceDefinition.Clientset.Rest.{
  ListOptions, Options, get, post, put, delete, patch, list_options, options, object,
  delete_options, bytes, Setter, verb, namespace, resource, name, sub_resource, versioned_params,
  timeout, body, Error, RestClient,
}

-- `&v1beta1.XXX{}` and `&v1beta1.XXXList{}`.
abbrev pub zero_xxx : Xxx
zero_xxx = record {
  type_meta = record { kind = ""; api_version = "" };
  meta = record { name = ""; generate_name = ""; labels = []; other = [] };
  spec = record { display_name = ""; description = "" };
  status = record { phase = ""; observed_generation = 0; conditions = [] };
}

abbrev pub zero_list : XxxList
zero_list = record {
  type_meta = record { kind = ""; api_version = "" };
  list_meta = record { resource_version = ""; continue_token = "" };
  items = [];
}

-- `time.Duration(*opts.TimeoutSeconds) * time.Second`, an int64 of nanoseconds.
unfoldable pub duration_of : Option ℤ → ℤ
duration_of none = pos 0
duration_of (some seconds) = mul_int seconds (pos 1000000000)

-- The requests, in the order in which the methods of the client build them. `ns` is the namespace of
-- the client.
module _ (ns : String) where
  unfoldable pub get_request : String → Options → List Setter
  get_request n opts =
      verb get ∷ namespace ns ∷ resource "xxxs" ∷ name n ∷ versioned_params (options opts) ∷ []

  unfoldable pub list_request : ListOptions → List Setter
  list_request opts =
      verb get
      ∷ namespace ns
      ∷ resource "xxxs"
      ∷ versioned_params (list_options opts)
      ∷ timeout (duration_of opts.timeout_seconds)
      ∷ []

  unfoldable pub watch_request : ListOptions → List Setter
  watch_request opts =
      verb get
      ∷ namespace ns
      ∷ resource "xxxs"
      ∷ versioned_params (list_options (record opts { watch = true }))
      ∷ timeout (duration_of opts.timeout_seconds)
      ∷ []

  unfoldable pub create_request : Xxx → Options → List Setter
  create_request x opts =
      verb post
      ∷ namespace ns
      ∷ resource "xxxs"
      ∷ versioned_params (options opts)
      ∷ body (object x)
      ∷ []

  unfoldable pub update_request : Xxx → Options → List Setter
  update_request x opts =
      verb put
      ∷ namespace ns
      ∷ resource "xxxs"
      ∷ name x.meta.name
      ∷ versioned_params (options opts)
      ∷ body (object x)
      ∷ []

  unfoldable pub update_status_request : Xxx → Options → List Setter
  update_status_request x opts =
      verb put
      ∷ namespace ns
      ∷ resource "xxxs"
      ∷ name x.meta.name
      ∷ sub_resource ("status" ∷ [])
      ∷ versioned_params (options opts)
      ∷ body (object x)
      ∷ []

  unfoldable pub delete_request : String → Options → List Setter
  delete_request n opts =
      verb delete ∷ namespace ns ∷ resource "xxxs" ∷ name n ∷ body (delete_options opts) ∷ []

  unfoldable pub delete_collection_request : Options → ListOptions → List Setter
  delete_collection_request opts list_opts =
      verb delete
      ∷ namespace ns
      ∷ resource "xxxs"
      ∷ versioned_params (list_options list_opts)
      ∷ timeout (duration_of list_opts.timeout_seconds)
      ∷ body (delete_options opts)
      ∷ []

  unfoldable pub patch_request : String → String → String → Options → List String → List Setter
  patch_request n pt data' opts subresources =
      verb (patch pt)
      ∷ namespace ns
      ∷ resource "xxxs"
      ∷ name n
      ∷ sub_resource subresources
      ∷ versioned_params (options opts)
      ∷ body (bytes data')
      ∷ []

-- `xXXs`; the context is left out.
module _ {W S : Type 0} (client : RestClient W S) (ns : String) where
  unfoldable pub get_xxx : String → Options → W → (Xxx × Option Error) × W
  get_xxx n opts = client.into_xxx (get_request ns n opts) zero_xxx

  unfoldable pub list_xxx : ListOptions → W → (XxxList × Option Error) × W
  list_xxx opts = client.into_list (list_request ns opts) zero_list

  unfoldable pub watch_xxx : ListOptions → W → (Option S × Option Error) × W
  watch_xxx opts = client.watch (watch_request ns opts)

  unfoldable pub create_xxx : Xxx → Options → W → (Xxx × Option Error) × W
  create_xxx x opts = client.into_xxx (create_request ns x opts) zero_xxx

  unfoldable pub update_xxx : Xxx → Options → W → (Xxx × Option Error) × W
  update_xxx x opts = client.into_xxx (update_request ns x opts) zero_xxx

  unfoldable pub update_status_xxx : Xxx → Options → W → (Xxx × Option Error) × W
  update_status_xxx x opts = client.into_xxx (update_status_request ns x opts) zero_xxx

  unfoldable pub delete_xxx : String → Options → W → Option Error × W
  delete_xxx n opts = client.error (delete_request ns n opts)

  unfoldable pub delete_collection_xxx : Options → ListOptions → W → Option Error × W
  delete_collection_xxx opts list_opts = client.error (delete_collection_request ns opts list_opts)

  unfoldable pub patch_xxx :
      String → String → String → Options → List String → W → (Xxx × Option Error) × W
  patch_xxx n pt data' opts subresources =
      client.into_xxx (patch_request ns n pt data' opts subresources) zero_xxx
