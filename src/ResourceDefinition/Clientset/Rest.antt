-- ===== src/ResourceDefinition/Clientset/Rest.antt =====
-- The REST client of client-go and the options of metav1, which the typed client uses and does not
-- implement.
use kubernetes_examples.Prelude.{String, Bool, List, Option, StringMap}
use kubernetes_examples.Prelude.Int.{ℤ}
use kubernetes_examples.ResourceDefinition.Types.{Xxx, XxxList}

-- `metav1.ListOptions`; an absent timeout is `none`.
pub record ListOptions : Type 0 where
  pub label_selector : String
  pub field_selector : String
  pub resource_version : String
  pub watch : Bool
  pub timeout_seconds : Option ℤ

-- The options of the other verbs: texts, of which the client reads none.
pub record Options : Type 0 where
  pub fields : StringMap

pub data Verb : Type 0 where
  get post put delete : Verb
  patch : String → Verb

pub data Params : Type 0 where
  list_options : ListOptions → Params
  options : Options → Params

pub data Body : Type 0 where
  object : Xxx → Body
  delete_options : Options → Body
  bytes : String → Body

-- The methods of `rest.Request`, which a request is built with.
pub data Setter : Type 0 where
  verb : Verb → Setter
  namespace resource name : String → Setter
  sub_resource : List String → Setter
  versioned_params : Params → Setter
  timeout : ℤ → Setter
  body : Body → Setter

-- The texts of the errors that the client passes on.
abbrev pub Error : Type 0
Error = String

-- The ends of a request: `Do(ctx).Into(result)`, which writes to the object that it is given, and may
-- write to it before it fails; `Do(ctx).Error()`; and `Watch(ctx)`. `W` is the state of the world, `S`
-- the type of watches.
pub record RestClient (W S : Type 0) : Type 0 where
  pub into_xxx : List Setter → Xxx → W → (Xxx × Option Error) × W
  pub into_list : List Setter → XxxList → W → (XxxList × Option Error) × W
  pub error : List Setter → W → Option Error × W
  pub watch : List Setter → W → (Option S × Option Error) × W
