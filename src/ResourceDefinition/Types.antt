-- ===== src/ResourceDefinition/Types.antt =====
-- resourcedefinition/apps/v1beta1/xxx_types.go, and the internal version in
-- resourcedefinition/apps/xxx_types.go, whose names start with Internal here.
use kubernetes_examples.Prelude.{ℕ, String, List, StringMap}

-- The parts of `metav1` that the resource holds; `other` stands for the fields that no function reads
-- one by one. A nil map is the empty one.
pub record TypeMeta : Type 0 where
  pub kind : String
  pub api_version : String

pub record ObjectMeta : Type 0 where
  pub name : String
  pub generate_name : String
  pub labels : StringMap
  pub other : List (String × String)

pub record ListMeta : Type 0 where
  pub resource_version : String
  pub continue_token : String

pub record Condition : Type 0 where
  pub type : String
  pub status : String
  pub reason : String
  pub message : String

-- `XXXPhase` is a string with two named values.
abbrev pub phase_running : String
phase_running = "Running"

abbrev pub phase_pending : String
phase_pending = "Pending"

pub record XxxSpec : Type 0 where
  pub display_name : String
  pub description : String

pub record XxxStatus : Type 0 where
  pub phase : String
  pub observed_generation : ℕ
  pub conditions : List Condition

pub record Xxx : Type 0 where
  pub type_meta : TypeMeta
  pub meta : ObjectMeta
  pub spec : XxxSpec
  pub status : XxxStatus

pub record XxxList : Type 0 where
  pub type_meta : TypeMeta
  pub list_meta : ListMeta
  pub items : List Xxx

pub record InternalXxxSpec : Type 0 where
  pub display_name : String
  pub description : String

pub record InternalXxxStatus : Type 0 where
  pub phase : String
  pub observed_generation : ℕ
  pub conditions : List Condition

pub record InternalXxx : Type 0 where
  pub type_meta : TypeMeta
  pub meta : ObjectMeta
  pub spec : InternalXxxSpec
  pub status : InternalXxxStatus

pub record InternalXxxList : Type 0 where
  pub type_meta : TypeMeta
  pub list_meta : ListMeta
  pub items : List InternalXxx
