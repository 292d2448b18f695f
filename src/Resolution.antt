-- ===== src/Resolution.antt =====
-- internal/resolution: the records of types.go and plan.go, and the interface of
-- resolver.go.
use contrato_core.Base.{String, Option, List, ℤ}
use contrato_core.Json.{Map}

pub record ModelRef : Type 0 where
  pub tenant_id : String
  pub model_id : String
  pub model_version : String

pub record EntityRef : Type 0 where
  pub node_id : String
  pub type : String

-- `Context` is a map; `At` is kept as its text.
pub record ContractRequest : Type 0 where
  pub id : String
  pub tenant_id : String
  pub model : ModelRef
  pub actor : EntityRef
  pub subject : EntityRef
  pub resource : EntityRef
  pub requested : String
  pub context : Map
  pub at_time : String

pub record ResolvedNode : Type 0 where
  pub node_id : String
  pub type : String
  pub blob : String

pub record ResolvedEdge : Type 0 where
  pub from_id : String
  pub to_id : String
  pub type : String
  pub blob : String

-- The pointers `Float`, `Int` and `Text`; a number is its text.
pub record ResolvedProperty : Type 0 where
  pub owner_type : String
  pub owner_id : String
  pub key : String
  pub float : Option String
  pub int : Option String
  pub text_value : Option String
  pub json : String
  pub bytes : String

pub record ResolvedPolicy : Type 0 where
  pub policy_node_id : String
  pub package_name : String
  pub rule : String
  pub input_schema : Map
  pub output_schema : Map

pub data StepKind : Type 0 where
  load_node load_edges load_params derive_facts attach_policy opa_input : StepKind

abbrev pub step_name : StepKind → String
step_name load_node = "load_node"
step_name load_edges = "load_edges"
step_name load_params = "load_parameters"
step_name derive_facts = "derive_facts"
step_name attach_policy = "attach_policy"
step_name opa_input = "build_opa_input"

pub record Step : Type 0 where
  pub kind : StepKind
  pub ref : String
  pub args : Map

pub record Limits : Type 0 where
  pub max_nodes : ℤ
  pub max_edges : ℤ
  pub max_depth : ℤ

pub record Plan : Type 0 where
  pub model : ModelRef
  pub steps : List Step
  pub limits : Limits
  pub notes : List String

-- `Result` of plan.go.
pub record Resolved : Type 0 where
  pub model : ModelRef
  pub nodes : List ResolvedNode
  pub edges : List ResolvedEdge
  pub params : List ResolvedProperty
  pub policies : List ResolvedPolicy
  pub facts : Map

pub record Obligation : Type 0 where
  pub name : String
  pub properties : Map

pub record Decision : Type 0 where
  pub action : String
  pub obligations : List Obligation
  pub reasons : List String
  pub facts : Map

-- The interface of resolver.go; `M` is what its methods do to return a result.
pub record Resolver (M : Type 0 → Type 0) : Type 1 where
  pub build_plan : ContractRequest → Limits → M Plan
  pub execute : Plan → M Resolved
