-- ===== src/Bundle.antt =====
-- internal/modelio/bundle.go: the records of a model bundle. A blob is a Go map.
pub mod Lint
pub mod Import
pub mod Export
use contrato_core.Base.{ℕ, String, List, Option, ℤ}
use contrato_core.Json.{Json, Map}

-- `Type` of the source.
pub record Kind : Type 0 where
  pub domain : String
  pub name : String

pub record Status : Type 0 where
  pub domain : String
  pub name : String

pub record Model : Type 0 where
  pub model_id : String
  pub version : ℕ
  pub status : String
  pub change_note : String
  pub created_at : ℕ

pub record Node : Type 0 where
  pub id : String
  pub domain : String
  pub type : String
  pub blob : Map

pub record Edge : Type 0 where
  pub from_id : String
  pub to_id : String
  pub domain : String
  pub type : String
  pub blob : Map

pub record Property : Type 0 where
  pub owner_type : String
  pub owner_id : String
  pub key : String
  pub value : Map

pub record Contract : Type 0 where
  pub id : String
  pub domain : String
  pub type : String
  pub status : String
  pub action : String
  pub model_id : String
  pub model_version : ℕ
  pub blob : Map
  pub reasons : List String
  pub obligations : List Map

-- `tenant.name` is `tenant_name`; the deprecated metrics are read by no code and left out.
pub record Bundle : Type 0 where
  pub format_version : ℤ
  pub tenant_name : String
  pub model : Model
  pub types : List Kind
  pub statuses : List Status
  pub nodes : List Node
  pub edges : List Edge
  pub properties : List Property
  pub contracts : List Contract
