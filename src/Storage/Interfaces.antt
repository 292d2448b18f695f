-- ===== src/Storage/Interfaces.antt =====
-- The interfaces of internal/storage/storage.go. A method takes the process to a result and the
-- process that it leaves; what a method of a repository takes and returns is as in the source.
use contrato_core.Base.{ℕ, String, List}
use contrato_core.Storage.{
  CapSet, Page, PutOptions, ObjectPutOptions, TxOptions, Tenant, Kind, Status, Property,
  ModelVersion, ContractRecord, Object, Node, Edge,
}
use contrato_core.Storage.Host.{Op}

pub record TenantRepo : Type 0 where
  pub create : String → Op Tenant
  pub get : String → Op Tenant
  pub get_by_name : String → Op Tenant

pub record TypeRepo : Type 0 where
  pub create : Kind → Op Kind
  pub get_by_name : String → String → String → Op Kind

pub record StatusRepo : Type 0 where
  pub create : Status → Op Status
  pub get_by_name : String → String → String → Op Status

pub record PropertyRepo : Type 0 where
  pub put : Property → PutOptions → Op Property
  pub get : String → String → String → String → Op Property

pub record ModelVersionRepo : Type 0 where
  pub create : ModelVersion → Op ModelVersion
  pub get : String → String → ℕ → Op ModelVersion
  pub get_latest_enabled : String → Op ModelVersion
  pub list : String → String → Page → Op (List ModelVersion)

pub record ContractRepo : Type 0 where
  pub get : String → String → Op ContractRecord
  pub get_version : String → String → ℕ → Op ContractRecord
  pub put : ContractRecord → PutOptions → Op ContractRecord
  pub list_by_type : String → String → String → Page → Op (List ContractRecord)

pub record ObjectRepo : Type 0 where
  pub get_by_node_id : String → String → Op Object
  pub put : Object → ObjectPutOptions → Op Object
  pub delete_by_node_id : String → String → Op (Unit {0})

pub record GraphRepo : Type 0 where
  pub put_node : Node → PutOptions → Op Node
  pub get_node : String → String → Op Node
  pub put_edge : Edge → PutOptions → Op Edge
  pub out_edges : String → String → String → String → Page → Op (List Edge)

-- The eight accessors that a store and a transaction both have.
pub record Repositories : Type 0 where
  pub tenants : TenantRepo
  pub types : TypeRepo
  pub statuses : StatusRepo
  pub properties : PropertyRepo
  pub model_versions : ModelVersionRepo
  pub contracts : ContractRepo
  pub objects : ObjectRepo
  pub graph : GraphRepo

pub record Tx : Type 0 where
  pub repositories : Repositories
  pub commit : Op (Unit {0})
  pub rollback : Op (Unit {0})

pub record Store : Type 0 where
  pub repositories : Repositories
  pub capabilities : CapSet
  pub health : Op (Unit {0})
  pub close : Op (Unit {0})
  pub begin_tx : TxOptions → Op Tx
