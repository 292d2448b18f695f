-- ===== src/Store/Requests.antt =====
-- The calls of the repositories' methods as one type: whether a call succeeds, and the process that
-- it leaves.
pub mod Borrows
use contrato_core.Base.{ℕ, String, Bool, true, false}
use contrato_core.Storage.{
  Page, PutOptions, ObjectPutOptions, Kind, Status, ModelVersion, Node, Edge, Property,
  ContractRecord, Object, Result, ok, err,
}
use contrato_core.Storage.Host.{Host}
use contrato_core.Storage.Interfaces.{Repositories}

pub data Request : Type 0 where
  create_tenant get_tenant get_tenant_by_name : String → Request
  create_type : Kind → Request
  get_type_by_name : String → String → String → Request
  create_status : Status → Request
  get_status_by_name : String → String → String → Request
  put_property : Property → PutOptions → Request
  get_property : String → String → String → String → Request
  create_model_version : ModelVersion → Request
  get_model_version : String → String → ℕ → Request
  get_latest_enabled : String → Request
  list_model_versions : String → String → Page → Request
  get_contract : String → String → Request
  get_contract_version : String → String → ℕ → Request
  put_contract : ContractRecord → PutOptions → Request
  list_contracts : String → String → String → Page → Request
  get_object delete_object : String → String → Request
  put_object : Object → ObjectPutOptions → Request
  put_node : Node → PutOptions → Request
  get_node : String → String → Request
  put_edge : Edge → PutOptions → Request
  out_edges : String → String → String → String → Page → Request

abbrev pub outcome : {A : Type 0} → Result A × Host → Bool × Host
outcome (ok a, h) = (true, h)
outcome (err x, h) = (false, h)

unfoldable pub request : Repositories → Request → Host → Bool × Host
request r (create_tenant name) h = outcome (r.tenants.create name h)
request r (get_tenant id) h = outcome (r.tenants.get id h)
request r (get_tenant_by_name name) h = outcome (r.tenants.get_by_name name h)
request r (create_type t) h = outcome (r.types.create t h)
request r (get_type_by_name t d n) h = outcome (r.types.get_by_name t d n h)
request r (create_status s) h = outcome (r.statuses.create s h)
request r (get_status_by_name t d n) h = outcome (r.statuses.get_by_name t d n h)
request r (put_property p opts) h = outcome (r.properties.put p opts h)
request r (get_property t o i k) h = outcome (r.properties.get t o i k h)
request r (create_model_version mv) h = outcome (r.model_versions.create mv h)
request r (get_model_version t m v) h = outcome (r.model_versions.get t m v h)
request r (get_latest_enabled t) h = outcome (r.model_versions.get_latest_enabled t h)
request r (list_model_versions t m page) h = outcome (r.model_versions.list t m page h)
request r (get_contract t i) h = outcome (r.contracts.get t i h)
request r (get_contract_version t i v) h = outcome (r.contracts.get_version t i v h)
request r (put_contract c opts) h = outcome (r.contracts.put c opts h)
request r (list_contracts t d k page) h = outcome (r.contracts.list_by_type t d k page h)
request r (get_object t n) h = outcome (r.objects.get_by_node_id t n h)
request r (delete_object t n) h = outcome (r.objects.delete_by_node_id t n h)
request r (put_object o opts) h = outcome (r.objects.put o opts h)
request r (put_node n opts) h = outcome (r.graph.put_node n opts h)
request r (get_node t i) h = outcome (r.graph.get_node t i h)
request r (put_edge x opts) h = outcome (r.graph.put_edge x opts h)
request r (out_edges t f d k page) h = outcome (r.graph.out_edges t f d k page h)
