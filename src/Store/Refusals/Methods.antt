-- ===== src/Store/Refusals/Methods.antt =====
-- Every method of the repositories, against a service that refuses every statement.
use contrato_core.Base.{ℕ, ℤ, String, Option, none, some, Eq}
use contrato_core.Storage.{
  Page, PutOptions, ObjectPutOptions, Kind, Status, ModelVersion, Node, Edge, Property,
  ContractRecord, Object,
}
use contrato_core.Storage.Deaf.{Idles, Stops, stop_rules, Idles-bind, Idles-pure}
use contrato_core.Repo.Versioned.{Versioned, check_expected, insert_row}
use contrato_core.Repo.ModelVersions
use contrato_core.Repo.ModelVersions.{pinned, get_latest_enabled}
use contrato_core.Repo.Graph
use contrato_core.Repo.Properties.{put_property, get_property}
use contrato_core.Repo.Contracts.{
  append_contract, put_contract, get_contract, get_contract_version, list_by_type,
}
use contrato_core.Repo.Objects.{append_object, put_object, get_by_node_id, delete_by_node_id}
use contrato_core.Repo.Registries.{
  create_tenant, get_tenant, get_tenant_by_name, create_type, get_type_by_name, create_status,
  get_status_by_name,
}

module _ {R K : Type 0} ⦃e : Eq K⦄ (t : Versioned R K) where
  check_expected-Idles : (v : Option ℤ) (k : K) → Idles (check_expected t v k)
  unfolding check_expected
  check_expected-Idles none k = Idles-pure tt
  check_expected-Idles (some v) k = search (stop_rules, Idles-bind)

pinned-Idles : (t m : String) (v : ℕ) → Idles (pinned t m v)
unfolding pinned get_latest_enabled
pinned-Idles t m v = search stop_rules

pub put_node-Stops : (n : Node) (opts : PutOptions) → Stops (Graph.put_node n opts)
unfolding Graph.put_node insert_row
put_node-Stops n opts = search (stop_rules, pinned-Idles, check_expected-Idles) depth 12

pub put_edge-Stops : (x : Edge) (opts : PutOptions) → Stops (Graph.put_edge x opts)
unfolding Graph.put_edge insert_row
put_edge-Stops x opts = search (stop_rules, pinned-Idles, check_expected-Idles) depth 12

pub put_property-Stops : (p : Property) (opts : PutOptions) → Stops (put_property p opts)
unfolding put_property insert_row
put_property-Stops p opts = search (stop_rules, pinned-Idles, check_expected-Idles) depth 12

append_contract-Stops : (c : ContractRecord) (opts : PutOptions) → Stops (append_contract c opts)
unfolding append_contract insert_row
append_contract-Stops c opts = search (stop_rules, pinned-Idles, check_expected-Idles) depth 12

pub put_contract-Stops : (c : ContractRecord) (opts : PutOptions) → Stops (put_contract c opts)
unfolding put_contract
put_contract-Stops c opts = search (stop_rules, append_contract-Stops)

pub create-Stops : (mv : ModelVersion) → Stops (ModelVersions.create mv)
unfolding ModelVersions.create insert_row
create-Stops mv = search stop_rules depth 12

append_object-Stops :
    (etag_of : String → String) (o : Object) (opts : ObjectPutOptions)
    → Stops (append_object etag_of o opts)
unfolding append_object insert_row
append_object-Stops etag_of o opts = search (stop_rules, check_expected-Idles) depth 14

pub put_object-Stops :
    (etag_of : String → String) (o : Object) (opts : ObjectPutOptions)
    → Stops (put_object etag_of o opts)
unfolding put_object
put_object-Stops etag_of o opts = search (stop_rules, append_object-Stops)

pub get_by_node_id-Stops : (t n : String) → Stops (get_by_node_id t n)
unfolding get_by_node_id
get_by_node_id-Stops t n = search stop_rules

pub create_tenant-Stops : (name : String) → Stops (create_tenant name)
unfolding create_tenant
create_tenant-Stops name = search stop_rules

pub get_tenant-Stops : (id : String) → Stops (get_tenant id)
unfolding get_tenant
get_tenant-Stops id = search stop_rules

pub get_tenant_by_name-Stops : (name : String) → Stops (get_tenant_by_name name)
unfolding get_tenant_by_name
get_tenant_by_name-Stops name = search stop_rules

pub create_type-Stops : (k : Kind) → Stops (create_type k)
unfolding create_type
create_type-Stops k = search stop_rules

pub get_type_by_name-Stops : (t d n : String) → Stops (get_type_by_name t d n)
unfolding get_type_by_name
get_type_by_name-Stops t d n = search stop_rules

pub create_status-Stops : (s : Status) → Stops (create_status s)
unfolding create_status
create_status-Stops s = search stop_rules

pub get_status_by_name-Stops : (t d n : String) → Stops (get_status_by_name t d n)
unfolding get_status_by_name
get_status_by_name-Stops t d n = search stop_rules

pub get_property-Stops : (t o i k : String) → Stops (get_property t o i k)
unfolding get_property
get_property-Stops t o i k = search stop_rules

pub get_model_version-Stops : (t m : String) (v : ℕ) → Stops (ModelVersions.get t m v)
unfolding ModelVersions.get
get_model_version-Stops t m v = search stop_rules

pub get_latest_enabled-Stops : (t : String) → Stops (get_latest_enabled t)
unfolding get_latest_enabled
get_latest_enabled-Stops t = search stop_rules

pub list-Stops : (t m : String) (page : Page) → Stops (ModelVersions.list t m page)
unfolding ModelVersions.list
list-Stops t m page = search stop_rules

pub get_contract-Stops : (t i : String) → Stops (get_contract t i)
unfolding get_contract
get_contract-Stops t i = search stop_rules

pub get_contract_version-Stops : (t i : String) (v : ℕ) → Stops (get_contract_version t i v)
unfolding get_contract_version
get_contract_version-Stops t i v = search stop_rules

pub list_by_type-Stops : (t d k : String) (page : Page) → Stops (list_by_type t d k page)
unfolding list_by_type
list_by_type-Stops t d k page = search stop_rules

pub delete_by_node_id-Stops : (t n : String) → Stops (delete_by_node_id t n)
unfolding delete_by_node_id
delete_by_node_id-Stops t n = search stop_rules

pub get_node-Stops : (t i : String) → Stops (Graph.get_node t i)
unfolding Graph.get_node
get_node-Stops t i = search stop_rules

pub out_edges-Stops : (t f d k : String) (page : Page) → Stops (Graph.out_edges t f d k page)
unfolding Graph.out_edges
out_edges-Stops t f d k page = search stop_rules
