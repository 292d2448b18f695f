-- ===== src/Repo/Calls.antt =====
-- The writes of the repositories as one type of calls, and the database after any sequence of them.
pub mod WellFormed
pub mod References
use contrato_core.Base.{String, List, [], ◌∷◌}
use contrato_core.Storage.{
  PutOptions, ObjectPutOptions, Kind, Status, ModelVersion, Node, Edge, Property, ContractRecord,
  Object,
}
use contrato_core.Storage.Server.{World}
use contrato_core.Repo.ModelVersions.{create}
use contrato_core.Repo.Graph.{put_node, put_edge}
use contrato_core.Repo.Properties.{put_property}
use contrato_core.Repo.Contracts.{put_contract}
use contrato_core.Repo.Objects.{put_object, delete_by_node_id}
use contrato_core.Repo.Registries.{create_tenant, create_type, create_status}

pub data Call : Type 0 where
  new_tenant : String → Call
  new_type : Kind → Call
  new_status : Status → Call
  new_model_version : ModelVersion → Call
  write_node : Node → PutOptions → Call
  write_edge : Edge → PutOptions → Call
  write_property : Property → PutOptions → Call
  write_contract : ContractRecord → PutOptions → Call
  write_object : Object → ObjectPutOptions → Call
  delete_objects : String → String → Call

module _ (etag_of : String → String) where
  -- The world that a call leaves, whether it succeeds or fails.
  unfoldable pub perform : Call → World → World
  perform (new_tenant name) w = (create_tenant name w).1
  perform (new_type k) w = (create_type k w).1
  perform (new_status s) w = (create_status s w).1
  perform (new_model_version mv) w = (create mv w).1
  perform (write_node n opts) w = (put_node n opts w).1
  perform (write_edge x opts) w = (put_edge x opts w).1
  perform (write_property p opts) w = (put_property p opts w).1
  perform (write_contract rec opts) w = (put_contract rec opts w).1
  perform (write_object o opts) w = (put_object etag_of o opts w).1
  perform (delete_objects tenant_id node_id) w = (delete_by_node_id tenant_id node_id w).1

  unfoldable pub perform_all : List Call → World → World
  perform_all [] w = w
  perform_all (c ∷ cs) w = perform_all cs (perform c w)
