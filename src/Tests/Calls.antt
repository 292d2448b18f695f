-- ===== src/Tests/Calls.antt =====
-- A sequence of writes to the small database.
use contrato_core.Base.{pair_eq, string_eq, refl, String, List, [], ◌∷◌}
use contrato_core.Storage.{Node, Edge, Property, Object, ContractRecord, ModelVersion}
use contrato_core.Storage.Server.{World, has_tenant, has_model}
use contrato_core.Repo.Graph.{nodes, edges, put_node, put_edge}
use contrato_core.Repo.ModelVersions
use contrato_core.Repo.ModelVersions.{create}
use contrato_core.Repo.Contracts.{contracts, append_contract}
use contrato_core.Repo.Properties.{properties, put_property}
use contrato_core.Repo.Objects.{objects, append_object, delete_by_node_id}
use contrato_core.Repo.Appending.{writes-Appends, Removes}
use contrato_core.Repo.Calls.{Call, write_node, delete_objects, new_tenant, perform_all}
use contrato_core.Repo.Calls.WellFormed.{IsWellFormed, perform_all-IsWellFormed}
use contrato_core.Repo.Calls.References.{IsLinked}
use contrato_core.Repo.Versioned.Appends.{Appends}
use contrato_core.Tests.{world, world-IsWellFormed, node, no_options, for_ten, etag_of}

abbrev calls : List Call
calls = write_node (node "n1" 0 "{}") no_options ∷ new_tenant "beta" ∷ delete_objects "t1" "n1" ∷ []

perform_all-IsWellFormed_example : IsWellFormed (perform_all etag_of calls world).db
perform_all-IsWellFormed_example = perform_all-IsWellFormed etag_of calls world world-IsWellFormed

pub world-IsLinked : IsLinked world.db
unfolding has_tenant has_model
world-IsLinked = record {
  types = tt;
  statuses = tt;
  model_versions = (refl, tt);
  nodes = ((refl, refl), tt);
  edges = ((refl, refl), tt);
  properties = ((refl, refl), tt);
  contracts = tt;
  objects = tt;
}

writes-Appends_example :
    ((mv : ModelVersion) → Appends ModelVersions.table (create mv))
    × ((n : Node) → Appends nodes (put_node n no_options))
    × ((x : Edge) → Appends edges (put_edge x no_options))
    × ((p : Property) → Appends properties (put_property p no_options))
    × ((rec : ContractRecord) → Appends contracts (append_contract rec no_options))
    × ((o : Object) → Appends objects (append_object etag_of o for_ten))
    × ((t n : String) (w : World) → Removes t n w.db (delete_by_node_id t n w))
writes-Appends_example = writes-Appends etag_of no_options for_ten
