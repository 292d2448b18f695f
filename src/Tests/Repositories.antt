-- ===== src/Tests/Repositories.antt =====
-- The repositories on the small database.
use contrato_core.Base.{◌≤◌, ◌≡◌, refl, none, [], ◌∷◌, arith, pair_eq, string_eq}
use contrato_core.Table.{max_of}
use contrato_core.Storage.{ok, ModelVersion, Node, Edge}
use contrato_core.Storage.Statements.{OnSuccess}
use contrato_core.Repo.Pinning.Puts.{
  NodePinned, EdgePinned, PropertyPinned, ContractPinned, puts-IsPin,
}
use contrato_core.Storage.Server.{World, ContractRow, has_tenant, has_model}
use contrato_core.Storage.Exec.{tick, ◌>>=◌, pure, insert, statement, reject_if}
use contrato_core.Repo.Graph.{put_node, get_node, put_edge}
use contrato_core.Repo.ModelVersions
use contrato_core.Repo.ModelVersions.{pinned, create, get}
use contrato_core.Repo.Versioned.{check_expected, insert_row, max_version}
use contrato_core.Repo.Contracts.{contracts, put_contract, get_contract, get_contract_version}
use contrato_core.Repo.Properties.{put_property}
use contrato_core.Repo.ReadBack.{
  get_node-put_node, get_contract-put_contract, get_contract_version-put_contract,
}
use contrato_core.Repo.Calls.WellFormed.{Numbered}
use contrato_core.Tests.{
  model, db, world, world-IsWellFormed, node, edge, property, contract, no_options,
}

-- A new version of the node.
abbrev after_node : World
after_node = record world {
  ran = 1;
  db = record db { nodes = node "n1" 2 "x" ∷ node "n1" 1 "{}" ∷ [] };
}

written_node : put_node (node "n1" 0 "x") no_options world ≡ (ok (node "n1" 2 "x"), after_node)
unfolding put_node ◌>>=◌ reject_if pure pinned check_expected insert_row insert statement max_of
    has_tenant has_model
written_node = refl

get_node-put_node_example : get_node "t1" "n1" after_node ≡ (ok (node "n1" 2 "x"), tick after_node)
get_node-put_node_example =
    get_node-put_node (node "n1" 0 "x") no_options world after_node (node "n1" 2 "x")
      world-IsWellFormed.nodes written_node refl

-- A new version of the property.
abbrev after_property : World
after_property = record world {
  ran = 1;
  db = record db { properties = property "2" 2 ∷ property "1" 1 ∷ [] };
}

written_property :
    put_property (property "2" 0) no_options world ≡ (ok (property "2" 2), after_property)
unfolding put_property ◌>>=◌ reject_if pure pinned check_expected insert_row insert statement max_of
    has_tenant has_model
written_property = refl

-- The first contract, under an id of the caller, and its second version.
abbrev first_row : ContractRow
first_row = record {
  tenant_id = "t1";
  id = "c1";
  domain = "contract";
  type = "lease";
  status = "draft";
  action = none;
  model_id = "m1";
  model_version = 1;
  version = 1;
  blob = "{}";
  created_at = 0;
}

abbrev with_contract : World
with_contract = record world { db = record db { contracts = first_row ∷ [] } }

abbrev after_contract : World
after_contract = record world {
  ran = 1;
  db = record db {
    contracts = record first_row { status = "active"; version = 2 } ∷ first_row ∷ [];
  };
}

contract-Numbered : Numbered contracts with_contract.db
unfolding max_of
contract-Numbered = (refl, tt)

written_contract :
    put_contract (contract "active" 1 0) no_options with_contract
    ≡ (ok (contract "active" 2 0), after_contract)
unfolding put_contract ◌>>=◌ reject_if pure pinned check_expected insert_row insert statement max_of
    has_tenant has_model
written_contract = refl

get_contract-put_contract_example :
    get_contract "t1" "c1" after_contract ≡ (ok (contract "active" 2 0), tick after_contract)
get_contract-put_contract_example =
    get_contract-put_contract (contract "active" 1 0) no_options with_contract after_contract
      (contract "active" 2 0) contract-Numbered written_contract refl

one_is_old : 1 ≤ max_version contracts ("t1", "c1") with_contract
unfolding max_of
one_is_old = omega arith

get_contract_version-put_contract_example :
    (get_contract_version "t1" "c1" 1 after_contract).0
    ≡ (get_contract_version "t1" "c1" 1 with_contract).0
get_contract_version-put_contract_example =
    get_contract_version-put_contract (contract "active" 1 0) no_options with_contract
      after_contract (contract "active" 2 0) contract-Numbered written_contract "t1" "c1" 1 refl
      refl one_is_old

-- A second version of the model.
abbrev model_two : ModelVersion
model_two = record model { version = 2; created_at = 0 }

abbrev after_model : World
after_model = record world { ran = 1; db = record db { model_versions = model_two ∷ model ∷ [] } }

made_model : create model world ≡ (ok model_two, after_model)
unfolding create ◌>>=◌ reject_if pure insert_row insert statement max_of has_tenant
made_model = refl

one_is_old_model : 1 ≤ max_version ModelVersions.table ("t1", "m1") world
unfolding max_of
one_is_old_model = omega arith

-- Records that name no model.
abbrev unpinned_node : Node
unpinned_node = record (node "n1" 0 "x") { model_id = ""; model_version = 0 }

abbrev unpinned_edge : Edge
unpinned_edge = record (edge "n1" "n2") { model_id = ""; model_version = 0 }

puts-IsPin_example :
    OnSuccess
      (NodePinned no_options world unpinned_node)
      (put_node unpinned_node no_options world).0
    × OnSuccess
        (EdgePinned no_options world unpinned_edge)
        (put_edge unpinned_edge no_options world).0
    × OnSuccess
        (PropertyPinned no_options world (property "2" 0))
        (put_property (property "2" 0) no_options world).0
    × OnSuccess
        (ContractPinned no_options world (contract "draft" 0 0))
        (put_contract (contract "draft" 0 0) no_options world).0
puts-IsPin_example =
    puts-IsPin no_options unpinned_node unpinned_edge (property "2" 0) (contract "draft" 0 0) world
