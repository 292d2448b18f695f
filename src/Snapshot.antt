-- ===== src/Snapshot.antt =====
-- The rows of a model version, as the analyses and the export read them: `SELECT DISTINCT ON (key)`
-- over the rows with the tenant, the model and its version (internal/modelio/io.go,
-- internal/api/httpapi/handlers/frontier/analysis.go and waypoint/analysis.go).
use contrato_core.Base.{
  ℕ, String, Bool, false, ◌&&◌, List, select, ◌==◌, string_eq, nat_eq, pair_eq, if◌then◌else◌,
}
use contrato_core.Table.Distinct.{distinct_on}
use contrato_core.Storage.{Node, Edge, Property, ModelVersion}
use contrato_core.Storage.Server.{World, ContractRow}
use contrato_core.Repo.Graph.{EdgeKey, node_key, node_version, edge_key, edge_version}
use contrato_core.Repo.Properties.{PropertyKey, property_key, property_version}
use contrato_core.Repo.Contracts.{contract_key, contract_version, contract_before}

-- The columns that the queries order by.
abbrev pub node_before : (String → String → Bool) → String × String → String × String → Bool
node_before before (_, id) (_, id') = before id id'

abbrev pub first_difference : (String → String → Bool) → String → String → Bool → Bool
first_difference before a b rest = if a == b then rest else before a b

abbrev pub edge_before : (String → String → Bool) → EdgeKey → EdgeKey → Bool
edge_before before (_, (f, (t, (d, y)))) (_, (f', (t', (d', y')))) = first_difference before f f' (
    first_difference before t t'
      (first_difference before d d' (first_difference before y y' false)))

abbrev pub property_before : (String → String → Bool) → PropertyKey → PropertyKey → Bool
property_before before (_, (_, (id, k))) (_, (_, (id', k'))) =
    first_difference before id id' (first_difference before k k' false)

-- `WHERE tenant_id=$1 AND model_id=$2 AND model_version=$3`
abbrev pub in_version : ModelVersion → String → String → String → ℕ → Bool
in_version mv t tenant_id model_id version =
    tenant_id == t && (model_id == mv.model_id && version == mv.version)

-- The latest row of each key in a model version.
unfoldable pub model_nodes : String → ModelVersion → World → List Node
model_nodes t mv w =
    distinct_on node_key node_version (node_before w.server.before)
      (select (λ n. in_version mv t n.tenant_id n.model_id n.model_version) w.db.nodes)

unfoldable pub model_edges : String → ModelVersion → World → List Edge
model_edges t mv w =
    distinct_on edge_key edge_version (edge_before w.server.before)
      (select (λ x. in_version mv t x.tenant_id x.model_id x.model_version) w.db.edges)

abbrev pub owner_before : (String → String → Bool) → PropertyKey → PropertyKey → Bool
owner_before before (_, (o, (id, k))) (_, (o', (id', k'))) =
    first_difference before o o'
      (first_difference before id id' (first_difference before k k' false))

unfoldable pub model_properties : String → ModelVersion → World → List Property
model_properties t mv w =
    distinct_on property_key property_version (owner_before w.server.before)
      (select (λ p. in_version mv t p.tenant_id p.model_id p.model_version) w.db.properties)

unfoldable pub model_contracts : String → ModelVersion → World → List ContractRow
model_contracts t mv w =
    distinct_on contract_key contract_version (contract_before w.server.before)
      (select (λ r. in_version mv t r.tenant_id r.model_id r.model_version) w.db.contracts)
