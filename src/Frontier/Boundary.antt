-- ===== src/Frontier/Boundary.antt =====
-- The handler `Boundary`.
pub mod Described
use contrato_core.Base.{
  ℕ, ◌+◌, String, Bool, ◌&&◌, Option, List, [], ◌∷◌, each, ltb, ◌==◌, nat_eq, string_eq,
  if◌then◌else◌,
}
use contrato_core.Json.{Map}
use contrato_core.Http.{Handler, respond_ok}
use contrato_core.Digraph.{Library}
use contrato_core.Frontier.{GraphNode, GraphEdge, analysis}

pub record BoundaryNode : Type 0 where
  pub node_id : String
  pub node_type : String
  pub in_degree : ℕ
  pub out_degree : ℕ
  pub description : String

pub record BoundaryResponse : Type 0 where
  pub tenant_id : String
  pub model_id : String
  pub model_version : ℕ
  pub boundary_nodes : List BoundaryNode

abbrev pub leaf : String
leaf = "Leaf node (degree 1)"

abbrev pub source : String
source = "Source: no inbound edges — nothing leads to this node"

abbrev pub sink : String
sink = "Sink: no outbound edges — nothing follows from this node"

abbrev pub describe : ℕ → ℕ → String
describe ins outs =
    if ins == 0 && outs == 1 then source else if ins == 1 && outs == 0 then sink else leaf

module _ {G : Type 0} (lib : Library GraphNode G) where
  abbrev pub boundary_node : G → GraphNode → BoundaryNode
  boundary_node g n = record {
    node_id = n.id;
    node_type = n.type;
    in_degree = lib.predecessors g n.id;
    out_degree = lib.successors g n.id;
    description = describe (lib.predecessors g n.id) (lib.successors g n.id);
  }

  -- One turn of the loop.
  abbrev pub boundary_of : G → GraphNode → List BoundaryNode
  boundary_of g n =
      if ltb 1 (lib.predecessors g n.id + lib.successors g n.id) then [] else boundary_node g n ∷ []

  unfoldable pub boundary_nodes : List GraphNode → G → List BoundaryNode
  boundary_nodes ns g = each (boundary_of g) ns

  unfoldable pub boundary : (String → Option Map) → String → Handler BoundaryResponse
  boundary unmarshal t = analysis lib unmarshal t λ mv ns xs g. respond_ok (record {
    tenant_id = t;
    model_id = mv.model_id;
    model_version = mv.version;
    boundary_nodes = boundary_nodes ns g;
  })
