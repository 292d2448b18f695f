-- ===== src/Frontier/Holes.antt =====
-- The handler `Holes`.
pub mod Components
pub mod Connected
pub mod Filled
use contrato_core.Base.{
  ℕ, zero, suc, ◌+◌, String, Bool, true, false, ◌&&◌, ◌||◌, not, Option, none, some, List, [], ◌∷◌,
  ◌++◌, any, each, length, ◌==◌, nat_eq, string_eq, if◌then◌else◌,
}
use contrato_core.Json.{Map}
use contrato_core.Storage.{ModelVersion}
use contrato_core.Http.{Handler, Response, respond_ok}
use contrato_core.Digraph.{Library}
use contrato_core.Frontier.{GraphNode, GraphEdge, analysis}

pub record Hole : Type 0 where
  pub kind : String
  pub node_id : String
  pub node_type : String
  pub description : String

pub record HolesResponse : Type 0 where
  pub tenant_id : String
  pub model_id : String
  pub model_version : ℕ
  pub holes : List Hole

-- An edge of a type that ends, or starts, at a node: a loop over `toEdges[id]`, or `fromEdges[id]`.
abbrev pub is_reached_by : List GraphEdge → String → String → Bool
is_reached_by xs type id = any (λ x. x.to_id == id && x.type == type) xs

abbrev pub is_left_by : List GraphEdge → String → String → Bool
is_left_by xs type id = any (λ x. x.from_id == id && x.type == type) xs

-- The hole, where a condition holds.
abbrev pub hole_if : Bool → Hole → List Hole
hole_if b hole = if b then hole ∷ [] else []

abbrev hole_at : GraphNode → String → String → Hole
hole_at n kind description = record {
  kind = kind;
  node_id = n.id;
  node_type = n.type;
  description = description;
}

-- The index of the last component that has the id, or 0, as in a map from ids to indices.
abbrev pub component_from : ℕ → ℕ → List (List String) → String → ℕ
component_from index found [] id = found
component_from index found (c ∷ cs) id =
    component_from (suc index) (if any (λ v. v == id) c then index else found) cs id

abbrev pub component_of : List (List String) → String → ℕ
component_of cs id = component_from 0 0 cs id

-- `interEdges[id]`
abbrev pub bridges : List (List String) → List GraphEdge → String → Bool
bridges cs xs id =
    any
      (λ x.
        not (component_of cs x.from_id == component_of cs x.to_id)
        && (x.from_id == id || x.to_id == id))
      xs

-- `v.Type` of the vertex, or of the zero value.
abbrev pub type_of : Option GraphNode → String
type_of (some n) = n.type
type_of none = ""

module _ {G : Type 0} (lib : Library GraphNode G) where
  -- One turn of the loop over the nodes.
  unfoldable pub node_holes : List GraphEdge → G → GraphNode → List Hole
  node_holes xs g n =
      if lib.predecessors g n.id == 0 && lib.successors g n.id == 0
      then hole_at n "isolated_node" "Node has no edges (completely isolated)" ∷ []
      else hole_if (n.type == "capability" && not (is_reached_by xs "provides" n.id)) (
          hole_at n "capability_no_provider"
            "Capability has no provider (no 'provides' edge pointing to it)")
        ++ hole_if (n.type == "capability" && not (is_reached_by xs "governs" n.id)) (
            hole_at n "capability_no_policy"
              "Capability has no governing policy (no 'governs' edge)")
        ++ hole_if (n.type == "policy" && not (is_left_by xs "governs" n.id))
            (hole_at n "policy_governs_nothing" "Policy node governs no capability (dead policy)")
        ++ hole_if (n.type == "actor" && lib.successors g n.id == 0) (
            hole_at n "actor_no_capabilities"
              "Actor has no outgoing edges (no capability assignments)")

  -- One turn of the loop over the components.
  unfoldable pub component_holes : List (List String) → List GraphEdge → G → List String → List Hole
  component_holes cs xs g (id ∷ []) = hole_if (bridges cs xs id) (record {
    kind = "structural_hole";
    node_id = id;
    node_type = type_of (lib.vertex g id);
    description = "Bridges otherwise disconnected capability clusters";
  })
  component_holes cs xs g [] = []
  component_holes cs xs g (u ∷ v ∷ us) = []

  abbrev pub structural_holes : List GraphEdge → G → Option (List (List String)) → List Hole
  structural_holes xs g (some cs) = each (component_holes cs xs g) cs
  structural_holes xs g none = []

  unfoldable pub detect_holes : List GraphNode → List GraphEdge → G → List Hole
  detect_holes ns xs g = each (node_holes xs g) ns ++ structural_holes xs g (lib.components g)

  unfoldable pub holes : (String → Option Map) → String → Handler HolesResponse
  holes unmarshal t = analysis lib unmarshal t λ mv ns xs g. respond_ok (record {
    tenant_id = t;
    model_id = mv.model_id;
    model_version = mv.version;
    holes = detect_holes ns xs g;
  })
