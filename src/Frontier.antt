-- ===== src/Frontier.antt =====
-- internal/api/httpapi/handlers/frontier/analysis.go: the analyses of the graph of a model version.
pub mod Holes
pub mod Boundary
pub mod Implied
pub mod Built
pub mod Guarded
use contrato_core.Base.{ℕ, String, Option, none, some, List, [], ◌∷◌, map, ◌==◌, string_eq}
use contrato_core.Json.{Map}
use contrato_core.Storage.{Result, ok, err, Node, Edge, ModelVersion}
use contrato_core.Storage.Server.{World}
use contrato_core.Storage.Exec.{Exec, pure, query, lift, ◌>>=◌}
use contrato_core.Snapshot.{model_nodes, model_edges}
use contrato_core.Repo.ModelVersions.{get_latest_enabled}
use contrato_core.Http.{Handler, Response, refuse_if, reply_internal, storage_error}
use contrato_core.Bundle.Export.{or_nil_map}
use contrato_core.Digraph.{Library, Arc, add_vertices, add_edges}

-- `gNode` and `gEdge`
pub record GraphNode : Type 0 where
  pub id : String
  pub type : String
  pub domain : String
  pub blob : Map

pub record GraphEdge : Type 0 where
  pub from_id : String
  pub to_id : String
  pub type : String
  pub domain : String

-- The columns that the queries select. `unmarshal` is `json.Unmarshal` into a `map[string]any`.
abbrev pub scan_node : (String → Option Map) → Node → GraphNode
scan_node unmarshal n = record {
  id = n.id;
  type = n.type;
  domain = n.domain;
  blob = or_nil_map (unmarshal n.blob);
}

abbrev pub scan_edge : Edge → GraphEdge
scan_edge x = record { from_id = x.from_id; to_id = x.to_id; type = x.type; domain = x.domain }

abbrev pub node_id : GraphNode → String
node_id n = n.id

-- `graph.EdgeAttribute("type", …), graph.EdgeAttribute("domain", …)`
abbrev pub arc_of : GraphEdge → Arc
arc_of x = record {
  from_id = x.from_id;
  to_id = x.to_id;
  attributes = ("type", x.type) ∷ ("domain", x.domain) ∷ [];
}

unfoldable pub load_graph :
    (String → Option Map) → String → ModelVersion → Exec (List GraphNode × List GraphEdge)
load_graph unmarshal t mv = do
  ns ← query (model_nodes t mv)
  xs ← query (model_edges t mv)
  pure (map (scan_node unmarshal) ns, map scan_edge xs)

module _ {G : Type 0} (lib : Library GraphNode G) where
  abbrev and_edges : List GraphEdge → Result G → Result G
  and_edges xs (ok g) = add_edges lib (map arc_of xs) g
  and_edges xs (err e) = err e

  unfoldable pub build_graph : List GraphNode → List GraphEdge → Result G
  build_graph ns xs = and_edges xs (add_vertices lib ns (lib.new node_id))

  -- What the three handlers have in common: the graph of the latest enabled model version.
  module _ (unmarshal : String → Option Map) where
    unfoldable pub load_and_build :
        String → ModelVersion → Exec (List GraphNode × List GraphEdge × G)
    load_and_build t mv = load_graph unmarshal t mv >>= λ loaded.
        lift (build_graph loaded.0 loaded.1) >>= λ g. pure (loaded.0, loaded.1, g)

    abbrev with_version :
        {A : Type 0}
        → String
        → (ModelVersion → List GraphNode → List GraphEdge → G → Response A)
        → Result ModelVersion × World
        → Response A × World
    with_version t answer (ok mv, w) =
        reply_internal (λ loaded. answer mv loaded.0 loaded.1 loaded.2) (load_and_build t mv) w
    with_version t answer (err e, w) = (storage_error e, w)

    unfoldable pub analysis :
        {A : Type 0}
        → String
        → (ModelVersion → List GraphNode → List GraphEdge → G → Response A)
        → Handler A
    analysis t answer =
        refuse_if (t == "") "tenant_id required"
          (λ w. with_version t answer (get_latest_enabled t w))
