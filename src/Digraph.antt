-- ===== src/Digraph.antt =====
-- The calls of the graph library github.com/dominikbraun/graph, which is not part of the repository,
-- and the loops of internal/api/httpapi/handlers/frontier/analysis.go and waypoint/analysis.go that
-- fill a graph.
pub mod Laws
pub mod Filled
use contrato_core.Base.{ℕ, String, Option, List, [], ◌∷◌}
use contrato_core.Storage.{Result, ok, err, message}

-- `graph.ErrEdgeAlreadyExists`, and any other error with its text.
pub data GraphError : Type 0 where
  edge_already_exists : GraphError
  other_error : String → GraphError

-- A call that changes a graph: the graph after it, or the error of a call that changes nothing.
pub data Changed (G : Type 0) : Type 0 where
  changed : G → Changed G
  rejected : GraphError → Changed G

abbrev pub Attributes : Type 0
Attributes = List (String × String)

-- The operations on a directed graph `G` of vertices `V`, which `graph.New` makes with a hash.
pub record Library (V G : Type 0) : Type 0 where
  pub new : (V → String) → G
  pub add_vertex : V → G → Changed G
  pub add_edge : String → String → Attributes → G → Changed G
  -- `len(adj[id])` and `len(pred[id])` of `AdjacencyMap` and `PredecessorMap`
  pub successors : G → String → ℕ
  pub predecessors : G → String → ℕ
  -- `none` is an error
  pub components : G → Option (List (List String))
  pub vertex : G → String → Option V
  pub all_paths : G → String → String → Option (List (List String))

-- An edge that is added: its ends and its attributes.
pub record Arc : Type 0 where
  pub from_id : String
  pub to_id : String
  pub attributes : Attributes

abbrev pub graph_error : GraphError → String
graph_error edge_already_exists = "edge already exists"
graph_error (other_error text) = text

module _ {V G : Type 0} (lib : Library V G) where
  -- The loop over the vertices of `buildGraph`, which an error ends.
  abbrev and_vertex : Changed G → (G → Result G) → Result G
  and_vertex (changed g) rest = rest g
  and_vertex (rejected e) rest = err (message (graph_error e))

  unfoldable pub add_vertices : List V → G → Result G
  add_vertices [] g = ok g
  add_vertices (v ∷ vs) g = and_vertex (lib.add_vertex v g) (add_vertices vs)

  -- The loop over the vertices of `Paths`, which drops the errors.
  abbrev or_same : G → Changed G → G
  or_same g (changed h) = h
  or_same g (rejected e) = g

  unfoldable pub try_vertices : List V → G → G
  try_vertices [] g = g
  try_vertices (v ∷ vs) g = try_vertices vs (or_same g (lib.add_vertex v g))

  -- The loop over the edges, which passes over `ErrEdgeAlreadyExists`.
  abbrev and_edge : G → Changed G → (G → Result G) → Result G
  and_edge g (changed h) rest = rest h
  and_edge g (rejected edge_already_exists) rest = rest g
  and_edge g (rejected (other_error text)) rest = err (message text)

  unfoldable pub add_edges : List Arc → G → Result G
  add_edges [] g = ok g
  add_edges (x ∷ xs) g = and_edge g (lib.add_edge x.from_id x.to_id x.attributes g) (add_edges xs)
