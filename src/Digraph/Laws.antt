-- ===== src/Digraph/Laws.antt =====
-- What the code relies on of the graph library: its documented behaviour for a directed graph whose
-- vertices are told apart by their hashes, and which has at most one edge from one to another.
use contrato_core.Base.{
  ◌≡◌, String, Bool, true, false, ◌&&◌, List, [], ◌∷◌, select, length, any, ◌==◌, string_eq,
  pair_eq,
}
use contrato_core.Digraph.{Library, changed, rejected, edge_already_exists, other_error, Attributes}

abbrev pub has_vertex : List String → String → Bool
has_vertex vs v = any (λ u. u == v) vs

abbrev pub has_arc : List (String × String) → String × String → Bool
has_arc es a = any (λ e. e == a) es

-- `vertices` are the hashes and `arcs` the ends of the edges of a graph.
pub record IsDirected {V G : Type 0} (lib : Library V G) (hash : V → String) : Type 0 where
  pub vertices : G → List String
  pub arcs : G → List (String × String)
  pub new_vertices : vertices (lib.new hash) ≡ []
  pub new_arcs : arcs (lib.new hash) ≡ []
  -- `AddVertex` fails on a hash that is there.
  pub add_vertex_taken :
      (v : V) (g : G)
      → has_vertex (vertices g) (hash v) ≡ true
      → (text : String) × (lib.add_vertex v g ≡ rejected (other_error text))
  pub add_vertex_free :
      (v : V) (g : G)
      → has_vertex (vertices g) (hash v) ≡ false
      → (h : G) × (lib.add_vertex v g ≡ changed h)
        × (vertices h ≡ hash v ∷ vertices g)
        × (arcs h ≡ arcs g)
  -- `AddEdge` fails on an end that is not there, and on a pair of vertices that has an edge.
  pub add_edge_dangling :
      (from_id to_id : String) (attributes : Attributes) (g : G)
      → (has_vertex (vertices g) from_id && has_vertex (vertices g) to_id) ≡ false
      → (text : String) × (lib.add_edge from_id to_id attributes g ≡ rejected (other_error text))
  pub add_edge_taken :
      (from_id to_id : String) (attributes : Attributes) (g : G)
      → (has_vertex (vertices g) from_id && has_vertex (vertices g) to_id) ≡ true
      → has_arc (arcs g) (from_id, to_id) ≡ true
      → lib.add_edge from_id to_id attributes g ≡ rejected edge_already_exists
  pub add_edge_free :
      (from_id to_id : String) (attributes : Attributes) (g : G)
      → (has_vertex (vertices g) from_id && has_vertex (vertices g) to_id) ≡ true
      → has_arc (arcs g) (from_id, to_id) ≡ false
      → (h : G) × (lib.add_edge from_id to_id attributes g ≡ changed h)
        × (vertices h ≡ vertices g)
        × (arcs h ≡ (from_id, to_id) ∷ arcs g)
  pub successors_count :
      (g : G) (v : String) → lib.successors g v ≡ length (select (λ a. a.0 == v) (arcs g))
  pub predecessors_count :
      (g : G) (v : String) → lib.predecessors g v ≡ length (select (λ a. a.1 == v) (arcs g))
