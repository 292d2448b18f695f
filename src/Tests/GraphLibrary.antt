-- ===== src/Tests/GraphLibrary.antt =====
-- A graph library for the tests.
use contrato_core.Base.{
  refl, String, ◌&&◌, none, some, List, [], ◌∷◌, map, find, select, length, ◌==◌, string_eq,
  pair_eq, if◌then◌else◌,
}
use contrato_core.Digraph.{Library, changed, rejected, edge_already_exists, other_error}
use contrato_core.Digraph.Laws.{IsDirected, has_vertex, has_arc}

-- The vertices and the pairs of ids. A component is one vertex, and a path its two ends.
abbrev pub Graph : Type 0 → Type 0
Graph V = List V × List (String × String)

module _ {V : Type 0} (hash : V → String) where
  abbrev ids : Graph V → List String
  ids g = map hash g.0

  abbrev pub library : Library V (Graph V)
  library = record {
    new = λ _. ([], []);
    add_vertex = λ v g.
        if has_vertex (ids g) (hash v)
        then rejected (other_error "vertex already exists")
        else changed (v ∷ g.0, g.1);
    add_edge = λ f t attributes g.
        if has_vertex (ids g) f && has_vertex (ids g) t
        then (if has_arc g.1 (f, t)
            then rejected edge_already_exists
            else changed (g.0, (f, t) ∷ g.1))
        else rejected (other_error "vertex not found");
    successors = λ g v. length (select (λ a. a.0 == v) g.1);
    predecessors = λ g v. length (select (λ a. a.1 == v) g.1);
    components = λ g. some (map (λ v. hash v ∷ []) g.0);
    vertex = λ g id. find (λ v. hash v == id) g.0;
    all_paths = λ g f t.
        if has_vertex (ids g) f && has_vertex (ids g) t then some ((f ∷ t ∷ []) ∷ []) else none;
  }

  abbrev pub library-IsDirected : IsDirected library hash
  library-IsDirected = record {
    vertices = ids;
    arcs = λ g. g.1;
    new_vertices = refl;
    new_arcs = refl;
    add_vertex_taken = λ v g h. ("vertex already exists", rw h refl);
    add_vertex_free = λ v g h. ((v ∷ g.0, g.1), rw h refl, refl, refl);
    add_edge_dangling = λ f t attributes g h. ("vertex not found", rw h refl);
    add_edge_taken = λ f t attributes g h k. rw (h, k) refl;
    add_edge_free = λ f t attributes g h k. ((g.0, (f, t) ∷ g.1), rw (h, k) refl, refl, refl);
    successors_count = λ g v. refl;
    predecessors_count = λ g v. refl;
  }
