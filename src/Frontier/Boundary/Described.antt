-- ===== src/Frontier/Boundary/Described.antt =====
-- The nodes that `Boundary` reports, and their descriptions.
use contrato_core.Base.{
  ℕ, ◌+◌, ◌≤◌, ◌≡◌, Bool, not, List, [], ◌∷◌, any, map, arith, ◌==◌, nat_eq, string_eq,
  if◌then◌else◌,
}
use contrato_core.Digraph.{Library}
use contrato_core.Digraph.Laws.{IsDirected}
use contrato_core.Digraph.Filled.{merged}
use contrato_core.Frontier.{GraphNode, GraphEdge, node_id, arc_of}
use contrato_core.Frontier.Built.{successors-zero, predecessors-zero}
use contrato_core.Frontier.Boundary.{source, sink, leaf, describe, boundary_node, boundary_of}

-- Whether an edge ends, and whether one starts, at the node.
abbrev pub is_entered : List GraphEdge → GraphNode → Bool
is_entered xs n = any (λ x. x.to_id == n.id) xs

abbrev pub is_left : List GraphEdge → GraphNode → Bool
is_left xs n = any (λ x. x.from_id == n.id) xs

describe_iff :
    (ins outs : ℕ) (entered left : Bool)
    → (ins == 0) ≡ not entered
    → (outs == 0) ≡ not left
    → ins + outs ≤ 1
    → describe ins outs ≡ (if left then source else if entered then sink else leaf)
describe_iff ins outs entered left i o few = ground arith

module _ {G : Type 0} (lib : Library GraphNode G) (laws : IsDirected lib node_id)
    (xs : List GraphEdge) (g : G) (built : laws.arcs g ≡ merged (map arc_of xs) [])
    (n : GraphNode) where
  -- In the graph that is built from the edges, a node is passed over if it has two neighbours or more,
  -- a node counting once for each direction. Otherwise it is reported: as a source if an edge starts at
  -- it, as a sink if one ends there, and as a leaf of degree 1 if it has no edge at all.
  pub boundary_of-description :
      (boundary_of lib g n ≡ [] → 2 ≤ lib.predecessors g n.id + lib.successors g n.id)
      × (lib.predecessors g n.id + lib.successors g n.id ≤ 1
          → (boundary_of lib g n ≡ boundary_node lib g n ∷ [])
            × ((boundary_node lib g n).description
                ≡ (if is_left xs n then source else if is_entered xs n then sink else leaf)))
  boundary_of-description = (
    λ s. ground arith,
    λ few. (
      ground arith,
      describe_iff _ _ (is_entered xs n) (is_left xs n) (predecessors-zero lib laws xs g n.id built)
          (successors-zero lib laws xs g n.id built) few,
    ),
  )
