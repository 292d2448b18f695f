-- ===== src/Tests/Graphs.antt =====
-- The analyses of a small graph.
use contrato_core.Base.{
  ◌+◌, ◌≤◌, ◌≡◌, ◌≢◌, ◌↔◌, refl, String, true, false, ◌&&◌, ◌||◌, not, Option, none, some, List, [],
  ◌∷◌, map, any, length, All, arith, eq_iff, subst, ◌==◌, string_eq, pair_eq, if◌then◌else◌,
}
use contrato_core.Json.{Map}
use contrato_core.Storage.{ok}
use contrato_core.Storage.Exec.{tick, query_row}
use contrato_core.Table.{newest}
use contrato_core.Snapshot.{model_edges}
use contrato_core.Repo.ModelVersions.{get_latest_enabled}
use contrato_core.Http.{respond_ok}
use contrato_core.Digraph.{Library}
use contrato_core.Digraph.Filled.{merged}
use contrato_core.Frontier.{GraphNode, GraphEdge, node_id, arc_of, analysis}
use contrato_core.Frontier.Built
use contrato_core.Frontier.Built.{seen_nodes, seen_edges, analysis-loose}
use contrato_core.Frontier.Holes.{detect_holes}
use contrato_core.Frontier.Holes.Components.{holds}
use contrato_core.Frontier.Holes.Connected.{IsConnected, IsPartition, HasNoBridge}
use contrato_core.Frontier.Holes.Filled.{detect_holes-IsConnected}
use contrato_core.Frontier.Boundary.{boundary_of, boundary_node, source, sink, leaf}
use contrato_core.Frontier.Boundary.Described.{is_left, is_entered, boundary_of-description}
use contrato_core.Frontier.Implied.{detect_implied_edges, required_edges, has_edge, is_some_path}
use contrato_core.Frontier.Implied.Rules.{reports, two_steps, reports-detect_implied_edges}
use contrato_core.Waypoint.Paths.{same_id, plain_arc, or_no_paths, paths}
use contrato_core.Waypoint.Paths.Found
use contrato_core.Waypoint.Paths.Found.{paths-loose}
use contrato_core.Tests.{world, model}
use contrato_core.Tests.GraphLibrary.{Graph, library, library-IsDirected}

abbrev node : String → String → GraphNode
node id type = record { id = id; type = type; domain = "node"; blob = none }

abbrev edge : String → String → String → GraphEdge
edge type from to = record { from_id = from; to_id = to; type = type; domain = "edge" }

abbrev some_nodes : List GraphNode
some_nodes = node "a" "actor" ∷ node "b" "capability" ∷ node "c" "capability" ∷ []

abbrev some_edges : List GraphEdge
some_edges = edge "provides" "a" "b" ∷ edge "requires" "b" "c" ∷ []

abbrev some_graph : Graph GraphNode
some_graph = (some_nodes, merged (map arc_of some_edges) [])

abbrev nodes_library : Library GraphNode (Graph GraphNode)
nodes_library = library node_id

abbrev keep : List String → List String
keep ks = ks

implied :
    any
      (reports "a" "c")
      (detect_implied_edges nodes_library keep keep some_nodes some_edges some_graph)
    ≡ true
unfolding detect_implied_edges required_edges
implied = refl

reports-detect_implied_edges_example :
    any
      (reports "a" "c")
      (detect_implied_edges nodes_library keep keep some_nodes some_edges some_graph)
    ≡ (not (has_edge some_edges "a" "c" "provides")
        && ((two_steps "provides" "requires" some_edges "a" "c"
              && is_some_path (nodes_library.all_paths some_graph "a" "c"))
            || two_steps "can_delegate_to" "provides" some_edges "a" "c"))
reports-detect_implied_edges_example =
    reports-detect_implied_edges nodes_library keep keep (λ q ks. refl) (λ q ks. refl) some_nodes
      some_edges some_graph "a" "c"

-- Each node is a component by itself.
apart :
    (id v : String) (cs : List (List String))
    → any (holds v) cs ≡ false
    → holds id (v ∷ []) ≡ true
    → any (holds id) cs ≡ false
apart id v cs free h = subst (λ i. any (holds i) cs ≡ false) ((eq_iff v id).0 (ground arith)) free

parts : IsPartition some_edges (nodes_library.components some_graph)
parts = (
  (
    λ id. apart id "a" (("b" ∷ []) ∷ ("c" ∷ []) ∷ []) refl,
    (λ id. apart id "b" (("c" ∷ []) ∷ []) refl, (λ id. apart id "c" [] refl, tt)),
  ),
  ((refl, refl), ((refl, refl), tt)),
)

detect_holes-IsConnected_example :
    (detect_holes nodes_library some_nodes some_edges some_graph ≡ []) ↔ (
      All (IsConnected some_edges) some_nodes
      × HasNoBridge some_edges (nodes_library.components some_graph))
detect_holes-IsConnected_example =
    detect_holes-IsConnected nodes_library (library-IsDirected node_id) some_edges some_graph refl
      some_nodes parts

boundary_of-description_example :
    (boundary_of nodes_library some_graph (node "a" "actor") ≡ []
      → 2 ≤ nodes_library.predecessors some_graph "a" + nodes_library.successors some_graph "a")
    × (nodes_library.predecessors some_graph "a" + nodes_library.successors some_graph "a" ≤ 1
        → (boundary_of nodes_library some_graph (node "a" "actor")
            ≡ boundary_node nodes_library some_graph (node "a" "actor") ∷ [])
          × ((boundary_node nodes_library some_graph (node "a" "actor")).description ≡ (
              if is_left some_edges (node "a" "actor")
              then source
              else if is_entered some_edges (node "a" "actor")
              then sink
              else leaf)))
boundary_of-description_example =
    boundary_of-description nodes_library (library-IsDirected node_id) some_edges some_graph refl
      (node "a" "actor")

abbrev unmarshal : String → Option Map
unmarshal s = some none

enabled : get_latest_enabled "t1" world ≡ (ok model, tick world)
unfolding get_latest_enabled newest query_row
enabled = refl

named : (s : String) → (s == "") ≡ false → s ≢ ""
named s h e = absurd (ground (arith, eq_iff s ""))

analysis-loose_example :
    (any
          (Built.is_loose (
            seen_nodes nodes_library
              (library-IsDirected node_id)
              unmarshal
              "t1"
              model
              (tick world)))
          (seen_edges nodes_library (library-IsDirected node_id) unmarshal "t1" model (tick world))
        ≡ false
      → (g : Graph GraphNode) × (analysis nodes_library unmarshal "t1"
            (λ mv ns xs g. respond_ok (length ns))
            world
          ≡ (
            respond_ok (
                length (
                  seen_nodes nodes_library
                    (library-IsDirected node_id)
                    unmarshal
                    "t1"
                    model
                    (tick world))),
            tick (tick (tick world)),
          ))
        × (g.1
            ≡ merged
                (map arc_of (
                  seen_edges nodes_library
                    (library-IsDirected node_id)
                    unmarshal
                    "t1"
                    model
                    (tick world)))
                []))
    × (any
            (Built.is_loose (
              seen_nodes nodes_library
                (library-IsDirected node_id)
                unmarshal
                "t1"
                model
                (tick world)))
            (seen_edges nodes_library
              (library-IsDirected node_id)
              unmarshal
              "t1"
              model
              (tick world))
          ≡ true
        → (analysis nodes_library unmarshal "t1"
            (λ mv ns xs g. respond_ok (length ns))
            world).0.status
          ≡ 500)
analysis-loose_example =
    analysis-loose nodes_library (library-IsDirected node_id) unmarshal "t1" model world
      (tick world) (λ mv ns xs g. respond_ok (length ns)) (named "t1" refl) enabled (λ n. refl)

abbrev ids_library : Library String (Graph String)
ids_library = library same_id

paths-loose_example :
    (any (Found.is_loose "t1" model (tick world)) (model_edges "t1" model (tick world)) ≡ false
      → (g : Graph String) × (paths ids_library "t1" "n1" "n1" world ≡ (
        respond_ok (record {
          tenant_id = "t1";
          model_id = "m1";
          model_version = 1;
          from_id = "n1";
          to_id = "n1";
          paths = or_no_paths (ids_library.all_paths g "n1" "n1");
        }),
        tick (tick (tick world)),
      ))
        × (g.1 ≡ merged (map plain_arc (model_edges "t1" model (tick world))) []))
    × (any (Found.is_loose "t1" model (tick world)) (model_edges "t1" model (tick world)) ≡ true
        → (paths ids_library "t1" "n1" "n1" world).0.status ≡ 500)
paths-loose_example =
    paths-loose ids_library (library-IsDirected same_id) "t1" model "n1" "n1" world (tick world)
      (named "t1" refl) (named "n1" refl) (named "n1" refl) enabled (λ n. refl)
