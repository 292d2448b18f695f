-- ===== src/Tests/Gaps.antt =====
-- The gaps of a database with two capabilities: two actors provide `c`, and nobody provides `d`, which
-- is marked unavailable.
use contrato_core.Base.{
  ◌≡◌, ◌↔◌, refl, String, false, Option, none, some, List, [], ◌∷◌, All, ◌==◌, string_eq,
  if◌then◌else◌,
}
use contrato_core.Json.{Json, boolean}
use contrato_core.Storage.{Node, Property, ok}
use contrato_core.Storage.Server.{World}
use contrato_core.Storage.Exec.{tick}
use contrato_core.Snapshot.{model_nodes, model_edges}
use contrato_core.Waypoint.{Gap, detect_gaps, node_properties}
use contrato_core.Waypoint.Clear.{IsSound, detect_gaps-IsSound}
use contrato_core.Tests.{world, db, model, node, edge, property}

abbrev unmarshal : String → Option Json
unmarshal s = if s == "false" then some (boolean false) else none

abbrev capability : String → Node
capability id = record (node id 1 "{}") { type = "capability" }

abbrev out_of_order : Property
out_of_order = record (property "false" 1) { owner_id = "d"; key = "availability" }

abbrev provided : World
provided = record world {
  db = record db {
    nodes = capability "d" ∷ capability "c" ∷ node "b" 1 "{}" ∷ node "a" 1 "{}" ∷ [];
    edges = edge "b" "c" ∷ edge "a" "c" ∷ [];
    properties = out_of_order ∷ property "1" 1 ∷ [];
  };
}

detect_gaps-IsSound_example :
    (gs : List Gap) × (detect_gaps unmarshal "t1" model provided
      ≡ (ok gs, tick (tick (tick provided))))
    × ((gs ≡ [])
        ↔ All
            (IsSound unmarshal
              (model_edges "t1" model provided)
              (node_properties "t1" model provided))
            (model_nodes "t1" model provided))
detect_gaps-IsSound_example = detect_gaps-IsSound unmarshal "t1" model provided (λ n. refl) refl
