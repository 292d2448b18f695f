-- ===== src/Routes.antt =====
-- The routes of `NewServer` of internal/api/httpapi/server.go. Which of them answers a request is left
-- to the router github.com/go-chi/chi; a path is its list of segments.
pub mod Unambiguous
use contrato_core.Base.{
  String, Bool, true, false, ◌&&◌, List, [], ◌∷◌, ◌++◌, ◌==◌, string_eq, if◌then◌else◌,
}
use contrato_core.Access.{Features}

-- `segment`, and `{name}`.
pub data Segment : Type 0 where
  fixed : String → Segment
  param : String → Segment

-- The functions that the routes call.
pub data Endpoint : Type 0 where
  health : Endpoint
  list_model_versions create_model_version get_model_version set_model_version_status : Endpoint
  list_nodes create_node get_node update_node : Endpoint
  list_edges create_edge update_edge : Endpoint
  get_property put_property : Endpoint
  list_contracts create_contract get_contract set_contract_status : Endpoint
  find_holes find_boundary find_implied_edges : Endpoint
  find_gaps find_paths : Endpoint
  resolve simulate : Endpoint

pub record Route : Type 0 where
  pub method : String
  pub pattern : List Segment
  pub endpoint : Endpoint

abbrev route : String → List Segment → Endpoint → Route
route method pattern endpoint = record { method = method; pattern = pattern; endpoint = endpoint }

-- `r.Route("/v0", …)`
abbrev v0 : String → List Segment → Endpoint → Route
v0 method pattern endpoint = route method (fixed "v0" ∷ pattern) endpoint

abbrev pub model_version_routes : List Route
model_version_routes =
    v0 "GET" (fixed "model-versions" ∷ []) list_model_versions
    ∷ v0 "POST" (fixed "model-versions" ∷ []) create_model_version
    ∷ v0 "GET" (fixed "model-versions" ∷ param "model_id" ∷ []) get_model_version
    ∷ v0 "PATCH" (fixed "model-versions" ∷ param "model_id" ∷ fixed "status" ∷ [])
        set_model_version_status
    ∷ []

abbrev pub graph_routes : List Route
graph_routes =
    v0 "GET" (fixed "graph" ∷ fixed "nodes" ∷ []) list_nodes
    ∷ v0 "POST" (fixed "graph" ∷ fixed "nodes" ∷ []) create_node
    ∷ v0 "GET" (fixed "graph" ∷ fixed "nodes" ∷ param "id" ∷ []) get_node
    ∷ v0 "PUT" (fixed "graph" ∷ fixed "nodes" ∷ param "id" ∷ []) update_node
    ∷ v0 "GET" (fixed "graph" ∷ fixed "edges" ∷ []) list_edges
    ∷ v0 "POST" (fixed "graph" ∷ fixed "edges" ∷ []) create_edge
    ∷ v0 "PUT" (fixed "graph" ∷ fixed "edges" ∷ param "from" ∷ param "to" ∷ param "type" ∷ [])
        update_edge
    ∷ []

abbrev pub property_routes : List Route
property_routes =
    v0 "GET" (fixed "properties" ∷ param "owner_type" ∷ param "owner_id" ∷ param "key" ∷ [])
      get_property
    ∷ v0 "PUT" (fixed "properties" ∷ param "owner_type" ∷ param "owner_id" ∷ param "key" ∷ [])
        put_property
    ∷ []

abbrev pub contract_routes : List Route
contract_routes =
    v0 "GET" (fixed "contracts" ∷ []) list_contracts
    ∷ v0 "POST" (fixed "contracts" ∷ []) create_contract
    ∷ v0 "GET" (fixed "contracts" ∷ param "id" ∷ []) get_contract
    ∷ v0 "PATCH" (fixed "contracts" ∷ param "id" ∷ fixed "status" ∷ []) set_contract_status
    ∷ []

abbrev pub frontier_routes : List Route
frontier_routes =
    v0 "GET" (fixed "analysis" ∷ fixed "holes" ∷ []) find_holes
    ∷ v0 "GET" (fixed "analysis" ∷ fixed "boundary" ∷ []) find_boundary
    ∷ v0 "GET" (fixed "analysis" ∷ fixed "implied-edges" ∷ []) find_implied_edges
    ∷ []

abbrev pub waypoint_routes : List Route
waypoint_routes =
    v0 "GET" (fixed "analysis" ∷ fixed "gaps" ∷ []) find_gaps
    ∷ v0 "GET" (fixed "analysis" ∷ fixed "paths" ∷ []) find_paths
    ∷ []

abbrev pub meridian_routes : List Route
meridian_routes =
    v0 "POST" (fixed "resolve" ∷ []) resolve ∷ v0 "POST" (fixed "simulate" ∷ []) simulate ∷ []

abbrev pub routes_if : Bool → List Route → List Route
routes_if b rs = if b then rs else []

-- The routes with those of each persona or without.
abbrev pub routes_with : Bool → Bool → Bool → List Route
routes_with with_frontier with_waypoint with_meridian =
    route "GET" (fixed "health" ∷ []) health
    ∷ (model_version_routes
        ++ (graph_routes
            ++ (property_routes
                ++ (contract_routes
                    ++ (routes_if with_frontier frontier_routes
                        ++ (routes_if with_waypoint waypoint_routes
                            ++ routes_if with_meridian meridian_routes))))))

-- `has_db` is `sdb != nil`: the store gives access to its database.
abbrev pub routes : Features → Bool → List Route
routes f has_db = routes_with (f.frontier && has_db) (f.waypoint && has_db) f.meridian
