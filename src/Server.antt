-- ===== src/Server.antt =====
-- The HTTP server of `NewServer` of internal/api/httpapi/server.go: the middleware, the routes, and
-- the handlers behind them.
pub mod Sound
use contrato_core.Base.{
  ℕ, String, Bool, true, false, ◌&&◌, Option, none, some, List, [], ◌∷◌, ℤ, ◌==◌, string_eq,
  if◌then◌else◌,
}
use contrato_core.Json.{Map, Json, text, field, end}
use contrato_core.Storage.{Node, Edge, Property, ContractRecord, ModelVersion, Result, ok, err}
use contrato_core.Storage.Server.{World}
use contrato_core.Storage.Exec.{Exec}
use contrato_core.Storage.Host.{signal}
use contrato_core.Http.{
  Handler, Response, Body, payload, problem, Decoded, respond_ok, respond_error,
}
use contrato_core.Http.ModelVersions
use contrato_core.Http.Graph
use contrato_core.Http.Contracts
use contrato_core.Http.Properties
use contrato_core.Access.{Request, Provider, Engine, AuthnContext, Features, with_auth}
use contrato_core.Digraph.{Library}
use contrato_core.Frontier.{GraphNode}
use contrato_core.Frontier.Holes.{HolesResponse, holes}
use contrato_core.Frontier.Boundary.{BoundaryResponse, boundary}
use contrato_core.Frontier.Implied.{ImpliedEdgesResponse, implied_edges}
use contrato_core.Waypoint.{GapsResponse, gaps}
use contrato_core.Waypoint.Paths.{PathsResponse, paths}
use contrato_core.Routes.{Segment, fixed, param, Route, routes}
use contrato_core.Routes

-- What the answers carry.
pub data Payload : Type 0 where
  health_status : Map → Payload
  model_version : ModelVersion → Payload
  model_versions : List ModelVersion → Payload
  node : Node → Payload
  edge : Edge → Payload
  edges : List Edge → Payload
  property : Property → Payload
  contract : ContractRecord → Payload
  contracts : List ContractRecord → Payload
  holes_found : HolesResponse → Payload
  boundary_found : BoundaryResponse → Payload
  implied_found : ImpliedEdgesResponse → Payload
  gaps_found : GapsResponse → Payload
  paths_found : PathsResponse → Payload

-- A request with its query parameters and its body.
pub record Incoming : Type 0 where
  pub request : Request
  pub query : String → String
  pub body : String

-- The libraries: the router github.com/go-chi/chi, with its `URLParam` and what it answers to a request
-- without a route, the graph libraries, the order of `range` over the two maps of the implied edges, and encoding/json.
pub record Libraries (G H : Type 0) : Type 0 where
  pub segments : String → List String
  pub choose : List Route → String → List String → Option Route
  pub url_param : List Segment → List String → String → String
  pub unrouted : Request → Response Payload
  pub node_graphs : Library GraphNode G
  pub id_graphs : Library String H
  pub range : List String → List String
  pub delegates_range : List String → List String
  pub unmarshal_map : String → Option Map
  pub unmarshal : String → Option Json
  pub parse_int : String → Option ℤ
  pub decode_model_version : String → Decoded ModelVersion
  pub decode_version_status : String → Decoded ModelVersions.StatusBody
  pub decode_node : String → Decoded Node
  pub decode_edge : String → Decoded Edge
  pub decode_property : String → Decoded Property
  pub decode_contract : String → Decoded ContractRecord
  pub decode_contract_status : String → Decoded Contracts.StatusBody

abbrev pub body_as : {A : Type 0} → (A → Payload) → Body A → Body Payload
body_as wrap (payload a) = payload (wrap a)
body_as wrap (problem msg) = problem msg

abbrev pub sent_as : {A : Type 0} → (A → Payload) → Response A × World → Response Payload × World
sent_as wrap (r, w) = (record { status = r.status; body = body_as wrap r.body }, w)

unfoldable pub sends : {A : Type 0} → (A → Payload) → Handler A → Handler Payload
sends wrap h w = sent_as wrap (h w)

abbrev pub pinged : Result (Unit {0}) × World → Response Payload × World
pinged (ok _, w) = (respond_ok (health_status (some (field "status" (text "ok") end))), w)
pinged (err x, w) = (respond_error 503 "unhealthy", w)

unfoldable pub health : Handler Payload
health w = pinged (signal w)

module _ {G H : Type 0} (libs : Libraries G H) where
  -- What a route does; `q` are the query parameters, `p` those of the path, and `b` is the body.
  unfoldable pub handle :
      Routes.Endpoint → (String → String) → (String → String) → String → Handler Payload
  unfolding health
  handle Routes.health q p b = health
  handle Routes.list_model_versions q p b =
      sends model_versions (ModelVersions.list (q "tenant_id") (q "model_id"))
  handle Routes.create_model_version q p b =
      sends model_version (ModelVersions.create (libs.decode_model_version b))
  handle Routes.get_model_version q p b =
      sends model_version (ModelVersions.get (q "tenant_id") (p "model_id"))
  handle Routes.set_model_version_status q p b =
      sends model_version (ModelVersions.set_status (libs.decode_version_status b))
  handle Routes.list_nodes q p b =
      sends node (Graph.list_nodes (q "tenant_id") (q "model_id") (q "id"))
  handle Routes.create_node q p b = sends node (Graph.create_node (libs.decode_node b))
  handle Routes.get_node q p b = sends node (Graph.get_node_by_id (q "tenant_id") (p "id"))
  handle Routes.update_node q p b =
      sends node
        (Graph.update_node libs.parse_int (p "id") (q "expected_version") (libs.decode_node b))
  handle Routes.list_edges q p b =
      sends edges (Graph.list_edges (q "tenant_id") (q "from") (q "domain") (q "type"))
  handle Routes.create_edge q p b = sends edge (Graph.create_edge (libs.decode_edge b))
  handle Routes.update_edge q p b =
      sends edge (Graph.update_edge (p "from") (p "to") (p "type") (libs.decode_edge b))
  handle Routes.get_property q p b =
      sends property (Properties.get (q "tenant_id") (p "owner_type") (p "owner_id") (p "key"))
  handle Routes.put_property q p b = sends property (
      Properties.put libs.parse_int (p "owner_type") (p "owner_id") (p "key") (q "expected_version")
        (libs.decode_property b))
  handle Routes.list_contracts q p b =
      sends contracts (Contracts.list (q "tenant_id") (q "domain") (q "type"))
  handle Routes.create_contract q p b = sends contract (Contracts.create (libs.decode_contract b))
  handle Routes.get_contract q p b = sends contract (Contracts.get (q "tenant_id") (p "id"))
  handle Routes.set_contract_status q p b =
      sends contract (Contracts.set_status (p "id") (libs.decode_contract_status b))
  handle Routes.find_holes q p b =
      sends holes_found (holes libs.node_graphs libs.unmarshal_map (q "tenant_id"))
  handle Routes.find_boundary q p b =
      sends boundary_found (boundary libs.node_graphs libs.unmarshal_map (q "tenant_id"))
  handle Routes.find_implied_edges q p b = sends implied_found (
      implied_edges libs.node_graphs libs.range libs.delegates_range libs.unmarshal_map
        (q "tenant_id"))
  handle Routes.find_gaps q p b = sends gaps_found (gaps libs.unmarshal (q "tenant_id"))
  handle Routes.find_paths q p b =
      sends paths_found (paths libs.id_graphs (q "tenant_id") (q "from") (q "to"))
  handle Routes.resolve q p b = λ w. (respond_error 501 "resolver not yet implemented", w)
  handle Routes.simulate q p b = λ w. (respond_error 501 "simulator not yet implemented", w)

  abbrev pub routed : Incoming → Option Route → Handler Payload
  routed i none = λ w. (libs.unrouted i.request, w)
  routed i (some r) =
      handle r.endpoint i.query (libs.url_param r.pattern (libs.segments i.request.path)) i.body

  -- The router, with the routes of the enabled features; the store gives access to its database.
  unfoldable pub route_request : Features → Incoming → Handler Payload
  route_request f i =
      routed i (libs.choose (routes f true) i.request.method (libs.segments i.request.path))

  -- The whole server: the handlers do not look at the authenticated context.
  unfoldable pub serve : Provider → Engine → Features → Incoming → Handler Payload
  serve an az f i =
      with_auth an az (λ ac req. route_request f (record i { request = req })) i.request

  unfoldable pub serve_all : Provider → Engine → Features → List Incoming → World → World
  serve_all an az f [] w = w
  serve_all an az f (i ∷ is) w = serve_all an az f is (serve an az f i w).1
