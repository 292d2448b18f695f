-- ===== src/Tests/Requests.antt =====
-- Requests to a server whose router takes the first route that fits.
use contrato_core.Base.{
  ◌≡◌, refl, String, true, Bool-cases, inl, inr, none, some, List, [], ◌∷◌, find, pos, Exists, ◌==◌,
  string_eq, arith, if◌then◌else◌,
}
use contrato_core.Http.{decoded, malformed, respond_error}
use contrato_core.Access.{Provider, Features, noop_provider, noop_engine}
use contrato_core.Bundle.Import.Sound.{IsSound}
use contrato_core.Frontier.{GraphNode}
use contrato_core.Routes.{Route}
use contrato_core.Routes.Unambiguous.{accepts}
use contrato_core.Server.{Incoming, Libraries, serve, serve_all}
use contrato_core.Server.Sound.{serve_all-IsSound}
use contrato_core.Server.Sound.Reading.{IsRouter, serve-get}
use contrato_core.Tests.{world, node}
use contrato_core.Tests.GraphLibrary.{Graph, library}
use contrato_core.Tests.Imports.{world-IsSound}

abbrev nodes_path : List String
nodes_path = "v0" ∷ "graph" ∷ "nodes" ∷ []

abbrev node_path : List String
node_path = "v0" ∷ "graph" ∷ "nodes" ∷ "n1" ∷ []

abbrev libs : Libraries (Graph GraphNode) (Graph String)
libs = record {
  segments = λ path. if path == "/v0/graph/nodes" then nodes_path else node_path;
  choose = λ rs method path. find (accepts method path) rs;
  url_param = λ pattern path name. if name == "id" then "n1" else "";
  unrouted = λ req. respond_error 404 "404 page not found";
  node_graphs = library (λ n. n.id);
  id_graphs = library (λ id. id);
  range = λ ids. ids;
  delegates_range = λ ids. ids;
  unmarshal_map = λ raw. none;
  unmarshal = λ raw. none;
  parse_int = λ raw. some (pos 1);
  decode_model_version = λ body. malformed "EOF";
  decode_version_status = λ body. malformed "EOF";
  decode_node = λ body. decoded (node "n1" 0 body);
  decode_edge = λ body. malformed "EOF";
  decode_property = λ body. malformed "EOF";
  decode_contract = λ body. malformed "EOF";
  decode_contract_status = λ body. malformed "EOF";
}

found_member :
    (method : String) (path : List String) (rs : List Route) (r : Route)
    → find (accepts method path) rs ≡ some r
    → Exists (λ (s : Route). s ≡ r) rs
found_member method path [] r e = absurd (ground arith)
found_member method path (s ∷ rs) r e = elim (Bool-cases (accepts method path s)) [
  | inl a ↦ inl (ground arith)
  | inr a ↦ inr (found_member method path rs r (ground arith))
]

found_fits :
    (method : String) (path : List String) (rs : List Route) (r : Route)
    → find (accepts method path) rs ≡ some r
    → accepts method path r ≡ true
found_fits method path [] r e = absurd (ground arith)
found_fits method path (s ∷ rs) r e = elim (Bool-cases (accepts method path s)) [
  | inl a ↦ ground arith
  | inr a ↦ found_fits method path rs r (ground arith)
]

libs-IsRouter : IsRouter libs
libs-IsRouter = record {
  member = λ rs method path r e. found_member method path rs r e;
  fitting = λ rs method path r e. found_fits method path rs r e;
}

abbrev anyone : Provider
anyone = noop_provider "service:dev" "user:dev"

abbrev all_features : Features
all_features = record { frontier = true; waypoint = true; meridian = true }

abbrev sent : String → String → String → Incoming
sent method path body = record {
  request = record { path = path; method = method; headers = [] };
  query = λ name. if name == "tenant_id" then "t1" else "";
  body = body;
}

abbrev some_requests : List Incoming
some_requests =
    sent "POST" "/v0/graph/nodes" "{}"
    ∷ sent "PUT" "/v0/graph/nodes/n1" "[]"
    ∷ sent "GET" "/v0/graph/nodes/n1" ""
    ∷ []

serve_all-IsSound_example :
    IsSound (serve_all libs anyone (noop_engine true) all_features some_requests world).db
serve_all-IsSound_example =
    serve_all-IsSound libs anyone (noop_engine true) all_features some_requests world world-IsSound

serve-get_example :
    (serve libs anyone
      (noop_engine true)
      all_features
      (sent "GET" "/v0/graph/nodes/n1" "")
      world).1.db
    ≡ world.db
serve-get_example =
    serve-get libs libs-IsRouter anyone (noop_engine true) all_features
      (sent "GET" "/v0/graph/nodes/n1" "") world refl
