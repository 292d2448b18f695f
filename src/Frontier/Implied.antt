-- ===== src/Frontier/Implied.antt =====
-- The handler `ImpliedEdges`.
pub mod Rules
use contrato_core.Base.{
  ℕ, String, Bool, true, false, ◌&&◌, not, Option, none, some, List, [], ◌∷◌, ◌++◌, any, each, map,
  select, ◌==◌, string_eq, if◌then◌else◌,
}
use contrato_core.Json.{Map}
use contrato_core.Http.{Handler, respond_ok}
use contrato_core.Digraph.{Library}
use contrato_core.Frontier.{GraphNode, GraphEdge, analysis}

pub record ImpliedEdge : Type 0 where
  pub from_id : String
  pub to_id : String
  pub type : String
  pub basis : String
  pub via_node_id : String
  pub via_node_type : String

pub record ImpliedEdgesResponse : Type 0 where
  pub tenant_id : String
  pub model_id : String
  pub model_version : ℕ
  pub implied_edges : List ImpliedEdge

-- `edgeSet[edgeKey{from, to, typ}]`
abbrev pub has_edge : List GraphEdge → String → String → String → Bool
has_edge xs f t type = any (λ x. x.from_id == f && (x.to_id == t && x.type == type)) xs

-- The keys of `provides` or `delegates`, and the list under a key, which is empty if there is none.
abbrev pub keys : String → List GraphEdge → List String
keys type [] = []
keys type (x ∷ xs) =
    let rest = keys type xs in
    if x.type == type && not (any (λ k. k == x.from_id) rest) then x.from_id ∷ rest else rest

abbrev pub targets : String → List GraphEdge → String → List String
targets type xs id = map (λ x. x.to_id) (select (λ x. x.type == type && x.from_id == id) xs)

-- `nodeByID[id].Type`: of the last node with the id, or of the zero value.
abbrev pub node_type_or : String → List GraphNode → String → String
node_type_or found [] id = found
node_type_or found (n ∷ ns) id = node_type_or (if n.id == id then n.type else found) ns id

abbrev pub node_type : List GraphNode → String → String
node_type ns id = node_type_or "" ns id

-- `err != nil || len(paths) == 0` does not hold.
abbrev pub is_some_path : Option (List (List String)) → Bool
is_some_path none = false
is_some_path (some []) = false
is_some_path (some (p ∷ ps)) = true

abbrev pub provided : List GraphNode → String → String → String → String → ImpliedEdge
provided ns actor dep via basis = record {
  from_id = actor;
  to_id = dep;
  type = "provides";
  basis = basis;
  via_node_id = via;
  via_node_type = node_type ns via;
}

-- One turn of the innermost loop of each rule.
abbrev pub delegated_edge :
    List GraphNode → List GraphEdge → String → String → String → List ImpliedEdge
delegated_edge ns xs actor delegate cap =
    if has_edge xs actor cap "provides"
    then []
    else provided ns actor cap delegate "can delegate to an actor that provides this capability"
      ∷ []

-- `actor -[can_delegate_to]-> delegate -[provides]-> capability`. A `for … range` over a map meets the
-- keys in any order: `range` puts them in order.
unfoldable pub delegated_edges :
    (List String → List String) → List GraphNode → List GraphEdge → List ImpliedEdge
delegated_edges range ns xs =
    each
      (λ actor.
        each
          (λ delegate. each (delegated_edge ns xs actor delegate) (targets "provides" xs delegate))
          (targets "can_delegate_to" xs actor))
      (range (keys "can_delegate_to" xs))

module _ {G : Type 0} (lib : Library GraphNode G) where
  abbrev pub required_edge :
      List GraphNode → List GraphEdge → G → String → String → String → List ImpliedEdge
  required_edge ns xs g actor cap dep =
      if has_edge xs actor dep "provides"
      then []
      else if is_some_path (lib.all_paths g actor dep)
      then provided ns actor dep cap "provides a capability that requires this dependency" ∷ []
      else []

  -- The two loops may meet the keys of their maps in different orders.
  module _ (range delegates_range : List String → List String) where
    -- `actor -[provides]-> capability -[requires]-> dep`
    unfoldable pub required_edges : List GraphNode → List GraphEdge → G → List ImpliedEdge
    required_edges ns xs g =
        each
          (λ actor.
            each (λ cap. each (required_edge ns xs g actor cap) (targets "requires" xs cap))
              (targets "provides" xs actor))
          (range (keys "provides" xs))

    unfoldable pub detect_implied_edges : List GraphNode → List GraphEdge → G → List ImpliedEdge
    detect_implied_edges ns xs g = required_edges ns xs g ++ delegated_edges delegates_range ns xs

    unfoldable pub implied_edges : (String → Option Map) → String → Handler ImpliedEdgesResponse
    implied_edges unmarshal t = analysis lib unmarshal t λ mv ns xs g. respond_ok (record {
      tenant_id = t;
      model_id = mv.model_id;
      model_version = mv.version;
      implied_edges = detect_implied_edges ns xs g;
    })
