-- ===== src/Policy.antt =====
-- internal/opa/eval.go
pub mod Merge
pub mod Decisions
use contrato_core.Base.{
  ℕ, String, ◌<>◌, Option, none, some, Bool, true, false, List, [], ◌∷◌, ◌++◌, map, not, ◌||◌, ◌==◌,
  string_eq, if◌then◌else◌,
}
use contrato_core.Json.{
  Json, null, number, text, object, array, Items, nil, cons, Fields, end, field, Map, at, as_text,
  as_array, as_object, to_items, from_map,
}
use contrato_core.Resolution.{
  ModelRef, EntityRef, ContractRequest, ResolvedNode, ResolvedEdge, ResolvedProperty,
  ResolvedPolicy, Resolved, Obligation, Decision,
}

abbrev pub no_decision : Decision
no_decision = record { action = ""; obligations = []; reasons = []; facts = none }

-- The strings among the items.
pub reasons_of : Items → List String
reasons_of nil = []
reasons_of (cons (text s) xs) = s ∷ reasons_of xs
reasons_of (cons _ xs) = reasons_of xs

abbrev pub or_empty : Option String → String
or_empty none = ""
or_empty (some s) = s

obligation_of : Fields → Obligation
obligation_of m = record {
  name = or_empty (as_text (at "name" (some m)));
  properties = as_object (at "properties" (some m));
}

-- The objects among the items.
pub obligations_of : Items → List Obligation
unfolding obligation_of
obligations_of nil = []
obligations_of (cons (object m) xs) = obligation_of m ∷ obligations_of xs
obligations_of (cons _ xs) = obligations_of xs

abbrev pub or_nil : Option Items → Items
or_nil none = nil
or_nil (some xs) = xs

-- The action that a policy gives; `""` if it gives none or no text.
abbrev pub action_of : Map → String
action_of out = or_empty (as_text (at "action" out))

unfoldable pub merge_action : String → String → String
merge_action old action =
    if action == "" then old else if old == "" || action == "deny" then action else old

unfoldable pub merge_decision : Decision → Map → Decision
unfolding merge_action reasons_of obligations_of
merge_decision d out = record {
  action = merge_action d.action (action_of out);
  reasons = d.reasons ++ reasons_of (or_nil (as_array (at "reasons" out)));
  obligations = d.obligations ++ obligations_of (or_nil (as_array (at "obligations" out)));
  facts = d.facts;
}

-- What can go wrong with a policy, by the id of its node.
pub data EvalError : Type 0 where
  not_in_nodes no_source no_result not_an_object : String → EvalError
  eval_failed : String → String → EvalError

pub data Evaluated (A : Type 0) : Type 0 where
  done : A → Evaluated A
  failed : EvalError → Evaluated A

infixl 5 ◌>>=◌
abbrev pub ◌>>=◌ : {A B : Type 0} → Evaluated A → (A → Evaluated B) → Evaluated B
done a >>= f = f a
failed x >>= f = failed x

abbrev or_fail : {A : Type 0} → Option A → EvalError → Evaluated A
or_fail none x = failed x
or_fail (some a) x = done a

-- `r.Eval(ctx)`: an error with its text, or the expressions of each result.
pub data RegoResult : Type 0 where
  rego_error : String → RegoResult
  results : List (List Json) → RegoResult

-- `rs[0].Expressions[0].Value`
abbrev first_value : List (List Json) → Option Json
first_value ((v ∷ _) ∷ _) = some v
first_value _ = none

-- `Value.(map[string]any)`
abbrev as_map : Json → Option Map
as_map (object fs) = some (some fs)
as_map _ = none

-- `unmarshal` is `json.Unmarshal` into a `map[string]any` (`none` is an error, `some none` the nil
-- map that `null` leaves), and `rego` the OPA engine: query, module name, module text, input.
module _ (unmarshal : String → Option Map)
    (rego : String → String → String → Json → RegoResult) where
  abbrev blob_of : Option Map → Json
  blob_of none = null
  blob_of (some m) = from_map m

  -- The blobs that parse, by node id. A later node replaces an earlier one of the same id.
  unfoldable pub node_blobs : List ResolvedNode → String → Option Map
  node_blobs [] id = none
  node_blobs (n ∷ ns) id = elim (node_blobs ns id) [
    | some m ↦ some m
    | none ↦ if n.node_id == id then unmarshal n.blob else none
  ]

  node_json : ResolvedNode → Json
  node_json n = object (
      field "node_id" (text n.node_id)
        (field "type" (text n.type) (field "blob" (blob_of (unmarshal n.blob)) end)))

  edge_json : ResolvedEdge → Json
  edge_json x = object (
      field "from_id" (text x.from_id) (
        field "to_id" (text x.to_id)
          (field "type" (text x.type) (field "blob" (blob_of (unmarshal x.blob)) end))))

  abbrev pointer : (String → Json) → Option String → Json
  pointer f none = null
  pointer f (some s) = f s

  property_json : ResolvedProperty → Json
  property_json p = object (
      field "owner_type" (text p.owner_type) (
        field "owner_id" (text p.owner_id) (
          field "key" (text p.key) (
            field "float" (pointer number p.float) (
              field "int" (pointer number p.int) (field "text" (pointer text p.text_value) end))))))

  entity_json : EntityRef → Json
  entity_json x = object (field "node_id" (text x.node_id) (field "type" (text x.type) end))

  model_json : ModelRef → Json
  model_json m = object (
      field "tenant_id" (text m.tenant_id)
        (field "model_id" (text m.model_id) (field "model_version" (number m.model_version) end)))

  request_json : ContractRequest → Json
  unfolding entity_json
  request_json req = object (
      field "id" (text req.id) (
        field "requested" (text req.requested) (
          field "at" (text req.at_time) (
            field "context" (from_map req.context) (
              field "actor" (entity_json req.actor) (
                field "subject" (entity_json req.subject)
                  (field "resource" (entity_json req.resource) end)))))))

  unfoldable pub build_input : ContractRequest → Resolved → Json
  unfolding node_json edge_json property_json model_json request_json
  build_input req r = object (
      field "model" (model_json r.model) (
        field "request" (request_json req) (
          field "nodes" (array (to_items (map node_json r.nodes))) (
            field "edges" (array (to_items (map edge_json r.edges))) (
              field "params" (array (to_items (map property_json r.params)))
                (field "facts" (from_map r.facts) end))))))

  -- `blob["source"].(string)`, not empty.
  abbrev source_of : Map → Option String
  source_of blob = elim (as_text (at "source" blob)) [
    | none ↦ none
    | some s ↦ if s == "" then none else some s
  ]

  abbrev checked : String → RegoResult → Evaluated (List (List Json))
  checked id (rego_error msg) = failed (eval_failed id msg)
  checked id (results rs) = done rs

  -- The body of the loop up to the merge: the object that one policy returns.
  unfoldable pub output_of : (String → Option Map) → Json → ResolvedPolicy → Evaluated Map
  output_of blobs input pol = do
    blob ← or_fail (blobs pol.policy_node_id) (not_in_nodes pol.policy_node_id)
    src ← or_fail (source_of blob) (no_source pol.policy_node_id)
    rs ← checked pol.policy_node_id (
        rego ("data." <> pol.package_name <> "." <> pol.rule) (pol.policy_node_id <> ".rego") src
          input)
    v ← or_fail (first_value rs) (no_result pol.policy_node_id)
    or_fail (as_map v) (not_an_object pol.policy_node_id)

  unfoldable pub eval_from :
      (String → Option Map) → Json → Decision → List ResolvedPolicy → Evaluated Decision
  eval_from blobs input d [] = done d
  eval_from blobs input d (pol ∷ pols) =
      output_of blobs input pol >>= λ out. eval_from blobs input (merge_decision d out) pols

  unfoldable pub eval : ContractRequest → Resolved → Evaluated Decision
  unfolding eval_from
  eval req r = eval_from (node_blobs r.nodes) (build_input req r) no_decision r.policies
