-- ===== src/Tests/Policies.antt =====
-- Two policies, of which the second denies.
use contrato_core.Base.{◌≡◌, refl, String, Option, none, some, List, [], ◌∷◌, string_eq}
use contrato_core.Json.{Json, text, object, end, field, Map}
use contrato_core.Resolution.{
  EntityRef, ModelRef, ContractRequest, Resolved, ResolvedNode, ResolvedPolicy, Decision,
}
use contrato_core.Policy.{
  RegoResult, results, done, eval, output_of, merge_decision, node_blobs, ◌>>=◌,
}
use contrato_core.Policy.Decisions.{eval-decided, decided, answers}

-- Every text is read as `{"source": text}`.
abbrev unmarshal : String → Option Map
unmarshal s = some (some (field "source" (text s) end))

-- The engine answers with the module's text as the action.
abbrev rego : String → String → String → Json → RegoResult
rego query module_name src input = results ((object (field "action" (text src) end) ∷ []) ∷ [])

abbrev someone : EntityRef
someone = record { node_id = "a"; type = "actor" }

abbrev model : ModelRef
model = record { tenant_id = "t1"; model_id = "m1"; model_version = "1" }

abbrev request : ContractRequest
request = record {
  id = "r1";
  tenant_id = "t1";
  model = model;
  actor = someone;
  subject = someone;
  resource = someone;
  requested = "read";
  context = none;
  at_time = "";
}

abbrev policy_node : String → String → ResolvedNode
policy_node id src = record { node_id = id; type = "policy"; blob = src }

abbrev policy : String → ResolvedPolicy
policy id = record {
  policy_node_id = id;
  package_name = "p";
  rule = "decision";
  input_schema = none;
  output_schema = none;
}

abbrev resolved : Resolved
resolved = record {
  model = model;
  nodes = policy_node "p1" "allow" ∷ policy_node "p2" "deny" ∷ [];
  edges = [];
  params = [];
  policies = policy "p1" ∷ policy "p2" ∷ [];
  facts = none;
}

eval-decided_example :
    eval unmarshal rego request resolved
    ≡ (answers unmarshal rego request resolved >>= λ outs. done (decided outs))
eval-decided_example = eval-decided unmarshal rego request resolved

abbrev outs : List Map
outs = some (field "action" (text "allow") end) ∷ some (field "action" (text "deny") end) ∷ []

abbrev denied : Decision
denied = record { action = "deny"; obligations = []; reasons = []; facts = none }

both_answer : answers unmarshal rego request resolved ≡ done outs
unfolding output_of node_blobs
both_answer = refl

eval_denies : eval unmarshal rego request resolved ≡ done denied
unfolding eval output_of node_blobs merge_decision
eval_denies = refl
