-- ===== src/Tests/Bundles.antt =====
-- A bundle that is complete, and one that lacks the target of an edge.
use contrato_core.Base.{◌≡◌, ◌↔◌, refl, String, none, some, [], ◌∷◌, true, false, pos}
use contrato_core.Json.{text, end, field, Map}
use contrato_core.Bundle.{Bundle, Kind, Node, Edge, Model}
use contrato_core.Bundle.Lint.{lint_bundle, enabled_model, bootstrap}
use contrato_core.Bundle.Lint.Complete.{IsComplete, lint_bundle-IsComplete}

abbrev kind : String → String → Kind
kind domain name = record { domain = domain; name = name }

abbrev node : String → String → Map → Node
node id type blob = record { id = id; domain = "node"; type = type; blob = blob }

abbrev edge : String → String → String → Edge
edge type from to = record { from_id = from; to_id = to; domain = "edge"; type = type; blob = none }

abbrev model : Model
model = record {
  model_id = "m1";
  version = 1;
  status = "enabled";
  change_note = "";
  created_at = 0;
}

abbrev pub with_target : String → Bundle
with_target target = record {
  format_version = pos 1;
  tenant_name = "acme";
  model = model;
  types =
      kind "node" "capability"
      ∷ kind "node" "policy"
      ∷ kind "node" "actor"
      ∷ kind "edge" "provides"
      ∷ kind "edge" "requires"
      ∷ kind "edge" "governs"
      ∷ [];
  statuses = [];
  nodes =
      node "a" "actor" none
      ∷ node "p" "policy" none
      ∷ node "c" "capability" (some (field "ref" (text "r") (field "job" (text "j") end)))
      ∷ [];
  edges = edge "provides" "a" target ∷ edge "governs" "p" "c" ∷ [];
  properties = [];
  contracts = [];
}

-- With its provider the bundle passes; with an edge to no node it does not.
passes : (lint_bundle (with_target "c") enabled_model).is_ok ≡ true
unfolding lint_bundle
passes = refl

fails : (lint_bundle (with_target "x") bootstrap).is_ok ≡ false
unfolding lint_bundle
fails = refl

lint_bundle-IsComplete_example :
    ((lint_bundle (with_target "c") enabled_model).is_ok ≡ true) ↔ IsComplete (with_target "c")
lint_bundle-IsComplete_example = lint_bundle-IsComplete (with_target "c")
