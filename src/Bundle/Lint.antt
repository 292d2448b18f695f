-- ===== src/Bundle/Lint.antt =====
-- internal/modelio/lint.go. The maps of the source are the lists of their keys.
pub mod Checks
pub mod Complete
use contrato_core.Base.{
  ℕ, String, ◌<>◌, Bool, true, false, not, ◌&&◌, ◌||◌, List, [], ◌∷◌, ◌++◌, map, any, select, each,
  length, nat_beq, ◌==◌, string_eq, if◌then◌else◌,
}
use contrato_core.Json.{Map, at, is_nil}
use contrato_core.Bundle.{Bundle, Kind, Node, Edge}

pub record LintIssue : Type 0 where
  pub code : String
  pub message : String
  pub path : String

pub record LintReport : Type 0 where
  pub is_ok : Bool
  pub issues : List LintIssue

pub data LintMode : Type 0 where
  enabled_model bootstrap : LintMode

abbrev pub is_bootstrap : LintMode → Bool
is_bootstrap enabled_model = false
is_bootstrap bootstrap = true

abbrev issue : String → String → String → LintIssue
issue code message path = record { code = code; message = message; path = path }

-- The key `domain + ":" + name`.
abbrev pub kind_key : String → String → String
kind_key domain name = domain <> ":" <> name

-- `if !found { issues = append(issues, …) }`
abbrev pub unless : Bool → LintIssue → List LintIssue
unless found i = if found then [] else i ∷ []

abbrev pub contains : String → List String → Bool
contains k = any (λ j. j == k)

-- The two node types, the three edge types, and `node:actor` unless a tenant is bootstrapped.
abbrev pub required_types : LintMode → List (String × String)
required_types bootstrap =
    ("node", "capability")
    ∷ ("node", "policy")
    ∷ ("edge", "provides")
    ∷ ("edge", "requires")
    ∷ ("edge", "governs")
    ∷ []
required_types enabled_model =
    ("node", "capability")
    ∷ ("node", "policy")
    ∷ ("edge", "provides")
    ∷ ("edge", "requires")
    ∷ ("edge", "governs")
    ∷ ("node", "actor")
    ∷ []

pub type_set : Bundle → List String
type_set b = map (λ t. kind_key t.domain t.name) b.types

pub type_issues : List String → String × String → List LintIssue
type_issues keys (domain, name) =
    unless (contains (kind_key domain name) keys)
      (issue "MISSING_TYPE" ("missing required type " <> kind_key domain name) "")

abbrev pub of_type : String → List Node → List Node
of_type t = select (λ n. n.type == t)

-- The ids of the nodes that have one.
pub id_set : List Node → List String
id_set ns = map (λ n. n.id) (select (λ n. not (n.id == "")) ns)

abbrev pub is_empty : List Node → Bool
is_empty [] = true
is_empty (_ ∷ _) = false

abbrev pub actors : LintIssue
actors = issue "NO_ACTORS" "enabled model should include at least one actor node" ""

abbrev pub policies : LintIssue
policies = issue "NO_POLICIES" "enabled model should include at least one policy node" ""

abbrev pub capabilities : LintIssue
capabilities =
    issue "NO_CAPABILITIES" "enabled model should include at least one capability node" ""

pub count_issues : LintMode → List Node → List LintIssue
count_issues mode ns =
    unless (is_bootstrap mode || not (is_empty (of_type "actor" ns))) actors
    ++ (unless (not (is_empty (of_type "policy" ns))) policies
        ++ unless (is_bootstrap mode || not (is_empty (of_type "capability" ns))) capabilities)

pub edge_issues : List String → Edge → List LintIssue
edge_issues ids x =
    unless (x.from_id == "" || contains x.from_id ids)
      (issue "BAD_REF" "edge.from_id not found" x.from_id)
    ++ unless (x.to_id == "" || contains x.to_id ids)
        (issue "BAD_REF" "edge.to_id not found" x.to_id)

-- The targets of the edges of a type: `providers` and `governed`.
pub targets_of : String → List Edge → List String
targets_of t xs = map (λ x. x.to_id) (select (λ x. x.type == t) xs)

pub cap_issues : List String → List String → Node → List LintIssue
cap_issues providers governed c =
    if c.id == ""
    then []
    else unless (contains c.id providers)
        (issue "CAP_NO_PROVIDER" "capability has no provider (missing provides edge)" c.id)
      ++ (unless (contains c.id governed)
            (issue "CAP_NO_POLICY" "capability has no governing policy (missing governs edge)" c.id)
          ++ (unless (not (is_nil (at "ref" c.blob)))
                (issue "CAP_NO_REF" "capability missing blob.ref" c.id)
              ++ unless (not (is_nil (at "job" c.blob)))
                  (issue "CAP_NO_JOB" "capability missing blob.job" c.id)))

pub caps_issues : LintMode → Bundle → List LintIssue
unfolding cap_issues targets_of
caps_issues bootstrap b = []
caps_issues enabled_model b =
    each (cap_issues (targets_of "provides" b.edges) (targets_of "governs" b.edges))
      (of_type "capability" b.nodes)

pub lint_issues : Bundle → LintMode → List LintIssue
unfolding type_set type_issues count_issues id_set edge_issues caps_issues
lint_issues b mode =
    each (type_issues (type_set b)) (required_types mode)
    ++ (count_issues mode b.nodes
        ++ (each (edge_issues (id_set b.nodes)) b.edges ++ caps_issues mode b))

unfoldable pub lint_bundle : Bundle → LintMode → LintReport
unfolding lint_issues
lint_bundle b mode =
    let issues = lint_issues b mode in record { is_ok = nat_beq (length issues) 0; issues = issues }
