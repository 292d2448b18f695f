-- ===== src/Bundle/Lint/Complete.antt =====
-- What a bundle without lint issues looks like.
use contrato_core.Base.{
  ◌≡◌, ◌≢◌, ◌↔◌, refl, true, List, [], ◌∷◌, each, length, nat_beq, string_eq, All, append-eq-nil,
  each-eq-nil, arith,
}
use contrato_core.Bundle.{Bundle}
use contrato_core.Bundle.Lint.{
  LintIssue, actors, policies, capabilities, LintMode, enabled_model, bootstrap, required_types,
  type_set, type_issues, of_type, id_set, count_issues, edge_issues, targets_of, cap_issues,
  caps_issues, lint_issues, lint_bundle,
}
use contrato_core.Bundle.Lint.Checks.{
  ◌⨾◌, both, each_of, unless-eq-nil, HasType, HasTypes, HasRefs, IsCovered, types_iff, HasType-iff,
  edges_iff, IsCovered-iff, select_iff,
}

-- The model has its required types, an actor, a policy and a capability, its edges join nodes, and
-- every capability with an id is provided and governed and carries `ref` and `job`.
abbrev pub IsComplete : Bundle → Type 0
IsComplete b =
    HasTypes b enabled_model
    × ((HasType b.nodes "actor" × (HasType b.nodes "policy" × HasType b.nodes "capability"))
        × (HasRefs b × All (λ n. n.type ≡ "capability" → n.id ≢ "" → IsCovered b n) b.nodes))

-- What is asked before a tenant is bootstrapped.
abbrev pub IsSeed : Bundle → Type 0
IsSeed b = HasTypes b bootstrap × (HasType b.nodes "policy" × HasRefs b)

length_iff : (xs : List LintIssue) → (nat_beq (length xs) 0 ≡ true) ↔ (xs ≡ [])
length_iff [] = (λ _. refl, λ _. refl)
length_iff (x ∷ xs) = (λ h. absurd (ground arith), λ h. absurd (ground arith))

abbrev Counted : Bundle → LintMode → Type 0
Counted b mode = count_issues mode b.nodes ≡ []

abbrev Covered : Bundle → LintMode → Type 0
Covered b mode = caps_issues mode b ≡ []

-- The report is good if each of the four groups of checks finds nothing.
report_iff :
    (b : Bundle) (mode : LintMode)
    → ((lint_bundle b mode).is_ok ≡ true)
      ↔ (HasTypes b mode × (Counted b mode × (HasRefs b × Covered b mode)))
unfolding lint_bundle
report_iff b mode =
    length_iff (lint_issues b mode)
    ⨾ (append-eq-nil (each (type_issues (type_set b)) (required_types mode)) _
        ⨾ both
            (each-eq-nil (type_issues (type_set b)) (required_types mode)
              ⨾ each_of (types_iff b) (required_types mode))
            (append-eq-nil (count_issues mode b.nodes) _
              ⨾ both ((λ h. h), (λ h. h))
                  (append-eq-nil (each (edge_issues (id_set b.nodes)) b.edges) (caps_issues mode b)
                    ⨾ both
                        (each-eq-nil (edge_issues (id_set b.nodes)) b.edges
                          ⨾ each_of (edges_iff b) b.edges)
                        ((λ h. h), (λ h. h)))))

Counted-enabled :
    (b : Bundle)
    → Counted b enabled_model
      ↔ (HasType b.nodes "actor" × (HasType b.nodes "policy" × HasType b.nodes "capability"))
unfolding count_issues
Counted-enabled b =
    append-eq-nil _ _
    ⨾ both (unless-eq-nil _ actors ⨾ HasType-iff b.nodes "actor") (
        append-eq-nil _ _
        ⨾ both (unless-eq-nil _ policies ⨾ HasType-iff b.nodes "policy")
            (unless-eq-nil _ capabilities ⨾ HasType-iff b.nodes "capability"))

Counted-bootstrap : (b : Bundle) → Counted b bootstrap ↔ HasType b.nodes "policy"
unfolding count_issues
Counted-bootstrap b =
    append-eq-nil _ _
    ⨾ ((λ h. ((append-eq-nil _ _).0 h.1).0), (λ h. (refl, (append-eq-nil _ _).1 (h, refl))))
    ⨾ (unless-eq-nil _ policies ⨾ HasType-iff b.nodes "policy")

Covered-enabled :
    (b : Bundle)
    → Covered b enabled_model ↔ All (λ n. n.type ≡ "capability" → n.id ≢ "" → IsCovered b n) b.nodes
unfolding caps_issues
Covered-enabled b =
    each-eq-nil (cap_issues (targets_of "provides" b.edges) (targets_of "governs" b.edges))
      (of_type "capability" b.nodes)
    ⨾ (each_of (IsCovered-iff b) (of_type "capability" b.nodes)
        ⨾ select_iff (λ n. n.id ≢ "" → IsCovered b n) "capability" b.nodes)

-- The lint of an enabled model reports no issue exactly if the bundle is complete: it has the six
-- required types, an actor, a policy and a capability, both ends of each edge are empty or the id of
-- a node, and every capability with an id has a provider, a governing policy, a `ref` and a `job`.
pub lint_bundle-IsComplete :
    (b : Bundle) → ((lint_bundle b enabled_model).is_ok ≡ true) ↔ IsComplete b
lint_bundle-IsComplete b =
    report_iff b enabled_model
    ⨾ both ((λ h. h), (λ h. h))
        (both (Counted-enabled b) (both ((λ h. h), (λ h. h)) (Covered-enabled b)))

-- The lint of a bootstrap reports no issue exactly if the bundle has the five types that it asks
-- for and a policy, and both ends of each edge are empty or the id of a node.
pub lint_bundle-IsSeed : (b : Bundle) → ((lint_bundle b bootstrap).is_ok ≡ true) ↔ IsSeed b
unfolding caps_issues
lint_bundle-IsSeed b =
    report_iff b bootstrap
    ⨾ both ((λ h. h), (λ h. h)) (both (Counted-bootstrap b) ((λ h. h.0), (λ h. (h, refl))))
