-- ===== src/Policy/Merge.antt =====
-- The running action against a rule on the whole list of actions.
use contrato_core.Base.{
  String, ◌≡◌, refl, ◌∙◌, Bool, false, List, [], ◌∷◌, arith, any, ◌==◌, string_eq, if◌then◌else◌,
  eq_iff,
}
use contrato_core.Policy.{merge_action}

-- The first action that is not empty.
abbrev pub first_action : List String → String
first_action [] = ""
first_action (a ∷ as') = if a == "" then first_action as' else a

abbrev pub is_deny : String → Bool
is_deny a = a == "deny"

-- A deny from any policy wins; the first action otherwise.
abbrev pub combined : List String → String
combined actions = if any is_deny actions then "deny" else first_action actions

abbrev pub merge_all : String → List String → String
merge_all old [] = old
merge_all old (a ∷ rest) = merge_all (merge_action old a) rest

empty_is_no_deny : ◌==◌ {Column = String} "" "deny" ≡ false
empty_is_no_deny = refl

merge_all-eq :
    (old : String) (actions : List String)
    → merge_all old actions
      ≡ (if any is_deny actions then "deny" else if old == "" then first_action actions else old)
unfolding merge_action
merge_all-eq old [] = ground (arith, eq_iff old "")
merge_all-eq old (a ∷ rest) =
    merge_all-eq (merge_action old a) rest
    ∙ ground
        (arith, eq_iff a "", eq_iff old "", eq_iff a "deny", eq_iff "deny" "", empty_is_no_deny)

pub merge_all-combined : (actions : List String) → merge_all "" actions ≡ combined actions
merge_all-combined actions = merge_all-eq "" actions
