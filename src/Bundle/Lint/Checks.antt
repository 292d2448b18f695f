-- ===== src/Bundle/Lint/Checks.antt =====
-- When each check of the lint finds nothing.
use contrato_core.Base.{
  String, ◌≡◌, ◌≢◌, ◌↔◌, ◌⊎◌, inl, inr, refl, sym, ◌∙◌, Bool, true, false, not, ◌&&◌, ◌||◌, List,
  [], ◌∷◌, map, any, select, ◌==◌, string_eq, All, Exists, any_iff, append-eq-nil, eq_iff, arith,
  Bool-cases, All-mono,
}
use contrato_core.Json.{at, is_nil}
use contrato_core.Bundle.{Bundle, Node, Edge}
use contrato_core.Bundle.Lint.{
  LintIssue, LintMode, kind_key, unless, contains, required_types, type_set, type_issues, of_type,
  id_set, is_empty, edge_issues, targets_of, cap_issues,
}

infixr 20 ◌⨾◌
pub ◌⨾◌ : {A B C : Type 0} → A ↔ B → B ↔ C → A ↔ C
f ⨾ g = (λ a. g.0 (f.0 a), λ c. f.1 (g.1 c))

pub both : {A B C D : Type 0} → A ↔ B → C ↔ D → (A × C) ↔ (B × D)
both f g = (λ p. (f.0 p.0, g.0 p.1), λ p. (f.1 p.0, g.1 p.1))

pub each_of :
    {A : Type 0} {P Q : A → Type 0} → ((x : A) → P x ↔ Q x) → (xs : List A) → All P xs ↔ All Q xs
each_of f xs = (All-mono (λ x. (f x).0) xs, All-mono (λ x. (f x).1) xs)

same_bool : {a b : Bool} → a ≡ b → (a ≡ true) ↔ (b ≡ true)
same_bool s = (λ h. sym s ∙ h, λ h. s ∙ h)

pub unless-eq-nil : (b : Bool) (i : LintIssue) → (unless b i ≡ []) ↔ (b ≡ true)
unless-eq-nil b i = ground arith

any-map-select :
    {A : Type 0} (p : String → Bool) (f : A → String) (q : A → Bool) (xs : List A)
    → any p (map f (select q xs)) ≡ any (λ x. q x && p (f x)) xs
any-map-select p f q [] = refl
any-map-select p f q (x ∷ xs) = ground (arith, any-map-select p f q xs)

any-map :
    {A : Type 0} (p : String → Bool) (f : A → String) (xs : List A)
    → any p (map f xs) ≡ any (λ x. p (f x)) xs
any-map p f [] = refl
any-map p f (x ∷ xs) = ground (arith, any-map p f xs)

nonempty-select :
    (t : String) (ns : List Node) → not (is_empty (of_type t ns)) ≡ any (λ n. n.type == t) ns
nonempty-select t [] = refl
nonempty-select t (n ∷ ns) = ground (arith, nonempty-select t ns)

-- An edge of the type points at the id.
abbrev pub Pointed : Bundle → String → String → Type 0
Pointed b t id = Exists (λ x. (x.type ≡ t) × (x.to_id ≡ id)) b.edges

abbrev pub HasType : List Node → String → Type 0
HasType ns t = Exists (λ n. n.type ≡ t) ns

-- An end of an edge is left empty, or is the id of a node.
abbrev pub IsRef : Bundle → String → Type 0
IsRef b id = (id ≡ "") ⊎ Exists (λ n. n.id ≡ id) b.nodes

abbrev pub IsCovered : Bundle → Node → Type 0
IsCovered b c =
    Pointed b "provides" c.id
    × (Pointed b "governs" c.id
        × ((is_nil (at "ref" c.blob) ≡ false) × (is_nil (at "job" c.blob) ≡ false)))

abbrev pub HasTypes : Bundle → LintMode → Type 0
HasTypes b mode =
    All (λ k. Exists (λ t. kind_key t.domain t.name ≡ kind_key k.0 k.1) b.types)
      (required_types mode)

abbrev pub HasRefs : Bundle → Type 0
HasRefs b = All (λ x. IsRef b x.from_id × IsRef b x.to_id) b.edges

targets_iff :
    (b : Bundle) (t id : String) → (contains id (targets_of t b.edges) ≡ true) ↔ Pointed b t id
unfolding targets_of
targets_iff b t id =
    same_bool (any-map-select (λ j. j == id) (λ x. x.to_id) (λ x. x.type == t) b.edges)
    ⨾ any_iff _ (λ x. ground (arith, eq_iff x.type t, eq_iff x.to_id id)) b.edges

pub types_iff :
    (b : Bundle) (k : String × String)
    → (type_issues (type_set b) k ≡ [])
      ↔ Exists (λ t. kind_key t.domain t.name ≡ kind_key k.0 k.1) b.types
unfolding type_issues type_set
types_iff b k =
    unless-eq-nil _ _
    ⨾ (same_bool (any-map (λ j. j == kind_key k.0 k.1) (λ t. kind_key t.domain t.name) b.types)
        ⨾ any_iff _ (λ t. eq_iff _ _) b.types)

pub HasType-iff :
    (ns : List Node) (t : String) → (not (is_empty (of_type t ns)) ≡ true) ↔ HasType ns t
HasType-iff ns t = same_bool (nonempty-select t ns) ⨾ any_iff _ (λ n. eq_iff _ _) ns

-- The ids that are kept are those of nodes, and an id that is not empty is kept.
member_iff :
    (b : Bundle) (id : String)
    → (id == "") ≡ false
    → (contains id (id_set b.nodes) ≡ true) ↔ Exists (λ n. n.id ≡ id) b.nodes
unfolding id_set
member_iff b id full =
    same_bool (any-map-select (λ j. j == id) (λ n. n.id) (λ n. not (n.id == "")) b.nodes)
    ⨾ any_iff _ (λ n. ground (arith, eq_iff n.id id, eq_iff n.id "", eq_iff id "")) b.nodes

right_only : {P Q : Type 0} → (P → ⊥) → Q ↔ (P ⊎ Q)
right_only no_p = (inr, λ h. elim h [ inl p ↦ absurd (no_p p) | inr q ↦ q ])

id_set_iff :
    (b : Bundle) (id : String) → ((id == "" || contains id (id_set b.nodes)) ≡ true) ↔ IsRef b id
id_set_iff b id = elim (Bool-cases (id == "")) [
  | inl e ↦ (λ _. inl ((eq_iff id "").0 e), λ _. rw e refl)
  | inr n ↦ rw n (member_iff b id n ⨾ right_only (λ e. ground (arith, eq_iff id "")))
]

pub edges_iff :
    (b : Bundle) (x : Edge)
    → (edge_issues (id_set b.nodes) x ≡ []) ↔ (IsRef b x.from_id × IsRef b x.to_id)
unfolding edge_issues
edges_iff b x =
    append-eq-nil _ _
    ⨾ both (unless-eq-nil _ _ ⨾ id_set_iff b x.from_id) (unless-eq-nil _ _ ⨾ id_set_iff b x.to_id)

not_iff : (b : Bool) → (not b ≡ true) ↔ (b ≡ false)
not_iff b = ground arith

-- The four checks of one capability.
pub IsCovered-iff :
    (b : Bundle) (c : Node)
    → (cap_issues (targets_of "provides" b.edges) (targets_of "governs" b.edges) c ≡ [])
      ↔ (c.id ≢ "" → IsCovered b c)
unfolding cap_issues
IsCovered-iff b c = elim (Bool-cases (c.id == "")) [
  | inl e ↦ rw e ((λ _ full. absurd (full ((eq_iff c.id "").0 e))), (λ _. refl))
  | inr n ↦ rw n (
      append-eq-nil _ _
      ⨾ (both (unless-eq-nil _ _ ⨾ targets_iff b "provides" c.id) (
            append-eq-nil _ _
            ⨾ both (unless-eq-nil _ _ ⨾ targets_iff b "governs" c.id) (
                append-eq-nil _ _
                ⨾ both (unless-eq-nil _ _ ⨾ not_iff _) (unless-eq-nil _ _ ⨾ not_iff _)))
          ⨾ ((λ h _. h), (λ h. h (λ e. ground (arith, eq_iff c.id ""))))))
]

-- A list of the capabilities has a property that all nodes have where they are capabilities.
pub select_iff :
    (P : Node → Type 0) (t : String) (ns : List Node)
    → All P (of_type t ns) ↔ All (λ n. n.type ≡ t → P n) ns
select_iff P t [] = (λ h. h, λ h. h)
select_iff P t (n ∷ ns) =
    let rest = select_iff P t ns in
    elim (Bool-cases (n.type == t)) [
      | inl e ↦ rw e (λ h. (λ _. h.0, rest.0 h.1), λ h. (h.0 ((eq_iff n.type t).0 e), rest.1 h.1))
      | inr e ↦
          rw e (λ h. (λ s. absurd (ground (arith, eq_iff n.type t)), rest.0 h), λ h. rest.1 h.1)
    ]
