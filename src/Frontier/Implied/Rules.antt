-- ===== src/Frontier/Implied/Rules.antt =====
-- Which edges the two rules report.
use contrato_core.Base.{
  ◌≡◌, refl, ◌∙◌, String, Bool, true, ◌&&◌, ◌||◌, not, List, [], ◌∷◌, any, any-append, any-each,
  any-cong, any_and, each, ◌==◌, string_eq, arith, eq_iff, Bool-cases, inl, inr,
}
use contrato_core.Digraph.{Library}
use contrato_core.Frontier.{GraphNode, GraphEdge}
use contrato_core.Frontier.Implied.{
  ImpliedEdge, has_edge, keys, targets, is_some_path, required_edge, delegated_edge, required_edges,
  delegated_edges, detect_implied_edges,
}

any_first :
    {A : Type 0} (p q : A → Bool) (xs : List A) → any (λ x. p x && q x) xs ≡ true → any p xs ≡ true
any_first p q [] h = absurd (ground arith)
any_first p q (x ∷ xs) h = ground (arith, any_first p q xs)

any-targets :
    (p : String → Bool) (type : String) (xs : List GraphEdge) (id : String)
    → any p (targets type xs id) ≡ any (λ x. (x.type == type && x.from_id == id) && p x.to_id) xs
any-targets p type [] id = refl
any-targets p type (x ∷ xs) id = ground (arith, any-targets p type xs id)

any_of_key :
    (q : String → Bool) (ks : List String) (k : String)
    → any (λ j. j == k) ks ≡ true
    → q k ≡ true
    → any q ks ≡ true
any_of_key q [] k h s = absurd (ground arith)
any_of_key q (j ∷ ks) k h s = ground (arith, eq_iff j k, any_of_key q ks k)

any-keys :
    (q : String → Bool) (type : String) (xs : List GraphEdge)
    → any q (keys type xs) ≡ any (λ x. x.type == type && q x.from_id) xs
any-keys q type [] = refl
any-keys q type (x ∷ xs) = ground (arith, any-keys q type xs, any_of_key q (keys type xs) x.from_id)

-- An edge of the first type to a node, and one of the second type from there.
abbrev pub two_steps : String → String → List GraphEdge → String → String → Bool
two_steps type type' xs a c =
    any
      (λ y.
        (y.type == type && y.from_id == a)
        && any (λ z. (z.type == type' && z.from_id == y.to_id) && z.to_id == c) xs)
      xs

-- The three loops of a rule.
abbrev loops :
    (List String → List String)
    → String
    → String
    → List GraphEdge
    → (String → String → String → List ImpliedEdge)
    → List ImpliedEdge
loops range type type' xs turn =
    each (λ k. each (λ m. each (turn k m) (targets type' xs m)) (targets type xs k))
      (range (keys type xs))

-- What the code relies on of `range` over a map: it meets every key and nothing else.
abbrev pub MeetsKeys : (List String → List String) → Type 0
MeetsKeys range = (q : String → Bool) (ks : List String) → any q (range ks) ≡ any q ks

-- The edges from `a` to `c`.
abbrev pub reports : String → String → ImpliedEdge → Bool
reports a c i = i.from_id == a && i.to_id == c

module _ (range : List String → List String) (meets : MeetsKeys range) (a c : String) (good : Bool)
    (type type' : String) (xs : List GraphEdge) (turn : String → String → String → List ImpliedEdge)
    (turns : (k m d : String) → any (reports a c) (turn k m d) ≡ (d == c && (k == a && good))) where
  last_loop :
      (k m : String)
      → any (reports a c) (each (turn k m) (targets type' xs m))
        ≡ (any (λ z. (z.type == type' && z.from_id == m) && z.to_id == c) xs && (k == a && good))
  last_loop k m =
      any-each (reports a c) (turn k m) (targets type' xs m)
      ∙ any-cong (λ d. turns k m d) (targets type' xs m)
      ∙ any-targets _ type' xs m
      ∙ any-cong (λ z. ground arith) xs
      ∙ any_and (λ (z : GraphEdge). (z.type == type' && z.from_id == m) && z.to_id == c)
          (k == a && good) xs

  middle_loop :
      (k : String)
      → any (reports a c) (each (λ m. each (turn k m) (targets type' xs m)) (targets type xs k))
        ≡ (two_steps type type' xs k c && (k == a && good))
  middle_loop k =
      any-each (reports a c) _ (targets type xs k)
      ∙ any-cong (λ m. last_loop k m) (targets type xs k)
      ∙ any-targets _ type xs k
      ∙ any-cong
          {q = λ y.
            ((y.type == type && y.from_id == k)
              && any (λ z. (z.type == type' && z.from_id == y.to_id) && z.to_id == c) xs)
            && (k == a && good)}
          (λ y. ground arith) xs
      ∙ any_and _ (k == a && good) xs

  any-loops :
      any (reports a c) (loops range type type' xs turn) ≡ (two_steps type type' xs a c && good)
  any-loops =
      any-each (reports a c) _ (range (keys type xs))
      ∙ meets _ (keys type xs)
      ∙ any-cong (λ k. middle_loop k) (keys type xs)
      ∙ any-keys _ type xs
      ∙ any-cong
          {q = λ x. (x.type == type && x.from_id == a) && (two_steps type type' xs a c && good)}
          at_key xs
      ∙ any_and (λ (x : GraphEdge). x.type == type && x.from_id == a)
          (two_steps type type' xs a c && good) xs
      ∙ ground (arith, starts)
    where
      starts :
          two_steps type type' xs a c ≡ true
          → any (λ (y : GraphEdge). y.type == type && y.from_id == a) xs ≡ true
      starts =
          any_first (λ (y : GraphEdge). y.type == type && y.from_id == a)
            (λ y. any (λ z. (z.type == type' && z.from_id == y.to_id) && z.to_id == c) xs) xs

      at_key :
          (x : GraphEdge)
          → (x.type == type && (two_steps type type' xs x.from_id c && (x.from_id == a && good)))
            ≡ ((x.type == type && x.from_id == a) && (two_steps type type' xs a c && good))
      at_key x = elim (Bool-cases (x.from_id == a)) [
        | inl b ↦ rw ((eq_iff x.from_id a).0 b) (ground (arith, eq_iff a a))
        | inr b ↦ rw b (ground arith)
      ]

module _ {G : Type 0} (lib : Library GraphNode G)
    (range delegates_range : List String → List String) (meets : MeetsKeys range)
    (delegates_meets : MeetsKeys delegates_range) (ns : List GraphNode) (xs : List GraphEdge)
    (g : G) (a c : String) where
  required_turn :
      (k m d : String)
      → any (reports a c) (required_edge lib ns xs g k m d) ≡ (
          d == c
          && (k == a && (not (has_edge xs a c "provides") && is_some_path (lib.all_paths g a c))))
  required_turn k m d = elim (Bool-cases (k == a && d == c)) [
    | inl b ↦
        let from_a : k ≡ a = ground (arith, eq_iff k a) in
        let to_c : d ≡ c = ground (arith, eq_iff d c) in
        rw (from_a, to_c) (ground (arith, eq_iff a a, eq_iff c c))
    | inr b ↦ ground arith
  ]

  delegated_turn :
      (k m d : String)
      → any (reports a c) (delegated_edge ns xs k m d)
        ≡ (d == c && (k == a && not (has_edge xs a c "provides")))
  delegated_turn k m d = elim (Bool-cases (k == a && d == c)) [
    | inl b ↦
        let from_a : k ≡ a = ground (arith, eq_iff k a) in
        let to_c : d ≡ c = ground (arith, eq_iff d c) in
        rw (from_a, to_c) (ground (arith, eq_iff a a, eq_iff c c))
    | inr b ↦ ground arith
  ]

  -- An edge from `a` to `c` is reported exactly if the model has no `provides` edge from `a` to `c`, and
  -- either `a` provides something that requires `c`, and the library finds a path from `a` to `c`, or `a`
  -- can delegate to something that provides `c`, whatever the order of the map's keys.
  pub reports-detect_implied_edges :
      any (reports a c) (detect_implied_edges lib range delegates_range ns xs g) ≡ (
        not (has_edge xs a c "provides")
        && ((two_steps "provides" "requires" xs a c && is_some_path (lib.all_paths g a c))
            || two_steps "can_delegate_to" "provides" xs a c))
  unfolding detect_implied_edges required_edges delegated_edges
  reports-detect_implied_edges =
      any-append (reports a c) (required_edges lib range delegates_range ns xs g)
        (delegated_edges delegates_range ns xs)
      ∙ ground (
        arith,
        any-loops range meets a c _ "provides" "requires" xs (required_edge lib ns xs g)
            required_turn,
        any-loops delegates_range delegates_meets a c _ "can_delegate_to" "provides" xs
            (delegated_edge ns xs) delegated_turn,
      )
