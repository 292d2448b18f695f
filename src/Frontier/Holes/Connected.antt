-- ===== src/Frontier/Holes/Connected.antt =====
-- What a graph without holes has, in terms of its nodes and edges, and in terms of the tests of
-- `detectHoles`.
use contrato_core.Base.{
  ◌≡◌, ◌↔◌, ◌⊎◌, refl, ap, sym, subst, ◌∙◌, String, true, ◌&&◌, ◌||◌, Option, none, some, List, [],
  ◌∷◌, any, All, All-mono, All-mono_both, Exists, Exists-mono, any_iff, arith, eq_iff, ◌==◌, nat_eq,
  string_eq, Bool-cases, inl, inr,
}
use contrato_core.Frontier.{GraphNode, GraphEdge}
use contrato_core.Frontier.Holes.Components.{holds, AreApart, IsAlone, component_of-alone}
use contrato_core.Frontier.Holes.{is_reached_by, is_left_by, component_of}

-- The edges that the kind of a node asks for.
abbrev pub IsConnected : List GraphEdge → GraphNode → Type 0
IsConnected xs n =
    Exists (λ x. x.from_id ≡ n.id ⊎ x.to_id ≡ n.id) xs
    × (n.type ≡ "capability" → Exists (λ x. (x.to_id ≡ n.id) × (x.type ≡ "provides")) xs)
    × (n.type ≡ "capability" → Exists (λ x. (x.to_id ≡ n.id) × (x.type ≡ "governs")) xs)
    × (n.type ≡ "policy" → Exists (λ x. (x.from_id ≡ n.id) × (x.type ≡ "governs")) xs)
    × (n.type ≡ "actor" → Exists (λ x. x.from_id ≡ n.id) xs)

-- The same by the tests of the code.
abbrev pub Passes : List GraphEdge → GraphNode → Type 0
Passes xs n =
    (any (λ x. x.from_id == n.id || x.to_id == n.id) xs ≡ true)
    × (n.type ≡ "capability" → is_reached_by xs "provides" n.id ≡ true)
    × (n.type ≡ "capability" → is_reached_by xs "governs" n.id ≡ true)
    × (n.type ≡ "policy" → is_left_by xs "governs" n.id ≡ true)
    × (n.type ≡ "actor" → any (λ x. x.from_id == n.id) xs ≡ true)

either_iff : (a b c : String) → ((a == c || b == c) ≡ true) ↔ ((a ≡ c) ⊎ (b ≡ c))
either_iff a b c = (
  λ s. elim (Bool-cases (a == c)) [
    | inl h ↦ inl ((eq_iff a c).0 h)
    | inr h ↦ inr ((eq_iff b c).0 (ground arith))
  ],
  λ h. elim h [ inl s ↦ rw ((eq_iff a c).1 s) refl | inr s ↦ ground (arith, (eq_iff b c).1 s) ],
)

both_iff : (a b c d : String) → ((a == b && c == d) ≡ true) ↔ ((a ≡ b) × (c ≡ d))
both_iff a b c d = (
  λ s. ((eq_iff a b).0 (ground arith), (eq_iff c d).0 (ground arith)),
  λ (h, k). rw ((eq_iff a b).1 h, (eq_iff c d).1 k) refl,
)

pub Passes-iff : (xs : List GraphEdge) (n : GraphNode) → Passes xs n ↔ IsConnected xs n
Passes-iff xs n =
    let (e, e') = any_iff _ (λ (x : GraphEdge). either_iff x.from_id x.to_id n.id) xs in
    let (p, p') = any_iff _ (λ (x : GraphEdge). both_iff x.to_id n.id x.type "provides") xs in
    let (g, g') = any_iff _ (λ (x : GraphEdge). both_iff x.to_id n.id x.type "governs") xs in
    let (l, l') = any_iff _ (λ (x : GraphEdge). both_iff x.from_id n.id x.type "governs") xs in
    let (f, f') = any_iff _ (λ (x : GraphEdge). eq_iff x.from_id n.id) xs in
    (
      λ (h0, h1, h2, h3, h4). (e h0, λ s. p (h1 s), λ s. g (h2 s), λ s. l (h3 s), λ s. f (h4 s)),
      λ (h0, h1, h2, h3, h4).
          (e' h0, λ s. p' (h1 s), λ s. g' (h2 s), λ s. l' (h3 s), λ s. f' (h4 s)),
    )

-- Every id is in at most one component, and both ends of every edge are in one.
abbrev pub IsPartition : List GraphEdge → Option (List (List String)) → Type 0
IsPartition xs none = Unit {0}
IsPartition xs (some cs) =
    AreApart cs × All (λ x. (any (holds x.from_id) cs ≡ true) × (any (holds x.to_id) cs ≡ true)) xs

-- Where the library finds the components: an edge at a component of one id is a loop.
abbrev pub HasNoBridge : List GraphEdge → Option (List (List String)) → Type 0
HasNoBridge xs none = Unit {0}
HasNoBridge xs (some cs) =
    (id : String)
    → IsAlone id cs
    → All (λ x. x.from_id ≡ id ⊎ x.to_id ≡ id → x.from_id ≡ x.to_id) xs

-- If the component has one id, each edge at it stays within one component.
abbrev pub StaysInside : List (List String) → List GraphEdge → List String → Type 0
StaysInside cs xs c =
    (id : String)
    → c ≡ id ∷ []
    → All (λ x. x.from_id ≡ id ⊎ x.to_id ≡ id → component_of cs x.from_id ≡ component_of cs x.to_id)
        xs

All-at :
    {A : Type 0} (P : A → Type 0) (x : A) (xs : List A) → All P xs → Exists (λ y. y ≡ x) xs → P x
All-at P x [] h e = elim e [ ]
All-at P x (y ∷ ys) (h, hs) (inl s) = subst P s h
All-at P x (y ∷ ys) (h, hs) (inr e) = All-at P x ys hs e

All-of :
    {A : Type 0} (P : A → Type 0) (xs : List A)
    → ((x : A) → Exists (λ y. y ≡ x) xs → P x)
    → All P xs
All-of P [] f = tt
All-of P (x ∷ xs) f = (f x (inl refl), All-of P xs (λ y e. f y (inr e)))

module _ (xs : List GraphEdge) (cs : List (List String)) (parts : IsPartition xs (some cs)) where
  loops :
      (id : String)
      → IsAlone id cs
      → (x : GraphEdge)
      → (x.from_id ≡ id ⊎ x.to_id ≡ id → component_of cs x.from_id ≡ component_of cs x.to_id)
      → (any (holds x.from_id) cs ≡ true) × (any (holds x.to_id) cs ≡ true)
      → x.from_id ≡ id ⊎ x.to_id ≡ id
      → x.from_id ≡ x.to_id
  loops id one x h (from, to) (inl s) =
      let k : component_of cs x.to_id ≡ component_of cs id =
        sym (h (inl s)) ∙ ap (component_of cs) s in
      s ∙ sym (component_of-alone cs id x.to_id parts.0 one to k)
  loops id one x h (from, to) (inr s) =
      let k : component_of cs x.from_id ≡ component_of cs id = h (inr s) ∙ ap (component_of cs) s in
      component_of-alone cs id x.from_id parts.0 one from k ∙ sym s

  pub StaysInside-iff : All (StaysInside cs xs) cs ↔ HasNoBridge xs (some cs)
  StaysInside-iff = (
    λ h id one.
        All-mono_both (loops id one) xs (All-at (StaysInside cs xs) (id ∷ []) cs h one id refl)
          parts.1,
    λ h. All-of (StaysInside cs xs) cs λ c e id s.
        All-mono (λ x k o. ap (component_of cs) (k o)) xs (h id (Exists-mono (λ d t. t ∙ s) cs e)),
  )
