-- ===== src/Frontier/Holes/Filled.antt =====
-- When `detectHoles` reports nothing.
use contrato_core.Base.{
  ◌≡◌, ◌↔◌, ◌⊎◌, refl, ap, sym, subst, ◌∙◌, String, Bool, true, false, ◌&&◌, ◌||◌, not, Option,
  none, some, List, [], ◌∷◌, ◌++◌, any, each, each-eq-nil, append-eq-nil, map, All, All-mono, arith,
  eq_iff, ◌==◌, nat_eq, string_eq, Bool-cases, inl, inr, if◌then◌else◌,
}
use contrato_core.Digraph.{Library}
use contrato_core.Digraph.Laws.{IsDirected}
use contrato_core.Digraph.Filled.{merged}
use contrato_core.Frontier.{GraphNode, GraphEdge, node_id, arc_of}
use contrato_core.Frontier.Built.{successors-zero, predecessors-zero}
use contrato_core.Frontier.Holes.{
  Hole, is_reached_by, is_left_by, hole_if, component_of, bridges, node_holes, component_holes,
  structural_holes, detect_holes,
}
use contrato_core.Frontier.Holes.Connected.{
  IsConnected, Passes, Passes-iff, IsPartition, HasNoBridge, StaysInside, StaysInside-iff,
}

-- A list of five conditions under which a hole is reported, the first of which hides the others.
no_hole :
    (b b1 b2 b3 b4 : Bool) (h h1 h2 h3 h4 : Hole)
    → ((if b then h ∷ [] else hole_if b1 h1 ++ hole_if b2 h2 ++ hole_if b3 h3 ++ hole_if b4 h4)
        ≡ [])
      ↔ ((b ≡ false) × (b1 ≡ false) × (b2 ≡ false) × (b3 ≡ false) × (b4 ≡ false))
no_hole b b1 b2 b3 b4 h h1 h2 h3 h4 =
    (λ s. (ground arith, ground arith, ground arith, ground arith, ground arith), λ s. ground arith)

hole_if_iff : (b : Bool) (hole : Hole) → (hole_if b hole ≡ []) ↔ (b ≡ false)
hole_if_iff true hole = (λ h. absurd (ground arith), λ h. absurd (ground arith))
hole_if_iff false hole = (λ _. refl, λ _. refl)

asks :
    (type kind : String) (b c : Bool)
    → (type == kind) ≡ c
    → (type ≡ kind → b ≡ true)
    → (c && not b) ≡ false
asks type kind b true s f = rw (f ((eq_iff type kind).0 s)) refl
asks type kind b false s f = refl

asked :
    (type kind : String) (b : Bool) → ((type == kind && not b) ≡ false) ↔ (type ≡ kind → b ≡ true)
asked type kind b = (λ s e. ground (arith, eq_iff type kind), asks type kind b (type == kind) refl)

any_either :
    {A : Type 0} (p q : A → Bool) (xs : List A) → any (λ x. p x || q x) xs ≡ (any p xs || any q xs)
any_either p q [] = refl
any_either p q (x ∷ xs) = ground (arith, any_either p q xs)

bridges_iff :
    (cs : List (List String)) (id : String) (xs : List GraphEdge)
    → (bridges cs xs id ≡ false)
      ↔ All
          (λ x. x.from_id ≡ id ⊎ x.to_id ≡ id → component_of cs x.from_id ≡ component_of cs x.to_id)
          xs
bridges_iff cs id [] = (λ _. tt, λ _. refl)
bridges_iff cs id (x ∷ xs) =
    let (forth, back) = bridges_iff cs id xs in
    (
      λ s. (λ e. ground (arith, eq_iff x.from_id id, eq_iff x.to_id id), forth (ground arith)),
      λ (h, k). rw (back k) (inside (x.from_id == id || x.to_id == id) refl h),
    )
  where
    inside :
        (b : Bool)
        → (x.from_id == id || x.to_id == id) ≡ b
        → (x.from_id ≡ id ⊎ x.to_id ≡ id → component_of cs x.from_id ≡ component_of cs x.to_id)
        → ((not (component_of cs x.from_id == component_of cs x.to_id)
              && (x.from_id == id || x.to_id == id))
            || false)
          ≡ false
    inside true s h =
        let e : component_of cs x.from_id ≡ component_of cs x.to_id =
          elim (Bool-cases (x.from_id == id)) [
            | inl b ↦ h (inl ((eq_iff x.from_id id).0 b))
            | inr b ↦ h (inr (ground (arith, eq_iff x.to_id id)))
          ] in
        ground arith
    inside false s h = ground arith

module _ {G : Type 0} (lib : Library GraphNode G) (laws : IsDirected lib node_id)
    (xs : List GraphEdge) (g : G) (built : laws.arcs g ≡ merged (map arc_of xs) []) where
  touched :
      (n : GraphNode)
      → (lib.predecessors g n.id == 0 && lib.successors g n.id == 0)
        ≡ not (any (λ x. x.from_id == n.id || x.to_id == n.id) xs)
  touched n = ground (
    arith,
    any_either (λ (x : GraphEdge). x.from_id == n.id) (λ x. x.to_id == n.id) xs,
    predecessors-zero lib laws xs g n.id built,
    successors-zero lib laws xs g n.id built,
  )

  isolated :
      (n : GraphNode)
      → (lib.predecessors g n.id == 0 && lib.successors g n.id == 0) ≡ false
      → any (λ x. x.from_id == n.id || x.to_id == n.id) xs ≡ true
  isolated n s = ground (arith, touched n)

  not_isolated :
      (n : GraphNode)
      → any (λ x. x.from_id == n.id || x.to_id == n.id) xs ≡ true
      → (lib.predecessors g n.id == 0 && lib.successors g n.id == 0) ≡ false
  not_isolated n s = touched n ∙ ap not s

  node_holes-Passes : (n : GraphNode) → (node_holes lib xs g n ≡ []) ↔ Passes xs n
  unfolding node_holes
  node_holes-Passes n =
      let (split, join) =
        no_hole (lib.predecessors g n.id == 0 && lib.successors g n.id == 0) _ _ _ _ _ _ _ _ _ in
      let outs = successors-zero lib laws xs g n.id built in
      let (c, c') = asked n.type "capability" (is_reached_by xs "provides" n.id) in
      let (d, d') = asked n.type "capability" (is_reached_by xs "governs" n.id) in
      let (p, p') = asked n.type "policy" (is_left_by xs "governs" n.id) in
      let (a, a') = asked n.type "actor" (any (λ x. x.from_id == n.id) xs) in
      (
        λ s.
            let (s0, s1, s2, s3, s4) = split s in
            (
              isolated n s0,
              c s1,
              d s2,
              p s3,
              a (subst (λ b. (n.type == "actor" && b) ≡ false) outs s4),
            ),
        λ (k0, k1, k2, k3, k4). join (
          not_isolated n k0,
          c' k1,
          d' k2,
          p' k3,
          subst (λ b. (n.type == "actor" && b) ≡ false) (sym outs) (a' k4),
        ),
      )

  component_holes-StaysInside :
      (cs : List (List String)) (c : List String)
      → (component_holes lib cs xs g c ≡ []) ↔ StaysInside cs xs c
  unfolding component_holes
  component_holes-StaysInside cs [] = (λ _ id e. absurd (ground arith), λ _. refl)
  component_holes-StaysInside cs (u ∷ v ∷ us) = (λ _ id e. absurd (ground arith), λ _. refl)
  component_holes-StaysInside cs (u ∷ []) =
      let (clear, report) = hole_if_iff (bridges cs xs u) _ in
      let (forth, back) = bridges_iff cs u xs in
      (
        λ s id e.
            subst
              (λ i.
                All
                  (λ x.
                    x.from_id ≡ i ⊎ x.to_id ≡ i
                    → component_of cs x.from_id ≡ component_of cs x.to_id)
                  xs)
              (ground arith) (forth (clear s)),
        λ h. report (back (h u refl)),
      )

  structural_iff :
      (o : Option (List (List String)))
      → IsPartition xs o
      → (structural_holes lib xs g o ≡ []) ↔ HasNoBridge xs o
  structural_iff none parts = (λ _. tt, λ _. refl)
  structural_iff (some cs) parts =
      let (forth, back) = each-eq-nil (component_holes lib cs xs g) cs in
      let (inside, outside) = StaysInside-iff xs cs parts in
      (
        λ s. inside (All-mono (λ c. (component_holes-StaysInside cs c).0) cs (forth s)),
        λ h. back (All-mono (λ c. (component_holes-StaysInside cs c).1) cs (outside h)),
      )

  -- Where the components that the library finds have no id in common and hold both ends of every
  -- edge, the graph that is built from the edges has no hole exactly if every node is an end of an
  -- edge, every capability is the target of a `provides` edge and of a `governs` edge, every policy is
  -- the source of a `governs` edge, every actor is the source of an edge, and, if the library finds
  -- the components, every edge at an id that is a component by itself is a loop.
  pub detect_holes-IsConnected :
      (ns : List GraphNode)
      → IsPartition xs (lib.components g)
      → (detect_holes lib ns xs g ≡ [])
        ↔ (All (IsConnected xs) ns × HasNoBridge xs (lib.components g))
  unfolding detect_holes
  detect_holes-IsConnected ns parts =
      let (split, join) =
        append-eq-nil (each (node_holes lib xs g) ns)
          (structural_holes lib xs g (lib.components g)) in
      let (forth, back) = each-eq-nil (node_holes lib xs g) ns in
      let (s_forth, s_back) = structural_iff (lib.components g) parts in
      (
        λ s. (
          All-mono (λ n h. (Passes-iff xs n).0 ((node_holes-Passes n).0 h)) ns (forth (split s).0),
          s_forth (split s).1,
        ),
        λ (h, k). join (
          back (All-mono (λ n h. (node_holes-Passes n).1 ((Passes-iff xs n).1 h)) ns h),
          s_back k,
        ),
      )
