-- ===== src/Digraph/Filled.antt =====
-- The graph that the loops fill.
use contrato_core.Base.{
  ◌≡◌, refl, subst, ap, ◌∙◌, String, Bool, true, false, ◌&&◌, ◌||◌, not, List, [], ◌∷◌, any, ◌==◌,
  string_eq, pair_eq, Eq, eq_iff, arith, if◌then◌else◌, inl, inr, Bool-cases,
}
use contrato_core.Storage.{ok, err, Err, message}
use contrato_core.Digraph.{Library, Arc, add_vertices, add_edges, try_vertices}
use contrato_core.Digraph.Laws.{IsDirected, has_vertex, has_arc}

abbrev pub ends : Arc → String × String
ends x = (x.from_id, x.to_id)

-- An end of the edge is no vertex.
abbrev pub dangles : List String → Arc → Bool
dangles vs x = not (has_vertex vs x.from_id && has_vertex vs x.to_id)

-- The pairs that have an edge.
abbrev pub merged : List Arc → List (String × String) → List (String × String)
merged [] es = es
merged (x ∷ xs) es =
    let longer = merged xs (ends x ∷ es) in
    let same = merged xs es in if has_arc es (ends x) then same else longer

any_of_arc :
    (p : String × String → Bool) (es : List (String × String)) (a : String × String)
    → has_arc es a ≡ true
    → p a ≡ true
    → any p es ≡ true
any_of_arc p [] a h q = absurd (ground arith)
any_of_arc p (e ∷ es) a h q = elim (Bool-cases (e == a)) [
  | inl b ↦ rw ((pairs.test_iff e a).0 b, q) refl
  | inr b ↦ ground (arith, any_of_arc p es a (ground arith) q)
]
  where
    pairs : Eq (String × String)
    pairs = pair_eq

-- A test holds of some pair exactly if it holds of the ends of some edge.
pub any-merged :
    (p : String × String → Bool) (xs : List Arc) (es : List (String × String))
    → any p (merged xs es) ≡ (any (λ x. p (ends x)) xs || any p es)
any-merged p [] es = refl
any-merged p (x ∷ xs) es = elim (Bool-cases (has_arc es (ends x))) [
  | inl b ↦ rw b (any-merged p xs es ∙ ground (arith, any_of_arc p es (ends x) b))
  | inr b ↦ rw b (any-merged p xs (ends x ∷ es) ∙ ground arith)
]

-- No two vertices have the same hash.
abbrev pub AreApart : {V : Type 0} → (V → String) → List V → Type 0
AreApart hash [] = Unit {0}
AreApart hash (v ∷ vs) = (any (λ u. hash u == hash v) vs ≡ false) × AreApart hash vs

module _ {V G : Type 0} (lib : Library V G) (hash : V → String) (laws : IsDirected lib hash) where
  taken :
      (us : List String) (v u : String)
      → has_vertex us v ≡ true
      → (v == u) ≡ true
      → has_vertex us u ≡ true
  taken us v u h s = subst (λ x. has_vertex us x ≡ true) ((eq_iff v u).0 s) h

  still_free :
      (v : V) (vs : List V) (us : List String)
      → any (λ u. hash u == hash v) vs ≡ false
      → any (λ u. has_vertex us (hash u)) vs ≡ false
      → any (λ u. has_vertex (hash v ∷ us) (hash u)) vs ≡ false
  still_free v [] us apart free = refl
  still_free v (u ∷ vs) us apart free =
      ground (arith, eq_iff (hash u) (hash v), eq_iff (hash v) (hash u), still_free v vs us)

  pub add_edges-merged :
      (xs : List Arc) (g : G)
      → any (dangles (laws.vertices g)) xs ≡ false
      → (h : G) × (add_edges lib xs g ≡ ok h)
        × (laws.vertices h ≡ laws.vertices g)
        × (laws.arcs h ≡ merged xs (laws.arcs g))
  unfolding add_edges
  add_edges-merged [] g known = (g, refl, refl, refl)
  add_edges-merged (x ∷ xs) g known =
      let there : (has_vertex (laws.vertices g) x.from_id && has_vertex (laws.vertices g) x.to_id)
          ≡ true =
        ground arith in
      elim (Bool-cases (has_arc (laws.arcs g) (ends x))) [
        | inl b ↦
            rw (laws.add_edge_taken x.from_id x.to_id x.attributes g there b, b)
              (add_edges-merged xs g (ground arith))
        | inr b ↦
            let (h, s, same, grown) = laws.add_edge_free x.from_id x.to_id x.attributes g there b in
            let (h', s', same', grown') = add_edges-merged xs h (rw same (ground arith)) in
            rw (s, b) (h', s', same' ∙ same, grown' ∙ ap (merged xs) grown)
      ]

  pub add_edges-dangling :
      (xs : List Arc) (g : G)
      → any (dangles (laws.vertices g)) xs ≡ true
      → (e : Err) × (add_edges lib xs g ≡ err e)
  unfolding add_edges
  add_edges-dangling [] g bad = absurd (ground arith)
  add_edges-dangling (x ∷ xs) g bad = elim (Bool-cases (dangles (laws.vertices g) x)) [
    | inl d ↦
        let (text, s) = laws.add_edge_dangling x.from_id x.to_id x.attributes g (ground arith) in
        rw s (message text, refl)
    | inr d ↦
        let there : (has_vertex (laws.vertices g) x.from_id && has_vertex (laws.vertices g) x.to_id)
            ≡ true =
          ground arith in
        elim (Bool-cases (has_arc (laws.arcs g) (ends x))) [
          | inl b ↦
              rw (laws.add_edge_taken x.from_id x.to_id x.attributes g there b)
                (add_edges-dangling xs g (ground arith))
          | inr b ↦
              let (h, s, same, _) = laws.add_edge_free x.from_id x.to_id x.attributes g there b in
              rw s (add_edges-dangling xs h (rw same (ground arith)))
        ]
  ]

  pub add_vertices-AreApart :
      (vs : List V) (g : G)
      → AreApart hash vs
      → any (λ v. has_vertex (laws.vertices g) (hash v)) vs ≡ false
      → (h : G) × (add_vertices lib vs g ≡ ok h)
        × (laws.arcs h ≡ laws.arcs g)
        × ((u : String)
            → has_vertex (laws.vertices h) u
              ≡ (any (λ v. hash v == u) vs || has_vertex (laws.vertices g) u))
  unfolding add_vertices
  add_vertices-AreApart [] g apart free = (g, refl, refl, λ u. refl)
  add_vertices-AreApart (v ∷ vs) g (first, apart) free =
      let (h, s, grown, same) = laws.add_vertex_free v g (ground arith) in
      let (h', s', same', present) =
        add_vertices-AreApart vs h apart
          (rw grown (still_free v vs (laws.vertices g) first (ground arith))) in
      rw s (h', s', same' ∙ same, λ u. present u ∙ ground (arith, ap (λ l. has_vertex l u) grown))

  -- The loop that drops the errors: a hash that is there stays as it is.
  pub try_vertices-present :
      (vs : List V) (g : G)
      → (laws.arcs (try_vertices lib vs g) ≡ laws.arcs g)
        × ((u : String)
            → has_vertex (laws.vertices (try_vertices lib vs g)) u
              ≡ (any (λ v. hash v == u) vs || has_vertex (laws.vertices g) u))
  unfolding try_vertices
  try_vertices-present [] g = (refl, λ u. refl)
  try_vertices-present (v ∷ vs) g = elim (Bool-cases (has_vertex (laws.vertices g) (hash v))) [
    | inl b ↦
        let (text, s) = laws.add_vertex_taken v g b in
        let (same, present) = try_vertices-present vs g in
        rw s (same, λ u. present u ∙ ground (arith, taken (laws.vertices g) (hash v) u b))
    | inr b ↦
        let (h, s, grown, arcs) = laws.add_vertex_free v g b in
        let (same, present) = try_vertices-present vs h in
        rw s (same ∙ arcs, λ u. present u ∙ ground (arith, ap (λ l. has_vertex l u) grown))
  ]
