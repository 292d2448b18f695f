-- ===== src/Waypoint/Clear.antt =====
-- When the analysis finds no gap.
use contrato_core.Base.{
  ℕ, zero, suc, ◌+◌, ◌≤◌, subst, ◌≡◌, ◌↔◌, refl, String, Bool, true, false, Option, none, some,
  List, select, length, ◌&&◌, ◌≢◌, [], ◌∷◌, each, each-eq-nil, append-eq-nil, All, All-mono, arith,
  eq_iff, ◌==◌, string_eq, if◌then◌else◌, Bool-cases, inl, inr,
}
use contrato_core.Json.{Json, boolean}
use contrato_core.Storage.{Node, Edge, Property, ModelVersion, ok}
use contrato_core.Storage.Server.{World}
use contrato_core.Storage.Exec.{tick, pure, ◌>>=◌}
use contrato_core.Storage.Statements.{query_ok}
use contrato_core.Snapshot.{model_nodes, model_edges}
use contrato_core.Waypoint.{
  Gap, count_providers, is_unavailable, gaps_of, node_properties, detect_gaps, count_gap,
  says_false, arrived,
}

module _ (unmarshal : String → Option Json) where
  -- A capability has two edges of type `provides` that lead to it, and no property of it with the key
  -- `availability` has the JSON value `false`.
  abbrev pub IsSound : List Edge → List Property → Node → Type 0
  IsSound xs ps n =
      n.type ≡ "capability"
      → (2 ≤ length (select (λ x. x.type == "provides" && x.to_id == n.id) xs))
        × All
            (λ p.
              p.owner_id ≡ n.id
              → p.key ≡ "availability"
              → unmarshal p.value_json ≢ some (boolean false))
            ps

  says_false_iff : (o : Option Json) → (says_false o ≡ false) ↔ (o ≢ some (boolean false))
  says_false_iff none = (λ _ e. absurd (ground arith), λ _. refl)
  says_false_iff (some (boolean false)) = (λ h e. absurd (ground arith), λ h. absurd (h refl))
  says_false_iff (some (boolean true)) = (λ _ e. absurd (ground arith), λ _. refl)
  says_false_iff (some j) = (λ _ e. absurd (ground arith), λ _. refl)

  unmarked_iff :
      (id : String) (ps : List Property)
      → (is_unavailable unmarshal ps id ≡ false)
        ↔ All
            (λ p.
              p.owner_id ≡ id
              → p.key ≡ "availability"
              → unmarshal p.value_json ≢ some (boolean false))
            ps
  unfolding is_unavailable
  unmarked_iff id [] = (λ _. tt, λ _. refl)
  unmarked_iff id (p ∷ ps) =
      let (forth, back) = unmarked_iff id ps in
      let (f, g) = says_false_iff (unmarshal p.value_json) in
      (
        λ s. (
          λ o k. f (ground (arith, eq_iff p.key "availability", eq_iff p.owner_id id)),
          forth (ground arith),
        ),
        λ (h, hs). elim (Bool-cases (p.key == "availability")) [
          | inr b ↦ rw b (back hs)
          | inl b ↦ elim (Bool-cases (p.owner_id == id)) [
            | inr c ↦ rw (b, c) (back hs)
            | inl c ↦
                rw (b, c, g (h ((eq_iff p.owner_id id).0 c) ((eq_iff p.key "availability").0 b)))
                  (back hs)
          ]
        ],
      )

  count_iff : (n : Node) (k : ℕ) → (count_gap n k ≡ []) ↔ (2 ≤ k)
  count_iff n zero = (λ h. absurd (ground arith), λ h. absurd (omega arith))
  count_iff n (suc zero) = (λ h. absurd (ground arith), λ h. absurd (omega arith))
  count_iff n (suc (suc k)) = (λ _. omega arith, λ _. refl)

  marked_iff : {A : Type 0} (b : Bool) (x : A) → ((if b then x ∷ [] else []) ≡ []) ↔ (b ≡ false)
  marked_iff true x = (λ h. absurd (ground arith), λ h. absurd (ground arith))
  marked_iff false x = (λ _. refl, λ _. refl)

  gaps_of-IsSound :
      (xs : List Edge) (ps : List Property) (n : Node)
      → (gaps_of unmarshal xs ps n ≡ []) ↔ IsSound xs ps n
  unfolding gaps_of count_providers
  gaps_of-IsSound xs ps n = elim (Bool-cases (n.type == "capability")) [
    | inl b ↦
        let (split, join) = append-eq-nil (count_gap n (count_providers xs n.id)) _ in
        let (c, c') = count_iff n (count_providers xs n.id) in
        let (m, m') = marked_iff (is_unavailable unmarshal ps n.id) _ in
        let (u, u') = unmarked_iff n.id ps in
        rw b (
          λ h _. (c (split h).0, u (m (split h).1)),
          λ h. join (
            c' (h ((eq_iff n.type "capability").0 b)).0,
            m' (u' (h ((eq_iff n.type "capability").0 b)).1),
          ),
        )
    | inr b ↦ rw b (λ _ s. absurd (ground (arith, eq_iff n.type "capability")), λ _. refl)
  ]

  -- If none of the three queries fails, and the rows of the last one do not break off, the analysis
  -- returns a list, and the list is empty exactly if every capability among the latest nodes of the
  -- model version has, among its latest edges, at least two of type `provides` that lead to it, and has,
  -- among the latest properties of nodes, none with the key `availability` and the JSON value `false`.
  pub detect_gaps-IsSound :
      (t : String) (mv : ModelVersion) (w : World)
      → ((n : ℕ) → w.server.refuses n ≡ none)
      → w.server.breaks_off (w.ran + 2) ≡ none
      → (gs : List Gap) × (detect_gaps unmarshal t mv w ≡ (ok gs, tick (tick (tick w))))
        × ((gs ≡ [])
            ↔ All (IsSound (model_edges t mv w) (node_properties t mv w)) (model_nodes t mv w))
  unfolding model_nodes model_edges node_properties
  detect_gaps-IsSound t mv w quiet whole =
      let xs = model_edges t mv w in
      let ps = node_properties t mv w in
      let ns = model_nodes t mv w in
      let last : w.server.breaks_off (suc (suc w.ran)) ≡ none =
        subst (λ n. w.server.breaks_off n ≡ none) (omega arith) whole in
      let (forth, back) = each-eq-nil (gaps_of unmarshal xs ps) ns in
      (
        each (gaps_of unmarshal xs ps) ns,
        unfold detect_gaps ◌>>=◌ pure in
            rw
              (
                query_ok (model_nodes t mv) w (quiet w.ran),
                query_ok (model_edges t mv) (tick w) (quiet _),
                query_ok (λ v. arrived (v.server.breaks_off v.ran) (node_properties t mv v))
                    (tick (tick w)) (quiet _),
                last,
              )
              refl,
        (
          λ h. All-mono (λ n. (gaps_of-IsSound xs ps n).0) ns (forth h),
          λ h. back (All-mono (λ n. (gaps_of-IsSound xs ps n).1) ns h),
        ),
      )
