-- ===== src/Frontier/Holes/Components.antt =====
-- The index of a component, where the components are apart from each other.
use contrato_core.Base.{
  ℕ, suc, ◌≤◌, ◌≡◌, refl, String, Bool, true, false, List, [], ◌∷◌, any, Exists, arith, eq_iff,
  ◌==◌, string_eq, nat_eq, Bool-cases, inl, inr, if◌then◌else◌,
}
use contrato_core.Frontier.Holes.{component_from, component_of}

abbrev pub holds : String → List String → Bool
holds id c = any (λ v. v == id) c

-- No id is in two components.
abbrev pub AreApart : List (List String) → Type 0
AreApart [] = Unit {0}
AreApart (c ∷ cs) = ((id : String) → holds id c ≡ true → any (holds id) cs ≡ false) × AreApart cs

absent :
    (index found : ℕ) (cs : List (List String)) (id : String)
    → any (holds id) cs ≡ false
    → component_from index found cs id ≡ found
absent index found [] id h = refl
absent index found (c ∷ cs) id h = elim (Bool-cases (holds id c)) [
  | inl b ↦ absurd (ground arith)
  | inr b ↦ rw b (absent (suc index) found cs id (ground arith))
]

bound :
    (index found : ℕ) (cs : List (List String)) (id : String)
    → any (holds id) cs ≡ true
    → index ≤ component_from index found cs id
bound index found [] id h = absurd (ground arith)
bound index found (c ∷ cs) id h = elim (Bool-cases (any (holds id) cs)) [
  | inl b ↦ omega (arith, bound (suc index) (if holds id c then index else found) cs id b)
  | inr b ↦
      let c_holds : holds id c ≡ true = ground arith in
      rw (absent (suc index) (if holds id c then index else found) cs id b, c_holds) (omega arith)
]

-- The component `u ∷ []` is in the list.
abbrev pub IsAlone : String → List (List String) → Type 0
IsAlone u cs = Exists (λ c. c ≡ u ∷ []) cs

alone-holds : (u : String) (cs : List (List String)) → IsAlone u cs → any (holds u) cs ≡ true
alone-holds u [] h = elim h [ ]
alone-holds u (c ∷ cs) (inl s) = rw s (ground (arith, eq_iff u u))
alone-holds u (c ∷ cs) (inr h) = ground (arith, alone-holds u cs h)

-- An id that has the index of a component of one id is that id.
same_component :
    (index f f' : ℕ) (cs : List (List String)) (u v : String)
    → AreApart cs
    → IsAlone u cs
    → any (holds v) cs ≡ true
    → component_from index f cs v ≡ component_from index f' cs u
    → v ≡ u
same_component index f f' [] u v apart one there s = elim one [ ]
same_component index f f' (c ∷ cs) u v (apart, rest) (inl e) there s =
    elim (Bool-cases (holds v c)) [
      | inl b ↦ (eq_iff v u).0 (ground (arith, eq_iff u v, eq_iff v u))
      | inr b ↦
          let u_here : holds u c ≡ true = rw e (ground (arith, eq_iff u u)) in
          let v_later = bound (suc index) f cs v (ground arith) in
          let u_first = absent (suc index) index cs u (apart u u_here) in absurd (ground arith)
    ]
same_component index f f' (c ∷ cs) u v (apart, rest) (inr one) there s =
    elim (Bool-cases (holds v c)) [
      | inl b ↦
          let v_first = absent (suc index) index cs v (apart v b) in
          let u_later =
            bound (suc index) (if holds u c then index else f') cs u (alone-holds u cs one) in
          absurd (ground arith)
      | inr b ↦
          same_component (suc index) f (if holds u c then index else f') cs u v rest one
            (ground arith) (ground arith)
    ]

-- An id in a component of the index that a component of one id has is that id.
pub component_of-alone :
    (cs : List (List String)) (u v : String)
    → AreApart cs
    → IsAlone u cs
    → any (holds v) cs ≡ true
    → component_of cs v ≡ component_of cs u
    → v ≡ u
component_of-alone cs u v = same_component 0 0 0 cs u v
