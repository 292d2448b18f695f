-- ===== src/Repo/Pinning.antt =====
-- The model version that a record is pinned to: `GetLatestEnabled` as the repositories use it.
pub mod Puts
use contrato_core.Base.{
  ℕ, ◌≤◌, ◌≡◌, ◌≢◌, ◌⊎◌, refl, subst, String, Bool, true, false, ◌||◌, ◌&&◌, Option, none, some,
  List, [], ◌∷◌, All, All-mono, Exists, arith, eq_iff, ◌==◌, string_eq, nat_eq, Bool-cases,
  Option-cases, inl, inr, ltb, if◌then◌else◌,
}
use contrato_core.Table.{newest, better}
use contrato_core.Storage.{Result, ok, err, Err, ModelVersion}
use contrato_core.Storage.Server.{World}
use contrato_core.Storage.Exec.{
  Exec, pure, fail, query_row, statement, answer, or_not_found, or_else, rename, reject_if,
  continue, ◌>>=◌, ◌>>◌,
}
use contrato_core.Storage.Statements.{OnSuccess}
use contrato_core.Repo.Versioned.Returns.{Returns}
use contrato_core.Repo.ModelVersions.{get_latest_enabled, pinned, is_enabled, created}

-- The row that `ORDER BY … DESC LIMIT 1` chooses is in the table, fits, and no row that fits is greater.
module _ {R : Type 0} (measure : R → ℕ) (p : R → Bool) where
  abbrev IsGreatest : List R → R → Type 0
  IsGreatest rs r =
      Exists (λ x. x ≡ r) rs × (p r ≡ true) × All (λ x. p x ≡ true → measure x ≤ measure r) rs

  nothing_fits : (rs : List R) → newest measure p rs ≡ none → All (λ x. p x ≡ false) rs
  unfolding newest
  nothing_fits [] h = tt
  nothing_fits (x ∷ rs) h = (ground arith, nothing_fits rs (ground arith))

  newest-IsGreatest : (rs : List R) (r : R) → newest measure p rs ≡ some r → IsGreatest rs r
  unfolding newest
  newest-IsGreatest [] r h = absurd (ground arith)
  newest-IsGreatest (x ∷ rs) r h = elim (Bool-cases (p x)) [
    | inr b ↦
        let (e, q, a) = newest-IsGreatest rs r (ground arith) in
        (inr e, q, ((λ s. absurd (ground arith)), a))
    | inl b ↦ elim (Option-cases (newest measure p rs)) [
      | inl n ↦
          let same : x ≡ r = ground arith in
          subst (IsGreatest (x ∷ rs)) same (
            inl refl,
            b,
            (λ _. omega arith, All-mono (λ y f s. absurd (ground arith)) rs (nothing_fits rs n)),
          )
      | inr (y, s) ↦
          let (e, q, a) = newest-IsGreatest rs y s in
          elim (Bool-cases (ltb (measure y) (measure x))) [
            | inl c ↦
                let same : x ≡ r = ground arith in
                subst (IsGreatest (x ∷ rs)) same
                  (inl refl, b, (λ _. omega arith, All-mono (λ z l f. above z y x (l f) c) rs a))
            | inr c ↦
                let same : y ≡ r = ground arith in
                subst (IsGreatest (x ∷ rs)) same (inr e, q, (λ _. ground arith, a))
          ]
    ]
  ]
    where
      above :
          (z y x : R)
          → measure z ≤ measure y
          → ltb (measure y) (measure x) ≡ true
          → measure z ≤ measure x
      above z y x l c = ground arith

-- The model version that a record of the tenant `t` gets, which names the model `m` and the version
-- `v`: the one that it names, if it names both; otherwise one that is enabled, and no enabled one of
-- the tenant was created later.
abbrev pub IsPin : World → String → String → ℕ → String × ℕ → Type 0
IsPin w t m v (m', v') =
    (m ≢ "" → v ≢ 0 → (m' ≡ m) × (v' ≡ v))
    × (m ≡ "" ⊎ v ≡ 0
        → (mv : ModelVersion) × Exists (λ r. r ≡ mv) w.db.model_versions
          × ((mv.tenant_id ≡ t) × (mv.status ≡ "enabled"))
          × All (λ r. r.tenant_id ≡ t → r.status ≡ "enabled" → r.created_at ≤ mv.created_at)
              w.db.model_versions
          × ((m' ≡ mv.model_id) × (v' ≡ mv.version)))

module _ (w : World) (t m : String) (v : ℕ) where
  named-IsPin : (m == "" || v == 0) ≡ false → IsPin w t m v (m, v)
  named-IsPin b = (
    λ _ _. (refl, refl),
    λ o. absurd (elim o [ inl s ↦ ground (arith, (eq_iff m "").1 s) | inr s ↦ ground arith ]),
  )

  latest-IsPin :
      (m == "" || v == 0) ≡ true
      → (mv : ModelVersion) → newest created (is_enabled t) w.db.model_versions ≡ some mv
      → IsPin w t m v (mv.model_id, mv.version)
  latest-IsPin b mv s =
      let (e, q, a) = newest-IsGreatest created (is_enabled t) w.db.model_versions mv s in
      (
        λ k l. absurd (elim (Bool-cases (m == "")) [
          | inl c ↦ k ((eq_iff m "").0 c)
          | inr c ↦ l (ground arith)
        ]),
        λ _. (
          mv,
          e,
          ((eq_iff mv.tenant_id t).0 (ground arith), (eq_iff mv.status "enabled").0 (ground arith)),
          All-mono
              (λ r g k l.
                g (ground (arith, (eq_iff r.tenant_id t).1 k, (eq_iff r.status "enabled").1 l)))
              w.db.model_versions a,
          (refl, refl),
        ),
      )

  pub pinned-IsPin : OnSuccess (IsPin w t m v) (pinned t m v w).0
  unfolding pinned get_latest_enabled or_else query_row statement pure
  pinned-IsPin = elim (Bool-cases (m == "" || v == 0)) [
    | inr b ↦ rw b (named-IsPin b)
    | inl b ↦ elim (Option-cases (newest created (is_enabled t) w.db.model_versions)) [
      | inl n ↦ elim (Option-cases (w.server.refuses w.ran)) [
        | inl q ↦ rw (b, n, q) tt
        | inr (x, q) ↦ rw (b, q) tt
      ]
      | inr (mv, s) ↦ elim (Option-cases (w.server.refuses w.ran)) [
        | inl q ↦ rw (b, s, q) (latest-IsPin b mv s)
        | inr (x, q) ↦ rw (b, q) tt
      ]
    ]
  ]

-- The rules for a `Put`: its checks, the pin, and what is written for it.
module _ {B : Type 0} (P : B → Type 0) (w : World) where
  pub after_check :
      (bad : Bool) (x : Err) (rest : Exec B)
      → OnSuccess P (rest w).0
      → OnSuccess P ((reject_if bad x >> rest) w).0
  unfolding reject_if ◌>>=◌ fail pure
  after_check true x rest h = tt
  after_check false x rest h = h

  pub with_pin :
      {A : Type 0} (Q : A → Type 0) (m : Exec A) (rest : A → Exec B)
      → OnSuccess Q (m w).0
      → ((a : A) → Q a → Returns P (rest a))
      → OnSuccess P ((m >>= rest) w).0
  unfolding ◌>>=◌
  with_pin {A} Q m rest h k = go (m w) h
    where
      go : (o : Result A × World) → OnSuccess Q o.0 → OnSuccess P (continue o rest).0
      go (ok a, v) q = (k a q).at v
      go (err x, v) q = tt
