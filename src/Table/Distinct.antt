-- ===== src/Table/Distinct.antt =====
-- `SELECT DISTINCT ON (key) … ORDER BY key, version DESC`: the newest row of each key.
use contrato_core.Base.{
  ℕ, ◌≡◌, Bool-cases, Option-cases, inl, inr, refl, Bool, none, some, List, [], ◌∷◌, arith,
  if◌then◌else◌, Eq, ◌==◌, find, suc, ◌≤◌, length, length-select-le, not, ltb, All, All-select,
}
use contrato_core.Table.{newest, better}
use contrato_core.Table.History.{has_key, latest, without}

module _ {R K : Type 0} ⦃e : Eq K⦄ (key : R → K) (version : R → ℕ) (before : K → K → Bool) where
  -- Where a row goes among rows that are ordered by their keys.
  insert : R → List R → List R
  insert r [] = r ∷ []
  insert r (x ∷ xs) = if before (key r) (key x) then r ∷ x ∷ xs else x ∷ insert r xs

  -- Replaces the row of the same key, if there is one, by the newer of the two.
  place : R → List R → List R
  place r xs =
      insert (better version r (find (has_key key (key r)) xs)) (without key version (key r) xs)

  unfoldable pub distinct_on : List R → List R
  unfolding insert place
  distinct_on [] = []
  distinct_on (r ∷ rs) = place r (distinct_on rs)

  find-insert :
      (k : K) (r : R) (xs : List R)
      → find (has_key key (key r)) xs ≡ none
      → find (has_key key k) (insert r xs)
        ≡ (if key r == k then some r else find (has_key key k) xs)
  unfolding insert
  find-insert k r [] h = ground arith
  find-insert k r (x ∷ xs) h = elim (Bool-cases (before (key r) (key x))) [
    | inl b ↦ rw (b, insert) refl
    | inr b ↦
        rw (b, insert)
          (ground (
            arith,
            e.test_iff (key r) k,
            e.test_iff (key x) (key r),
            e.test_iff (key x) k,
            find-insert k r xs,
          ))
  ]

  find-without :
      (k j : K) (xs : List R)
      → find (has_key key k) (without key version j xs)
        ≡ (if j == k then none else find (has_key key k) xs)
  find-without k j [] = ground arith
  find-without k j (x ∷ xs) = elim (Bool-cases (key x == j)) [
    | inl b ↦ rw b (
        ground
          (arith, e.test_iff j k, e.test_iff (key x) j, e.test_iff (key x) k, find-without k j xs))
    | inr b ↦ rw b (
        ground
          (arith, e.test_iff j k, e.test_iff (key x) j, e.test_iff (key x) k, find-without k j xs))
  ]

  key-find : (k : K) (xs : List R) (r : R) → find (has_key key k) xs ≡ some r → key r ≡ k
  key-find k [] r h = cc
  key-find k (x ∷ xs) r h = ground (arith, e.test_iff (key x) k, key-find k xs r)

  key-better :
      (r : R) (xs : List R) → key (better version r (find (has_key key (key r)) xs)) ≡ key r
  key-better r xs = elim (Option-cases (find (has_key key (key r)) xs)) [
    | inl n ↦ rw n refl
    | inr (b, s) ↦ rw s (ground (arith, key-find (key r) xs b s))
  ]

  find-place :
      (k : K) (r : R) (xs : List R)
      → find (has_key key k) (place r xs) ≡ (
          if key r == k
          then some (better version r (find (has_key key k) xs))
          else find (has_key key k) xs)
  unfolding place
  find-place k r xs =
      rw
        (find-insert k (better version r (find (has_key key (key r)) xs))
          (without key version (key r) xs)
          (rw (key-better r xs)
            (rw (find-without (key r) (key r) xs) (ground (arith, e.test_iff (key r) (key r))))))
        (rw (key-better r xs) (rw (find-without k (key r) xs) (split (key r) refl)))
    where
      split :
          (j : K)
          → key r ≡ j
          → (if j == k
              then some (better version r (find (has_key key j) xs))
              else (if j == k then none else find (has_key key k) xs))
            ≡ (if j == k
                then some (better version r (find (has_key key k) xs))
                else find (has_key key k) xs)
      split j s = elim (Bool-cases (j == k)) [
        | inl b ↦ rw b (rw ((e.test_iff j k).0 b) refl)
        | inr b ↦ rw b refl
      ]

  -- The query returns for each key the row that `ORDER BY version DESC LIMIT 1` does.
  pub find-distinct_on :
      (k : K) (rs : List R) → find (has_key key k) (distinct_on rs) ≡ latest key version k rs
  unfolding distinct_on newest
  find-distinct_on k [] = refl
  find-distinct_on k (r ∷ rs) =
      rw (find-place k r (distinct_on rs)) (rw (find-distinct_on k rs) refl)

  length-insert : (r : R) (xs : List R) → length (insert r xs) ≡ suc (length xs)
  unfolding insert
  length-insert r [] = refl
  length-insert r (x ∷ xs) = ground (arith, length-insert r xs)

  pub length-distinct_on-le : (rs : List R) → length (distinct_on rs) ≤ length rs
  unfolding distinct_on
  length-distinct_on-le [] = omega arith
  length-distinct_on-le (r ∷ rs) = omega (
    arith,
    length-insert (better version r (find (has_key key (key r)) (distinct_on rs)))
        (without key version (key r) (distinct_on rs)),
    length-select-le (λ x. not (key x == key r)) (distinct_on rs),
    length-distinct_on-le rs,
  )

  -- No two rows have the same key.
  abbrev pub AreApart : List R → Type 0
  AreApart [] = Unit {0}
  AreApart (r ∷ rs) = (find (has_key key (key r)) rs ≡ none) × AreApart rs

  insert-AreApart :
      (r : R) (xs : List R)
      → find (has_key key (key r)) xs ≡ none
      → AreApart xs
      → AreApart (insert r xs)
  unfolding insert
  insert-AreApart r [] free apart = (refl, tt)
  insert-AreApart r (x ∷ xs) free (first, apart) = elim (Bool-cases (before (key r) (key x))) [
    | inl b ↦ rw b (free, (first, apart))
    | inr b ↦ rw b (
      rw (find-insert (key x) r xs (ground arith))
          (ground (arith, e.test_iff (key x) (key r), e.test_iff (key r) (key x))),
      insert-AreApart r xs (ground arith) apart,
    )
  ]

  without-AreApart : (k : K) (xs : List R) → AreApart xs → AreApart (without key version k xs)
  without-AreApart k [] apart = tt
  without-AreApart k (x ∷ xs) (first, apart) = elim (Bool-cases (key x == k)) [
    | inl b ↦ rw b (without-AreApart k xs apart)
    | inr b ↦
        rw b (rw (find-without (key x) k xs, first) (ground arith), without-AreApart k xs apart)
  ]

  pub distinct_on-AreApart : (rs : List R) → AreApart (distinct_on rs)
  unfolding distinct_on place
  distinct_on-AreApart [] = tt
  distinct_on-AreApart (r ∷ rs) =
      insert-AreApart (better version r (find (has_key key (key r)) (distinct_on rs)))
        (without key version (key r) (distinct_on rs))
        (rw (key-better r (distinct_on rs), find-without (key r) (key r) (distinct_on rs))
          (ground (arith, e.test_iff (key r) (key r))))
        (without-AreApart (key r) (distinct_on rs) (distinct_on-AreApart rs))

  insert-All : (P : R → Type 0) (r : R) (xs : List R) → P r → All P xs → All P (insert r xs)
  unfolding insert
  insert-All P r [] p h = (p, tt)
  insert-All P r (x ∷ xs) p (q, h) = elim (Bool-cases (before (key r) (key x))) [
    | inl b ↦ rw b (p, (q, h))
    | inr b ↦ rw b (q, insert-All P r xs p h)
  ]

  better-All :
      (P : R → Type 0) (p : R → Bool) (r : R) (xs : List R)
      → P r
      → All P xs
      → P (better version r (find p xs))
  better-All P p r [] q h = q
  better-All P p r (x ∷ xs) q (q', h) = elim (Bool-cases (p x)) [
    | inl b ↦
        rw b (elim (Bool-cases (ltb (version x) (version r))) [ inl c ↦ rw c q | inr c ↦ rw c q' ])
    | inr b ↦ rw b (better-All P p r xs q h)
  ]

  -- What holds of all rows holds of those that are chosen.
  pub distinct_on-All : (P : R → Type 0) (rs : List R) → All P rs → All P (distinct_on rs)
  unfolding distinct_on place
  distinct_on-All P [] h = tt
  distinct_on-All P (r ∷ rs) (p, h) =
      insert-All P _ _
        (better-All P (has_key key (key r)) r (distinct_on rs) p (distinct_on-All P rs h))
        (All-select P (λ x. not (key x == key r)) (distinct_on rs) (distinct_on-All P rs h))
