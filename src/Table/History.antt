-- ===== src/Table/History.antt =====
-- Append-only versioning: the rows of a key carry the versions 1, 2, … in the order of insertion.
use contrato_core.Base.{
  ℕ, ◌+◌, ◌≤◌, ◌<◌, ◌≡◌, ◌≢◌, find, refl, Bool, true, false, not, ◌&&◌, Option, none, some, List,
  [], ◌∷◌, ◌++◌, arith, if◌then◌else◌, Eq, ◌==◌, nat_eq, any, select,
}
use contrato_core.Table.{newest, max_of}

module _ {R : Type 0} (measure : R → ℕ) (p : R → Bool) where
  abbrev pub measure_or : ℕ → Option R → ℕ
  measure_or d none = d
  measure_or d (some r) = measure r

  -- MAX is the measure of the row that ORDER BY … LIMIT 1 returns.
  pub max_of-newest : (rs : List R) → max_of measure p rs ≡ measure_or 0 (newest measure p rs)
  unfolding newest max_of
  max_of-newest [] = refl
  max_of-newest (r ∷ rs) = ground (arith, max_of-newest rs)

  -- A last row that does not fit, and one that alone fits.
  pub newest-append_other :
      (rs : List R) (r : R) → p r ≡ false → newest measure p (rs ++ r ∷ []) ≡ newest measure p rs
  unfolding newest
  newest-append_other [] r h = rw h refl
  newest-append_other (x ∷ rs) r h = ground (arith, newest-append_other rs r h)

  pub newest-append_only :
      (rs : List R) (r : R)
      → newest measure p rs ≡ none
      → p r ≡ true
      → newest measure p (rs ++ r ∷ []) ≡ some r
  unfolding newest
  newest-append_only [] r h k = rw k refl
  newest-append_only (x ∷ rs) r h k = ground (arith, newest-append_only rs r)

module _ {R K : Type 0} ⦃e : Eq K⦄ (key : R → K) where
  abbrev pub has_key : K → R → Bool
  has_key k r = key r == k

module _ {R K : Type 0} ⦃e : Eq K⦄ (key : R → K) (version : R → ℕ) where
  abbrev pub latest : K → List R → Option R
  latest k = newest version (has_key key k)

  abbrev pub last_version : K → List R → ℕ
  last_version k = max_of version (has_key key k)

  abbrev pub IsHistory : List R → Type 0
  IsHistory [] = Unit {0}
  IsHistory (r ∷ rs) = (version r ≡ last_version (key r) rs + 1) × IsHistory rs

  pub latest-cons_next :
      (k : K) (r : R) (rs : List R)
      → key r ≡ k
      → version r ≡ last_version k rs + 1
      → latest k (r ∷ rs) ≡ some r
  unfolding newest
  latest-cons_next k r rs s h =
      ground (arith, (e.test_iff (key r) k).1 s, max_of-newest version (has_key key k) rs)

  pub latest-cons_ne : (k : K) (r : R) (rs : List R) → key r ≢ k → latest k (r ∷ rs) ≡ latest k rs
  unfolding newest
  latest-cons_ne k r rs h = ground (arith, (e.test_iff (key r) k).0)

  pub last_version-cons_next :
      (k : K) (r : R) (rs : List R)
      → key r ≡ k
      → version r ≡ last_version k rs + 1
      → last_version k (r ∷ rs) ≡ last_version k rs + 1
  unfolding max_of
  last_version-cons_next k r rs s h = ground (arith, (e.test_iff (key r) k).1 s)

  pub last_version-cons_ne :
      (k : K) (r : R) (rs : List R) → key r ≢ k → last_version k (r ∷ rs) ≡ last_version k rs
  unfolding max_of
  last_version-cons_ne k r rs h = ground (arith, (e.test_iff (key r) k).0)

  -- `WHERE key = k AND version = v`
  abbrev pub has_version : K → ℕ → R → Bool
  has_version k v r = key r == k && version r == v

  abbrev pub row_at : K → ℕ → List R → Option R
  row_at k v = find (has_version k v)

  -- No row of a key lies above its last version.
  pub row_at_above : (k : K) (v : ℕ) (rs : List R) → last_version k rs < v → row_at k v rs ≡ none
  unfolding max_of
  row_at_above k v [] h = refl
  row_at_above k v (r ∷ rs) h = ground (arith, row_at_above k v rs)

  pub any-row_at_above :
      (k : K) (v : ℕ) (rs : List R) → last_version k rs < v → any (has_version k v) rs ≡ false
  unfolding max_of
  any-row_at_above k v [] h = refl
  any-row_at_above k v (r ∷ rs) h = ground (arith, any-row_at_above k v rs)

  -- In a history every version from 1 to the last has a row.
  pub row_at_of_history :
      (k : K) (v : ℕ) (rs : List R)
      → IsHistory rs
      → 1 ≤ v
      → v ≤ last_version k rs
      → row_at k v rs ≢ none
  unfolding max_of
  row_at_of_history k v [] hist lo hi = absurd (omega arith)
  row_at_of_history k v (r ∷ rs) (next, hist) lo hi =
      ground (arith, e.test_iff (key r) k, row_at_of_history k v rs hist lo)

  -- A new row with the next version hides no earlier version of any key.
  pub row_at-cons_next :
      (k : K) (v : ℕ) (r : R) (rs : List R)
      → version r ≡ last_version (key r) rs + 1
      → v ≤ last_version k rs
      → row_at k v (r ∷ rs) ≡ row_at k v rs
  row_at-cons_next k v r rs next hi = ground (arith, e.test_iff (key r) k)

  -- The latest row is found under its own version, and holds its key.
  pub row_at-latest :
      (k : K) (rs : List R) (r : R)
      → IsHistory rs
      → latest k rs ≡ some r
      → row_at k (last_version k rs) rs ≡ some r
  unfolding newest max_of
  row_at-latest k [] r hist h = cc
  row_at-latest k (x ∷ rs) r (next, hist) h = ground (
    arith,
    e.test_iff (key x) k,
    row_at-latest k rs r hist,
    max_of-newest version (has_key key k) rs,
  )

  pub key-latest : (k : K) (rs : List R) (r : R) → latest k rs ≡ some r → key r ≡ k
  unfolding newest
  key-latest k [] r h = cc
  key-latest k (x ∷ rs) r h = ground (arith, e.test_iff (key x) k, key-latest k rs r)

  -- Deleting every row of a key leaves the histories of the other keys.
  abbrev pub without : K → List R → List R
  without k = select (λ r. not (key r == k))

  pub last_version-without :
      (k j : K) (rs : List R)
      → last_version j (without k rs) ≡ (if k == j then 0 else last_version j rs)
  unfolding max_of
  last_version-without k j [] = ground arith
  last_version-without k j (r ∷ rs) = ground (
    arith,
    e.test_iff k j,
    e.test_iff (key r) k,
    e.test_iff (key r) j,
    last_version-without k j rs,
  )

  pub without-IsHistory : (k : K) (rs : List R) → IsHistory rs → IsHistory (without k rs)
  without-IsHistory k [] h = tt
  without-IsHistory k (r ∷ rs) (next, hist) = ground (
    arith,
    e.test_iff k (key r),
    e.test_iff (key r) k,
    without-IsHistory k rs hist,
    last_version-without k (key r) rs,
  )

  -- A key whose version 1 is free has no row at all.
  pub last_version_of_free :
      (k : K) (rs : List R)
      → IsHistory rs
      → any (has_version k 1) rs ≡ false
      → last_version k rs ≡ 0
  unfolding max_of
  last_version_of_free k [] h free = refl
  last_version_of_free k (r ∷ rs) (next, hist) free =
      ground (arith, e.test_iff (key r) k, last_version_of_free k rs hist)
