-- ===== src/Table.antt =====
-- The relational part of the SQL statements in internal/storage/sqlstore, over any type of rows.
-- A table is the list of its rows, the last one inserted first.
pub mod History
pub mod Distinct
use contrato_core.Base.{
  ℕ, zero, suc, ◌≡◌, Bool, true, false, Option, none, some, List, [], ◌∷◌, ltb, if◌then◌else◌,
}

module _ {R : Type 0} (measure : R → ℕ) where
  -- The better of a row that fits and the best of the rows below it.
  abbrev pub better : R → Option R → R
  better r none = r
  better r (some b) = if ltb (measure b) (measure r) then r else b

module _ {R : Type 0} (measure : R → ℕ) (p : R → Bool) where
  -- `WHERE p ORDER BY measure DESC LIMIT 1`. Between equal measures the earlier row is taken.
  unfoldable pub newest : List R → Option R
  newest [] = none
  newest (r ∷ rs) = if p r then some (better measure r (newest rs)) else newest rs

  -- `SELECT COALESCE(MAX(measure),0) … WHERE p`
  unfoldable pub max_of : List R → ℕ
  max_of [] = 0
  max_of (r ∷ rs) =
      if p r then (if ltb (max_of rs) (measure r) then measure r else max_of rs) else max_of rs
