-- ===== src/Repo/Versioned.antt =====
-- What the repositories of internal/storage/sqlstore share: a table of versioned rows, the check of
-- an expected version, and the two forms of `INSERT … RETURNING`.
pub mod Appends
pub mod Effects
pub mod Returns
pub mod Check
use contrato_core.Base.{
  ℕ, ◌+◌, String, Bool, Option, none, some, List, ◌∷◌, ℤ, pos, not, any, if◌then◌else◌, Eq, ◌==◌,
  int_eq, ◌≡◌, false, true,
}
use contrato_core.Table.History.{last_version, has_version, latest}
use contrato_core.Storage.{Err, conflict}
use contrato_core.Storage.Server.{Db, World}
use contrato_core.Storage.Exec.{Exec, pure, query, insert, reject_if, ◌>>=◌, ◌>>◌}

-- A table: the columns of its logical key, its rows in the database, and whether the constraints
-- of the schema let a row in.
pub record Versioned (R K : Type 0) : Type 0 where
  pub key : R → K
  pub version : R → ℕ
  pub rows : Db → List R
  pub put : List R → Db → Db
  pub admits : Db → R → Bool

pub record IsLawful {R K : Type 0} (t : Versioned R K) : Type 0 where
  pub rows-put : (rs : List R) (d : Db) → t.rows (t.put rs d) ≡ rs

module _ {R K : Type 0} ⦃e : Eq K⦄ (t : Versioned R K) where
  -- `SELECT COALESCE(MAX(version),0) FROM … WHERE key`
  abbrev pub max_version : K → World → ℕ
  max_version k w = last_version t.key t.version k (t.rows w.db)

  -- `if opts.ExpectedVersion != nil { … }`
  unfoldable pub check_expected : Option ℤ → K → Exec (Unit {0})
  check_expected none k = pure tt
  check_expected (some v) k = do
    newest ← query (max_version k)
    reject_if (not (pos newest == v)) conflict

  unfoldable pub insert_row : (World → R) → Exec R
  insert_row new =
      insert (λ w. t.admits w.db (new w)) λ w. (new w, t.put (new w ∷ t.rows w.db) w.db)

  -- `PRIMARY KEY (key, version)`
  abbrev pub is_taken : Db → R → Bool
  is_taken d r = any (has_version t.key t.version (t.key r) (t.version r)) (t.rows d)
