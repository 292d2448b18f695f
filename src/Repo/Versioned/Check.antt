-- ===== src/Repo/Versioned/Check.antt =====
-- The check of an expected version and the insert, each as one run.
use contrato_core.Base.{
  any, List, arith, false, ◌+◌, ◌≡◌, ◌≢◌, refl, true, none, some, ◌∷◌, ℤ, pos, Eq, ◌==◌, int_eq,
  int_beq_iff, Bool-cases, inl, inr,
}
use contrato_core.Table.History.{last_version, has_version, any-row_at_above}
use contrato_core.Storage.Succeeds.{Succeeds}
use contrato_core.Storage.{ok, err, conflict}
use contrato_core.Storage.Server.{World, Db}
use contrato_core.Storage.Exec.{tick, query, statement, insert, reject_if, ◌>>=◌}
use contrato_core.Repo.Versioned.{Versioned, max_version, check_expected, insert_row}

module _ {R K : Type 0} ⦃e : Eq K⦄ (t : Versioned R K) where
  pub check_expected_ok :
      (v : ℤ) (k : K) (w : World)
      → w.server.refuses w.ran ≡ none
      → pos (max_version t k w) ≡ v
      → check_expected t (some v) k w ≡ (ok tt, tick w)
  unfolding check_expected query ◌>>=◌ reject_if
  check_expected_ok v k w quiet same =
      rw (quiet, statement) (rw ((int_beq_iff (pos (max_version t k w)) v).1 same) refl)

  pub check_expected_conflict :
      (v : ℤ) (k : K) (w : World)
      → w.server.refuses w.ran ≡ none
      → pos (max_version t k w) ≢ v
      → check_expected t (some v) k w ≡ (err conflict, tick w)
  unfolding check_expected query ◌>>=◌ reject_if
  check_expected_conflict v k w quiet other =
      rw (quiet, statement)
        (elim (Bool-cases (pos (max_version t k w) == v)) [
          | inl b ↦ absurd (other ((int_beq_iff (pos (max_version t k w)) v).0 b))
          | inr b ↦ rw b refl
        ])

  abbrev pub with_row : (World → R) → World → World
  with_row new w = record (tick w) { db = t.put (new w ∷ t.rows w.db) w.db }

  pub insert_row_ok :
      (new : World → R) (w : World)
      → w.server.refuses w.ran ≡ none
      → t.admits w.db (new w) ≡ true
      → insert_row t new w ≡ (ok (new w), with_row new w)
  unfolding insert_row insert
  insert_row_ok new w quiet fits = rw (quiet, fits, statement) refl

  -- A row with the next version of its key, which the references of the schema admit.
  pub Succeeds-insert_next :
      {P : Db → Type 0} (new : World → R)
      → ((w : World)
          → t.version (new w) ≡ last_version t.key t.version (t.key (new w)) (t.rows w.db) + 1)
      → ((w : World)
          → P w.db
          → any (has_version t.key t.version (t.key (new w)) (t.version (new w))) (t.rows w.db)
            ≡ false
          → t.admits w.db (new w) ≡ true)
      → ((d : Db) (rs : List R) → P d → P (t.put rs d))
      → Succeeds P (insert_row t new)
  Succeeds-insert_next new numbered admitted kept = record {
    at = λ w q h.
        let free =
          any-row_at_above t.key t.version (t.key (new w)) (t.version (new w)) (t.rows w.db)
            (rw (numbered w) (omega arith)) in
        (
          new w,
          with_row new w,
          insert_row_ok new w (q w.ran) (admitted w h free),
          q,
          kept w.db _ h,
        );
  }
