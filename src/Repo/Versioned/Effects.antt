-- ===== src/Repo/Versioned/Effects.antt =====
-- What follows from one appended row: later reads, other keys, earlier versions.
use contrato_core.Base.{ℕ, ◌≤◌, ◌≡◌, ◌≢◌, refl, some, ◌∷◌, Eq, subst, sym, ap, ◌∙◌}
use contrato_core.Table.History.{
  last_version, latest, IsHistory, row_at, latest-cons_next, latest-cons_ne, row_at-cons_next,
}
use contrato_core.Storage.{Result, ok, err}
use contrato_core.Storage.Server.{Db, World}
use contrato_core.Repo.Versioned.{Versioned, IsLawful}
use contrato_core.Repo.Versioned.Appends.{Appended}

module _ {R K : Type 0} ⦃e : Eq K⦄ (t : Versioned R K) (l : IsLawful t) where
  -- The versions of each key stay 1, 2, …
  pub Appended-IsHistory :
      (d : Db) (o : Result R × World)
      → IsHistory t.key t.version (t.rows d)
      → Appended t d o
      → IsHistory t.key t.version (t.rows o.1.db)
  Appended-IsHistory d (ok r, w) h (s, next, _) =
      subst (IsHistory t.key t.version) (sym (ap t.rows s ∙ l.rows-put _ d)) (next, h)
  Appended-IsHistory d (err x, w) h s = subst (λ f. IsHistory t.key t.version (t.rows f)) (sym s) h

  rows-Appended : (d : Db) (r : R) (w : World) → Appended t d (ok r, w) → t.rows w.db ≡ r ∷ t.rows d
  rows-Appended d r w (s, _, _) = ap t.rows s ∙ l.rows-put _ d

  -- The row is what a read of the latest version of its key finds.
  pub latest-Appended :
      (d : Db) (r : R) (w : World)
      → Appended t d (ok r, w)
      → latest t.key t.version (t.key r) (t.rows w.db) ≡ some r
  latest-Appended d r w a =
      rw (rows-Appended d r w a) (latest-cons_next t.key t.version (t.key r) r (t.rows d) refl a.1)

  -- The latest rows of other keys stay.
  pub latest-Appended_ne :
      (d : Db) (r : R) (w : World) (k : K)
      → Appended t d (ok r, w)
      → t.key r ≢ k
      → latest t.key t.version k (t.rows w.db) ≡ latest t.key t.version k (t.rows d)
  latest-Appended_ne d r w k a h =
      rw (rows-Appended d r w a) (latest-cons_ne t.key t.version k r (t.rows d) h)

  -- Every version that there was is found as before.
  pub row_at-Appended :
      (d : Db) (r : R) (w : World) (k : K) (v : ℕ)
      → Appended t d (ok r, w)
      → v ≤ last_version t.key t.version k (t.rows d)
      → row_at t.key t.version k v (t.rows w.db) ≡ row_at t.key t.version k v (t.rows d)
  row_at-Appended d r w k v a h =
      rw (rows-Appended d r w a) (row_at-cons_next t.key t.version k v r (t.rows d) a.1 h)
