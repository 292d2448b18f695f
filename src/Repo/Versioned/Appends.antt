-- ===== src/Repo/Versioned/Appends.antt =====
-- A write adds one row, with the version after the last of its key, or changes nothing.
use contrato_core.Base.{
  ◌+◌, ◌≡◌, refl, sym, subst, ◌∙◌, Bool, true, false, Option, none, some, ◌∷◌, ℤ, arith,
  if◌then◌else◌, Eq, int_eq, any,
}
use contrato_core.Table.History.{last_version, IsHistory, has_version, last_version_of_free}
use contrato_core.Storage.{Err, Result, ok, err}
use contrato_core.Storage.Server.{Db, World}
use contrato_core.Storage.Exec.{
  Exec, pure, fail, query, query_row, gets, insert, reject_if, or_else, ◌>>=◌, continue, rename,
}
use contrato_core.Repo.Versioned.{Versioned, check_expected, insert_row, is_taken}

-- `m` only reads.
pub record Reads {A : Type 0} (m : Exec A) : Type 0 where
  pub at : (w : World) → (m w).1.db ≡ w.db

module _ {A : Type 0} where
  pub Reads-pure : (a : A) → Reads (pure a)
  unfolding pure
  Reads-pure a = record { at = λ w. refl }

  pub Reads-fail : (x : Err) → Reads (fail {A = A} x)
  unfolding fail
  Reads-fail x = record { at = λ w. refl }

  pub Reads-query : (read : World → A) → Reads (query read)
  unfolding query
  Reads-query read = record { at = λ w. ground arith }

  pub Reads-query_row : (read : World → Option A) → Reads (query_row read)
  unfolding query_row
  Reads-query_row read = record { at = λ w. ground arith }

  pub Reads-gets : (f : World → A) → Reads (gets f)
  unfolding gets
  Reads-gets f = record { at = λ w. refl }

  pub Reads-if : (b : Bool) (m n : Exec A) → Reads m → Reads n → Reads (if b then m else n)
  Reads-if true m n rm rn = rm
  Reads-if false m n rm rn = rn

pub Reads-reject_if : (b : Bool) (x : Err) → Reads (reject_if b x)
unfolding reject_if
Reads-reject_if true x = Reads-fail x
Reads-reject_if false x = Reads-pure tt

module _ {A B : Type 0} where
  pub Reads-bind :
      (m : Exec A) (f : A → Exec B) → Reads m → ((a : A) → Reads (f a)) → Reads (m >>= f)
  unfolding ◌>>=◌
  Reads-bind m f rm rf = record { at = λ w. go (m w) w (rm.at w) }
    where
      go : (r : Result A × World) (w : World) → r.1.db ≡ w.db → (continue r f).1.db ≡ w.db
      go (ok a, w') w s = (rf a).at w' ∙ s
      go (err x, w') w s = s

  pub Reads-or_else :
      (m : Exec A) (x : Err) (f : A → Exec B)
      → Reads m
      → ((a : A) → Reads (f a))
      → Reads (or_else m x f)
  unfolding or_else
  Reads-or_else m x f rm rf = record { at = λ w. go (m w) w (rm.at w) }
    where
      go : (r : Result A × World) (w : World) → r.1.db ≡ w.db → (rename x r f).1.db ≡ w.db
      go (ok a, w') w s = (rf a).at w' ∙ s
      go (err _, w') w s = s

module _ {R K : Type 0} ⦃e : Eq K⦄ (t : Versioned R K) where
  -- What a write leaves of the database `d`.
  abbrev pub Appended : Db → Result R × World → Type 0
  Appended d (ok r, w) =
      (w.db ≡ t.put (r ∷ t.rows d) d)
      × (t.version r ≡ last_version t.key t.version (t.key r) (t.rows d) + 1)
      × (t.admits d r ≡ true)
  Appended d (err x, w) = w.db ≡ d

  pub record Appends (m : Exec R) : Type 0 where
    pub at : (w : World) → IsHistory t.key t.version (t.rows w.db) → Appended w.db (m w)

  pub Appends-fail : (x : Err) → Appends (fail x)
  unfolding fail
  Appends-fail x = record { at = λ w h. refl }

  pub Appends-if : (b : Bool) (m n : Exec R) → Appends m → Appends n → Appends (if b then m else n)
  Appends-if true m n km kn = km
  Appends-if false m n km kn = kn

  pub Appends-bind :
      {A : Type 0} (m : Exec A) (f : A → Exec R)
      → Reads m
      → ((a : A) → Appends (f a))
      → Appends (m >>= f)
  unfolding ◌>>=◌
  Appends-bind {A} m f rm kf = record { at = λ w h. go (m w) w (rm.at w) h }
    where
      go :
          (r : Result A × World) (w : World)
          → r.1.db ≡ w.db
          → IsHistory t.key t.version (t.rows w.db)
          → Appended w.db (continue r f)
      go (ok a, w') w s h =
          subst (λ d. Appended d (f a w')) s
            ((kf a).at w' (subst (λ d. IsHistory t.key t.version (t.rows d)) (sym s) h))
      go (err x, w') w s h = s

  pub Appends-or_else :
      {A : Type 0} (m : Exec A) (x : Err) (f : A → Exec R)
      → Reads m
      → ((a : A) → Appends (f a))
      → Appends (or_else m x f)
  unfolding or_else
  Appends-or_else {A} m x f rm kf = record { at = λ w h. go (m w) w (rm.at w) h }
    where
      go :
          (r : Result A × World) (w : World)
          → r.1.db ≡ w.db
          → IsHistory t.key t.version (t.rows w.db)
          → Appended w.db (rename x r f)
      go (ok a, w') w s h =
          subst (λ d. Appended d (f a w')) s
            ((kf a).at w' (subst (λ d. IsHistory t.key t.version (t.rows d)) (sym s) h))
      go (err _, w') w s h = s

  pub Reads-check_expected : (o : Option ℤ) (k : K) → Reads (check_expected t o k)
  unfolding check_expected
  Reads-check_expected none k = Reads-pure tt
  Reads-check_expected (some v) k = Reads-bind _ _ (Reads-query _) (λ n. Reads-reject_if _ _)

  -- A row that is given the next version by the statement that inserts it.
  pub Appends-insert_next :
      (new : World → R)
      → ((w : World)
          → t.version (new w) ≡ last_version t.key t.version (t.key (new w)) (t.rows w.db) + 1)
      → Appends (insert_row t new)
  unfolding insert_row insert
  Appends-insert_next new next = record { at = λ w h. ground (arith, next w) }

  is_taken-first :
      (d : Db) (r : R)
      → IsHistory t.key t.version (t.rows d)
      → t.version r ≡ 1
      → is_taken t d r ≡ false
      → last_version t.key t.version (t.key r) (t.rows d) ≡ 0
  is_taken-first d r h one free =
      last_version_of_free t.key t.version (t.key r) (t.rows d) h
        (subst (λ v. any (has_version t.key t.version (t.key r) v) (t.rows d) ≡ false) one free)

  -- A row of version 1, under a generated key that the primary key has found unused.
  pub Appends-insert_first :
      (new : World → R)
      → ((w : World) → t.version (new w) ≡ 1)
      → ((w : World) → t.admits w.db (new w) ≡ true → is_taken t w.db (new w) ≡ false)
      → Appends (insert_row t new)
  unfolding insert_row insert
  Appends-insert_first new one unused = record {
    at = λ w h. ground (arith, one w, unused w, is_taken-first w.db (new w) h (one w));
  }

pub ruleset write_rules = (
  Reads-pure, Reads-fail, Reads-query, Reads-query_row, Reads-gets, Reads-if, Reads-reject_if,
  Reads-bind, Reads-or_else, Reads-check_expected, Appends-fail, Appends-if, Appends-bind,
  Appends-or_else,
)
