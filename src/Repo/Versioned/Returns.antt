-- ===== src/Repo/Versioned/Returns.antt =====
-- A condition that holds of whatever an action returns when it succeeds, with a rule for each way
-- to build a write.
use contrato_core.Base.{
  ◌≡◌, refl, subst, String, Bool, true, false, Option, none, some, Eq, if◌then◌else◌,
}
use contrato_core.Storage.{Err, Result, ok, err}
use contrato_core.Storage.Server.{Db, World}
use contrato_core.Storage.Statements.{OnSuccess}
use contrato_core.Storage.Exec.{Exec, pure, insert, answer, or_else, rename, continue, ◌>>=◌}
use contrato_core.Repo.Versioned.{Versioned, insert_row}

pub record Returns {A : Type 0} (P : A → Type 0) (m : Exec A) : Type 0 where
  pub at : (w : World) → OnSuccess P (m w).0

module _ {A : Type 0} (P : A → Type 0) where
  answer_returns :
      (w : World) (b : Bool) (r : A × Db) (x : Err) (refusal : Option String)
      → P r.0
      → OnSuccess P (answer w (if b then ok r else err x) refusal).0
  answer_returns w b r x (some e) h = tt
  answer_returns w true r x none h = h
  answer_returns w false r x none h = tt

module _ {A : Type 0} {P : A → Type 0} where
  pub Returns-pure : (a : A) → P a → Returns P (pure a)
  unfolding pure
  Returns-pure a h = record { at = λ w. h }

  pub Returns-if :
      (b : Bool) (m n : Exec A)
      → (b ≡ true → Returns P m)
      → (b ≡ false → Returns P n)
      → Returns P (if b then m else n)
  Returns-if true m n km kn = km refl
  Returns-if false m n km kn = kn refl

  pub Returns-insert :
      (allowed : World → Bool) (write : World → A × Db)
      → ((w : World) → P (write w).0)
      → Returns P (insert allowed write)
  unfolding insert
  Returns-insert allowed write h = record {
    at = λ w. answer_returns P w (allowed w) (write w) _ (w.server.refuses w.ran) (h w);
  }

  -- The condition, of one run.
  pub of_returned : (m : Exec A) (w w' : World) (a : A) → Returns P m → m w ≡ (ok a, w') → P a
  of_returned m w w' a k s = subst (λ (o : Result A × World). OnSuccess P o.0) s (k.at w)

module _ {R K : Type 0} ⦃e : Eq K⦄ (t : Versioned R K) {P : R → Type 0} where
  pub Returns-insert_row :
      (new : World → R) → ((w : World) → P (new w)) → Returns P (insert_row t new)
  unfolding insert_row
  Returns-insert_row new h = Returns-insert _ _ h

module _ {A B : Type 0} {P : B → Type 0} where
  pub Returns-bind :
      (m : Exec A) (f : A → Exec B) → ((a : A) → Returns P (f a)) → Returns P (m >>= f)
  unfolding ◌>>=◌
  Returns-bind m f k = record { at = λ w. go (m w) }
    where
      go : (o : Result A × World) → OnSuccess P (continue o f).0
      go (ok a, w) = (k a).at w
      go (err x, w) = tt

  -- The same, where the rest of the block may use what the first part returned.
  pub Returns-bind_on :
      {Q : A → Type 0} (m : Exec A) (f : A → Exec B)
      → Returns Q m
      → ((a : A) → Q a → Returns P (f a))
      → Returns P (m >>= f)
  unfolding ◌>>=◌
  Returns-bind_on {Q} m f q k = record { at = λ w. go (m w) (q.at w) }
    where
      go : (o : Result A × World) → OnSuccess Q o.0 → OnSuccess P (continue o f).0
      go (ok a, w) h = (k a h).at w
      go (err x, w) h = tt

  pub Returns-or_else :
      (m : Exec A) (x : Err) (f : A → Exec B)
      → ((a : A) → Returns P (f a))
      → Returns P (or_else m x f)
  unfolding or_else
  Returns-or_else m x f k = record { at = λ w. go (m w) }
    where
      go : (o : Result A × World) → OnSuccess P (rename x o f).0
      go (ok a, w) = (k a).at w
      go (err _, w) = tt
