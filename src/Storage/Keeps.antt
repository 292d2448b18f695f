-- ===== src/Storage/Keeps.antt =====
-- Code that keeps a property of the database, on success and on failure, with a rule for each way to
-- build it.
use contrato_core.Storage.Statements.{bind_ok}
use contrato_core.Base.{◌≡◌, subst, String, Bool, true, false, List, [], ◌∷◌, if◌then◌else◌}
use contrato_core.Storage.{Err, Result, ok, err}
use contrato_core.Storage.Server.{Db, World}
use contrato_core.Storage.Exec.{
  Exec, pure, fail, reject_if, continue, wrap, wrapped, for_each, ◌>>=◌,
}

pub record Keeps {A : Type 0} (P : Db → Type 0) (m : Exec A) : Type 0 where
  pub at : (w : World) → P w.db → P (m w).1.db

module _ {P : Db → Type 0} where
  pub Keeps-pure : {A : Type 0} (a : A) → Keeps P (pure a)
  unfolding pure
  Keeps-pure a = record { at = λ w h. h }

  pub Keeps-fail : {A : Type 0} (x : Err) → Keeps P (fail {A = A} x)
  unfolding fail
  Keeps-fail x = record { at = λ w h. h }

  pub Keeps-if :
      {A : Type 0} (b : Bool) (m n : Exec A) → Keeps P m → Keeps P n → Keeps P (if b then m else n)
  Keeps-if true m n km kn = km
  Keeps-if false m n km kn = kn

  pub Keeps-reject_if : (b : Bool) (x : Err) → Keeps P (reject_if b x)
  unfolding reject_if
  Keeps-reject_if b x = Keeps-if b _ _ (Keeps-fail x) (Keeps-pure tt)

  pub Keeps-bind :
      {A B : Type 0} (m : Exec A) (f : A → Exec B)
      → Keeps P m
      → ((a : A) → Keeps P (f a))
      → Keeps P (m >>= f)
  unfolding ◌>>=◌
  Keeps-bind {A} m f km kf = record { at = λ w h. go (m w) (km.at w h) }
    where
      go : (o : Result A × World) → P o.1.db → P (continue o f).1.db
      go (ok a, w) h = (kf a).at w h
      go (err x, w) h = h

  pub Keeps-wrap :
      {A : Type 0} (context : String) (m : Exec A) → Keeps P m → Keeps P (wrap context m)
  unfolding wrap
  Keeps-wrap {A} context m km = record { at = λ w h. go (m w) (km.at w h) }
    where
      go : (o : Result A × World) → P o.1.db → P (wrapped context o).1.db
      go (ok a, w) h = h
      go (err x, w) h = h

  pub Keeps-for_each :
      {A B : Type 0} (f : A → Exec B) (xs : List A)
      → ((x : A) → Keeps P (f x))
      → Keeps P (for_each f xs)
  unfolding for_each
  Keeps-for_each f [] kf = Keeps-pure tt
  Keeps-for_each f (x ∷ xs) kf = Keeps-bind (f x) _ (kf x) (λ _. Keeps-for_each f xs kf)

  -- A block that succeeds, taken apart.
  pub bind_elim :
      {A B C : Type 0} {b : B} {w' : World} (m : Exec A) (f : A → Exec B) (w : World)
      → Keeps P m
      → P w.db
      → (m >>= f) w ≡ (ok b, w')
      → ((a : A) (v : World) → P v.db → m w ≡ (ok a, v) → f a v ≡ (ok b, w') → C)
      → C
  bind_elim {A} m f w km h s use_parts =
      let (a, v, first, rest) = bind_ok m f w s in
      use_parts a v (subst (λ (o : Result A × World). P o.1.db) first (km.at w h)) first rest

pub ruleset keep_rules =
    (Keeps-pure, Keeps-fail, Keeps-if, Keeps-reject_if, Keeps-bind, Keeps-wrap, Keeps-for_each)
