-- ===== src/Storage/Deaf.antt =====
-- Code that runs against a service that refuses every statement: whether it fails, and what it leaves.
use contrato_core.Base.{
  arith, ℕ, ◌≡◌, refl, ◌∙◌, Bool, true, false, String, Option, none, some, if◌then◌else◌,
}
use contrato_core.Storage.{Err, Result, ok, err, refused}
use contrato_core.Storage.Server.{Db, World}
use contrato_core.Storage.Exec.{
  Exec, pure, fail, gets, query, query_row, insert, statement, or_not_found, answer, reject_if,
  continue, rename, or_else, ◌>>=◌,
}

abbrev pub IsDeaf : World → Type 0
IsDeaf w = (why : String) × ((n : ℕ) → w.server.refuses n ≡ some why)

abbrev pub HasFailed : {A : Type 0} → Result A → Type 0
HasFailed (ok a) = ⊥
HasFailed (err x) = Unit {0}

-- The tables are as they were, and the service still refuses everything.
abbrev pub IsIdle : World → World → Type 0
IsIdle w w' = (w'.db ≡ w.db) × IsDeaf w'

pub record Idles {A : Type 0} (m : Exec A) : Type 0 where
  pub at : (w : World) → IsDeaf w → IsIdle w (m w).1

pub record Stops {A : Type 0} (m : Exec A) : Type 0 where
  pub fails : (w : World) → IsDeaf w → HasFailed (m w).0
  pub at : (w : World) → IsDeaf w → IsIdle w (m w).1

pub Idles-of_Stops : {A : Type 0} (m : Exec A) → Stops m → Idles m
Idles-of_Stops m s = record { at = s.at }

pub Idles-pure : {A : Type 0} (a : A) → Idles (pure a)
unfolding pure
Idles-pure a = record { at = λ w d. (refl, d) }

pub Idles-gets : {A : Type 0} (f : World → A) → Idles (gets f)
unfolding gets
Idles-gets f = record { at = λ w d. (refl, d) }

pub Stops-fail : {A : Type 0} (x : Err) → Stops (fail {A = A} x)
unfolding fail
Stops-fail x = record { fails = λ w d. tt; at = λ w d. (refl, d) }

pub Idles-if :
    {A : Type 0} (b : Bool) (m n : Exec A) → Idles m → Idles n → Idles (if b then m else n)
Idles-if true m n i j = i
Idles-if false m n i j = j

pub Stops-if :
    {A : Type 0} (b : Bool) (m n : Exec A) → Stops m → Stops n → Stops (if b then m else n)
Stops-if true m n i j = i
Stops-if false m n i j = j

pub Idles-reject_if : (b : Bool) (x : Err) → Idles (reject_if b x)
unfolding reject_if
Idles-reject_if b x =
    Idles-if b (fail x) (pure tt) (Idles-of_Stops (fail x) (Stops-fail x)) (Idles-pure tt)

module _ {A : Type 0} where
  stopped :
      (w : World) (r : Result (A × Db)) (o : Option String) (why : String)
      → o ≡ some why
      → IsDeaf w
      → HasFailed (answer w r o).0 × IsIdle w (answer w r o).1
  stopped w r (some x) why e d = (tt, (refl, d))
  stopped w r none why e d = absurd (ground arith)

  pub Stops-statement : (run : World → Result (A × Db)) → Stops (statement run)
  unfolding statement
  Stops-statement run = record {
    fails = λ w (why, d). (stopped w (run w) (w.server.refuses w.ran) why (d w.ran) (why, d)).0;
    at = λ w (why, d). (stopped w (run w) (w.server.refuses w.ran) why (d w.ran) (why, d)).1;
  }

  pub Stops-query : (read : World → A) → Stops (query read)
  unfolding query
  Stops-query read = Stops-statement λ w. ok (read w, w.db)

  pub Stops-query_row : (read : World → Option A) → Stops (query_row read)
  unfolding query_row
  Stops-query_row read = Stops-statement λ w. or_not_found (read w) w.db

  pub Stops-insert :
      (allowed : World → Bool) (write : World → A × Db) → Stops (insert allowed write)
  unfolding insert
  Stops-insert allowed write =
      Stops-statement
        λ w. if allowed w then ok (write w) else err (refused (w.server.violation w.ran))

module _ {A B : Type 0} where
  -- The first part fails.
  pub Stops-bind : (m : Exec A) (f : A → Exec B) → Stops m → Stops (m >>= f)
  unfolding ◌>>=◌
  Stops-bind m f s = record {
    fails = λ w d. failed (m w) (s.fails w d);
    at = λ w d. idle w (m w) (s.fails w d) (s.at w d);
  }
    where
      failed : (o : Result A × World) → HasFailed o.0 → HasFailed (continue o f).0
      failed (ok a, w) h = elim h [ ]
      failed (err x, w) h = h

      idle :
          (w : World) (o : Result A × World)
          → HasFailed o.0
          → IsIdle w o.1
          → IsIdle w (continue o f).1
      idle w (ok a, w') h i = elim h [ ]
      idle w (err x, w') h i = i

  -- The rest fails.
  pub Stops-after :
      (m : Exec A) (f : A → Exec B) → Idles m → ((a : A) → Stops (f a)) → Stops (m >>= f)
  unfolding ◌>>=◌
  Stops-after m f i s = record {
    fails = λ w d. failed w (m w) (i.at w d);
    at = λ w d. idle w (m w) (i.at w d);
  }
    where
      failed : (w : World) (o : Result A × World) → IsIdle w o.1 → HasFailed (continue o f).0
      failed w (ok a, w') (e, d) = (s a).fails w' d
      failed w (err x, w') (e, d) = tt

      idle : (w : World) (o : Result A × World) → IsIdle w o.1 → IsIdle w (continue o f).1
      idle w (ok a, w') (e, d) = let (e', d') = (s a).at w' d in (e' ∙ e, d')
      idle w (err x, w') i = i

  pub Idles-or_else : (m : Exec A) (x : Err) (f : A → Exec B) → Stops m → Idles (or_else m x f)
  unfolding or_else
  Idles-or_else m x f s = record { at = λ w d. idle w (m w) (s.fails w d) (s.at w d) }
    where
      idle :
          (w : World) (o : Result A × World)
          → HasFailed o.0
          → IsIdle w o.1
          → IsIdle w (rename x o f).1
      idle w (ok a, w') h i = elim h [ ]
      idle w (err y, w') h i = i

  pub Idles-bind :
      (m : Exec A) (f : A → Exec B) → Idles m → ((a : A) → Idles (f a)) → Idles (m >>= f)
  unfolding ◌>>=◌
  Idles-bind m f i s = record { at = λ w d. idle w (m w) (i.at w d) }
    where
      idle : (w : World) (o : Result A × World) → IsIdle w o.1 → IsIdle w (continue o f).1
      idle w (ok a, w') (e, d) = let (e', d') = (s a).at w' d in (e' ∙ e, d')
      idle w (err x, w') i = i

pub ruleset stop_rules = (
  Stops-fail, Stops-if, Stops-statement, Stops-query, Stops-query_row, Stops-insert, Stops-bind,
  Stops-after, Idles-of_Stops, Idles-pure, Idles-gets, Idles-if, Idles-reject_if, Idles-or_else,
)
