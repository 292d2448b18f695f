-- ===== src/Storage/Exec.antt =====
-- Code that runs statements: it returns a result and the world that the statements leave, also
-- when it fails. `sql.Row` and `sql.Rows` are the values that the statements return.
use contrato_core.Base.{suc, String, ◌<>◌, Bool, Option, none, some, List, [], ◌∷◌, if◌then◌else◌}
use contrato_core.Storage.{Err, Result, ok, err, message, not_found, refused, error_text}
use contrato_core.Storage.Server.{Db, World}

abbrev pub Exec {ℓ} : Type ℓ → Type ℓ
Exec A = World → Result A × World

abbrev pub tick : World → World
tick w = record w { ran = suc w.ran }

module _ {ℓ} {A : Type ℓ} where
  unfoldable pub pure : A → Exec A
  pure a w = (ok a, w)

  unfoldable pub fail : Err → Exec A
  fail e w = (err e, w)

  -- A look at the world that runs no statement, such as `time.Now()`.
  unfoldable pub gets : (World → A) → Exec A
  gets f w = (ok (f w), w)

  -- One statement in autocommit mode. A statement that fails changes no table.
  abbrev pub settle : World → Result (A × Db) → Result A × World
  settle w (ok (a, d)) = (ok a, record (tick w) { db = d })
  settle w (err e) = (err e, tick w)

  abbrev pub answer : World → Result (A × Db) → Option String → Result A × World
  answer w r none = settle w r
  answer w r (some e) = (err (refused e), tick w)

  unfoldable pub statement : (World → Result (A × Db)) → Exec A
  statement run w = answer w (run w) (w.server.refuses w.ran)

  -- A `SELECT` that returns rows, or one row that is always there.
  unfoldable pub query : (World → A) → Exec A
  unfolding statement
  query read = statement (λ w. ok (read w, w.db))

  -- `QueryRowContext` and a scan: no row is `ErrNotFound`.
  abbrev pub or_not_found : Option A → Db → Result (A × Db)
  or_not_found none d = err not_found
  or_not_found (some a) d = ok (a, d)

  unfoldable pub query_row : (World → Option A) → Exec A
  unfolding statement
  query_row read = statement (λ w. or_not_found (read w) w.db)

  -- `INSERT … RETURNING`, refused where a constraint of the schema fails.
  unfoldable pub insert : (World → Bool) → (World → A × Db) → Exec A
  unfolding statement
  insert allowed write =
      statement λ w. if allowed w then ok (write w) else err (refused (w.server.violation w.ran))

module _ {ℓ} {A B : Type ℓ} where
  abbrev pub continue : Result A × World → (A → Exec B) → Result B × World
  continue (ok a, w) f = f a w
  continue (err e, w) f = (err e, w)

  infixl 10 ◌>>=◌
  unfoldable pub ◌>>=◌ : Exec A → (A → Exec B) → Exec B
  ◌>>=◌ m f w = continue (m w) f

  -- `if err != nil { return errors.New(…) }`: any failure of the first part becomes one error.
  abbrev pub rename : Err → Result A × World → (A → Exec B) → Result B × World
  rename e (ok a, w) f = f a w
  rename e (err _, w) f = (err e, w)

  unfoldable pub or_else : Exec A → Err → (A → Exec B) → Exec B
  or_else m e f w = rename e (m w) f

infixl 10 ◌>>◌
abbrev pub ◌>>◌ : {B : Type 0} → Exec (Unit {0}) → Exec B → Exec B
m >> k = m >>= λ _. k

-- `if bad { return …, e }`
unfoldable pub reject_if : Bool → Err → Exec (Unit {0})
unfolding pure fail
reject_if bad e = if bad then fail e else pure tt

-- A call that runs no statement and may fail.
abbrev pub lift : {A : Type 0} → Result A → Exec A
lift r w = (r, w)

-- `for _, x := range xs { if _, err := f(x); err != nil { return … } }`
unfoldable pub for_each : {A B : Type 0} → (A → Exec B) → List A → Exec (Unit {0})
unfolding ◌>>=◌ pure
for_each f [] = pure tt
for_each f (x ∷ xs) = f x >>= λ _. for_each f xs

-- `fmt.Errorf("context: %w", err)`
abbrev pub wrapped : {A : Type 0} → String → Result A × World → Result A × World
wrapped context (ok a, w) = (ok a, w)
wrapped context (err x, w) = (err (message (context <> ": " <> error_text x)), w)

unfoldable pub wrap : {A : Type 0} → String → Exec A → Exec A
wrap context m w = wrapped context (m w)
