-- ===== src/Storage/Statements.antt =====
-- What one statement can leave: the rule for a property of the database.
use contrato_core.Base.{
  Bool, true, false, Option, some, none, String, arith, ◌∙◌, ap, Option-cases, inl, inr, ◌≡◌,
  if◌then◌else◌, refl,
}
use contrato_core.Storage.{Err, Result, ok, err, refused, not_found}
use contrato_core.Storage.Server.{Db, World}
use contrato_core.Storage.Exec.{
  fail, wrap, wrapped, reject_if, Exec, pure, continue, ◌>>=◌, query, query_row, statement, insert,
  answer, tick,
}

-- A condition on what an action returns when it succeeds.
abbrev pub OnSuccess : {A : Type 0} → (A → Type 0) → Result A → Type 0
OnSuccess P (ok a) = P a
OnSuccess P (err x) = Unit {0}

module _ {A : Type 0} (P : Db → Type 0) where
  abbrev Leaves : Result (A × Db) → Type 0
  Leaves (ok (a, d)) = P d
  Leaves (err e) = Unit {0}

  pub answer_keeps :
      (w : World) (r : Result (A × Db)) (refusal : Option String)
      → P w.db
      → Leaves r
      → P (answer w r refusal).1.db
  answer_keeps w r (some e) h k = h
  answer_keeps w (ok (a, d)) none h k = k
  answer_keeps w (err e) none h k = h

  pub statement_keeps :
      (run : World → Result (A × Db)) (w : World)
      → P w.db
      → Leaves (run w)
      → P (statement run w).1.db
  unfolding statement
  statement_keeps run w h k = answer_keeps w (run w) (w.server.refuses w.ran) h k

  Leaves-if :
      (b : Bool) (r : A × Db) (x : Err) → (b ≡ true → P r.1) → Leaves (if b then ok r else err x)
  Leaves-if true r x k = k refl
  Leaves-if false r x k = tt

  -- An insert keeps what its write keeps where the constraints let it through.
  pub insert_keeps :
      (allowed : World → Bool) (write : World → A × Db) (w : World)
      → P w.db
      → (allowed w ≡ true → P (write w).1)
      → P (insert allowed write w).1.db
  unfolding insert
  insert_keeps allowed write w h k =
      statement_keeps
        (λ v. if allowed v then ok (write v) else err (refused (v.server.violation v.ran))) w h
        (Leaves-if (allowed w) (write w) _ k)

module _ {A : Type 0} where
  pub query_ok :
      (read : World → A) (w : World)
      → w.server.refuses w.ran ≡ none
      → query read w ≡ (ok (read w), tick w)
  unfolding query
  query_ok read w quiet = rw (quiet, statement) refl

  -- A condition on what a read returns when it is not refused.
  pub query_returns :
      (P : A → Type 0) (read : World → A) (w : World) → P (read w) → OnSuccess P (query read w).0
  unfolding query
  query_returns P read w h = elim (Option-cases (w.server.refuses w.ran)) [
    | inl n ↦ rw (n, statement) h
    | inr (x, s) ↦ rw (s, statement) tt
  ]

  -- A read that the server does not refuse.
  pub query_row_ok :
      (read : World → Option A) (w : World) (a : A)
      → w.server.refuses w.ran ≡ none
      → read w ≡ some a
      → query_row read w ≡ (ok a, tick w)
  unfolding query_row
  query_row_ok read w a quiet found = rw (quiet, found, statement) refl

  pub query_row_missing :
      (read : World → Option A) (w : World)
      → w.server.refuses w.ran ≡ none
      → read w ≡ none
      → query_row read w ≡ (err not_found, tick w)
  unfolding query_row
  query_row_missing read w quiet missing = rw (quiet, missing, statement) refl

  -- Two worlds where the read sees the same, and the server refuses neither.
  pub query_row_same :
      (read : World → Option A) (w w' : World)
      → w.server.refuses w.ran ≡ none
      → w'.server.refuses w'.ran ≡ none
      → read w' ≡ read w
      → (query_row read w').0 ≡ (query_row read w).0
  query_row_same read w w' quiet quiet' same = elim (Option-cases (read w)) [
    | inl n ↦
        rw (query_row_missing read w quiet n, query_row_missing read w' quiet' (same ∙ n)) refl
    | inr (a, s) ↦ rw (query_row_ok read w a quiet s, query_row_ok read w' a quiet' (same ∙ s)) refl
  ]

-- A row that is scanned: the value that was returned comes from a row, in the same world.
module _ {A B : Type 0} (f : A → B) where
  scan_inversion :
      (o : Result A × World) {b : B} {w' : World}
      → continue o (λ a. pure (f a)) ≡ (ok b, w')
      → (a : A) × (o ≡ (ok a, w')) × (b ≡ f a)
  unfolding pure
  scan_inversion (ok a, w) s = (a, ground arith, ground arith)
  scan_inversion (err x, w) s = absurd (ground arith)

  pub scanned :
      (m : Exec A) (w : World) {b : B} {w' : World}
      → (m >>= λ a. pure (f a)) w ≡ (ok b, w')
      → (a : A) × (m w ≡ (ok a, w')) × (b ≡ f a)
  unfolding ◌>>=◌
  scanned m w s = scan_inversion (m w) s

  -- Scanning does not touch the world.
  scan_world : (o : Result A × World) → (continue o (λ a. pure (f a))).1 ≡ o.1
  unfolding pure
  scan_world (ok a, w) = refl
  scan_world (err x, w) = refl

  pub world-scan : (m : Exec A) (w : World) → ((m >>= λ a. pure (f a)) w).1 ≡ (m w).1
  unfolding ◌>>=◌
  world-scan m w = scan_world (m w)

  pub scan_ok :
      (m : Exec A) (w w' : World) (a : A)
      → m w ≡ (ok a, w')
      → (m >>= λ a. pure (f a)) w ≡ (ok (f a), w')
  unfolding ◌>>=◌ pure
  scan_ok m w w' a s = ap (λ (o : Result A × World). continue o (λ a. pure (f a))) s

  scan_same_result :
      (o o' : Result A × World)
      → o'.0 ≡ o.0
      → (continue o' (λ a. pure (f a))).0 ≡ (continue o (λ a. pure (f a))).0
  unfolding pure
  scan_same_result (ok a, w) (ok a', w') s = ground arith
  scan_same_result (err x, w) (err x', w') s = ground arith
  scan_same_result (ok a, w) (err x', w') s = absurd (ground arith)
  scan_same_result (err x, w) (ok a', w') s = absurd (ground arith)

  pub scan_same :
      (m : Exec A) (w w' : World)
      → (m w').0 ≡ (m w).0
      → ((m >>= λ a. pure (f a)) w').0 ≡ ((m >>= λ a. pure (f a)) w).0
  unfolding ◌>>=◌
  scan_same m w w' s = scan_same_result (m w) (m w') s

-- A chain, or one with a message round its error, that succeeds has succeeded in its first part.
bind_inversion :
    {A B : Type 0} (o : Result A × World) (f : A → Exec B) {b : B} {w' : World}
    → continue o f ≡ (ok b, w')
    → (a : A) × (v : World) × (o ≡ (ok a, v)) × (f a v ≡ (ok b, w'))
bind_inversion (ok a, v) f s = (a, v, refl, s)
bind_inversion (err x, v) f s = absurd (ground arith)

pub bind_ok :
    {A B : Type 0} (m : Exec A) (f : A → Exec B) (w : World) {b : B} {w' : World}
    → (m >>= f) w ≡ (ok b, w')
    → (a : A) × (v : World) × (m w ≡ (ok a, v)) × (f a v ≡ (ok b, w'))
unfolding ◌>>=◌
bind_ok m f w s = bind_inversion (m w) f s

wrap_inversion :
    {A : Type 0} (context : String) (o : Result A × World) {a : A} {w' : World}
    → wrapped context o ≡ (ok a, w')
    → o ≡ (ok a, w')
wrap_inversion context (ok a, v) s = s
wrap_inversion context (err x, v) s = absurd (ground arith)

pub wrap_ok :
    {A : Type 0} (context : String) (m : Exec A) (w : World) {a : A} {w' : World}
    → wrap context m w ≡ (ok a, w')
    → m w ≡ (ok a, w')
unfolding wrap
wrap_ok context m w s = wrap_inversion context (m w) s

pub reject_if_ok :
    (b : Bool) (x : Err) (w : World) {w' : World}
    → reject_if b x w ≡ (ok tt, w')
    → (b ≡ false) × (w ≡ w')
unfolding reject_if pure fail
reject_if_ok true x w s = absurd (ground arith)
reject_if_ok false x w s = (refl, ground arith)
