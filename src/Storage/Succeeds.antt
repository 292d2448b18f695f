-- ===== src/Storage/Succeeds.antt =====
-- Code that succeeds where the server refuses nothing, with a rule for each way to build it.
use contrato_core.Base.{ℕ, ◌≡◌, refl, String, Bool, true, false, none, List, [], ◌∷◌, All, arith}
use contrato_core.Storage.{ok, Err}
use contrato_core.Storage.Server.{Db, World}
use contrato_core.Storage.Exec.{
  Exec, tick, pure, for_each, wrap, reject_if, ◌>>=◌, statement, insert,
}

abbrev pub Quiet : World → Type 0
Quiet w = (n : ℕ) → w.server.refuses n ≡ none

-- The code returns, in any world where nothing is refused and `P` holds of the database, and leaves such
-- a world.
pub record Succeeds {A : Type 0} (P : Db → Type 0) (m : Exec A) : Type 0 where
  pub at :
      (w : World) → Quiet w → P w.db → (a : A) × (v : World) × (m w ≡ (ok a, v)) × Quiet v × P v.db

module _ {P : Db → Type 0} where
  pub Succeeds-pure : {A : Type 0} (a : A) → Succeeds P (pure a)
  unfolding pure
  Succeeds-pure a = record { at = λ w q h. (a, w, refl, q, h) }

  pub Succeeds-bind :
      {A B : Type 0} (m : Exec A) (f : A → Exec B)
      → Succeeds P m
      → ((a : A) → Succeeds P (f a))
      → Succeeds P (m >>= f)
  unfolding ◌>>=◌
  Succeeds-bind m f sm sf = record {
    at = λ w q h.
        let (a, v, s, q', h') = sm.at w q h in
        let (b, u, s', q'', h'') = (sf a).at v q' h' in (b, u, rw (s, s') refl, q'', h'');
  }

  pub Succeeds-wrap :
      {A : Type 0} (context : String) (m : Exec A) → Succeeds P m → Succeeds P (wrap context m)
  unfolding wrap
  Succeeds-wrap context m sm = record {
    at = λ w q h. let (a, v, s, q', h') = sm.at w q h in (a, v, rw s refl, q', h');
  }

  pub Succeeds-for_each :
      {A B : Type 0} {V : A → Type 0} (f : A → Exec B) (xs : List A)
      → ((x : A) → V x → Succeeds P (f x))
      → All V xs
      → Succeeds P (for_each f xs)
  unfolding for_each
  Succeeds-for_each f [] sf vs = Succeeds-pure tt
  Succeeds-for_each f (x ∷ xs) sf (v, vs) =
      Succeeds-bind (f x) _ (sf x v) (λ _. Succeeds-for_each f xs sf vs)

  pub Succeeds-reject_if : (b : Bool) (x : Err) → b ≡ false → Succeeds P (reject_if b x)
  unfolding reject_if
  Succeeds-reject_if true x h = absurd (ground arith)
  Succeeds-reject_if false x h = Succeeds-pure tt

  pub Succeeds-insert :
      {A : Type 0} (allowed : World → Bool) (write : World → A × Db)
      → ((w : World) → P w.db → allowed w ≡ true)
      → ((w : World) → P w.db → P (write w).1)
      → Succeeds P (insert allowed write)
  unfolding insert statement
  Succeeds-insert allowed write fits kept = record {
    at = λ w q h. (
      (write w).0,
      record (tick w) { db = (write w).1 },
      rw (q w.ran, fits w h) refl,
      q,
      kept w h,
    );
  }
