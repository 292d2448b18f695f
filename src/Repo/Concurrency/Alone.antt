-- ===== src/Repo/Concurrency/Alone.antt =====
-- A writer that nobody interrupts.
use contrato_core.Base.{◌≡◌, refl, Eq}
use contrato_core.Storage.{Result, ok, err}
use contrato_core.Storage.Server.{World}
use contrato_core.Storage.Exec.{continue}
use contrato_core.Repo.Versioned.{Versioned, check_expected, insert_row}
use contrato_core.Repo.Concurrency.{Phase, checking, finished, Writer, step}

module _ {R K : Type 0} ⦃e : Eq K⦄ (t : Versioned R K) where
  -- The two steps of a writer that is alone.
  abbrev pub alone : Writer t → World → Phase R × World
  alone p w = let (f, w') = step t p checking w in step t p f w'

  abbrev pub settled : Result R × World → Phase R × World
  settled (r, w) = (finished r, w)

  pub alone-steps :
      (p : Writer t) (w : World) (o : Result (Unit {0}) × World)
      → check_expected t p.expected p.key w ≡ o
      → alone p w ≡ settled (continue o (λ _. insert_row t p.new))
  unfolding step
  alone-steps p w (ok _, v) s = rw s refl
  alone-steps p w (err x, v) s = rw s refl
