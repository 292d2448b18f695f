-- ===== src/Repo/Concurrency.antt =====
-- Two clients that write the same key: a `Put` with an expected version is two statements with no
-- transaction around them, and the server may run a statement of the other client in between.
pub mod Race
pub mod Alone
pub mod Nodes
use contrato_core.Base.{ℕ, ◌+◌, ◌≡◌, refl, Bool, true, false, Option, List, [], ◌∷◌, ℤ, Eq}
use contrato_core.Storage.{Result, ok, err}
use contrato_core.Storage.Server.{World}
use contrato_core.Storage.Exec.{Exec, ◌>>=◌, ◌>>◌}
use contrato_core.Repo.Versioned.{Versioned, check_expected, insert_row}

-- What a client is about to do.
pub data Phase (R : Type 0) : Type 0 where
  checking inserting : Phase R
  finished : Result R → Phase R

module _ {R K : Type 0} ⦃e : Eq K⦄ (t : Versioned R K) where
  -- The last two parts of `Put` for a record with an id.
  pub record Writer : Type 0 where
    pub key : K
    pub expected : Option ℤ
    pub new : World → R

  abbrev after_check : Result (Unit {0}) × World → Phase R × World
  after_check (ok _, w) = (inserting, w)
  after_check (err x, w) = (finished (err x), w)

  abbrev after_insert : Result R × World → Phase R × World
  after_insert (r, w) = (finished r, w)

  unfoldable pub step : Writer → Phase R → World → Phase R × World
  step p checking w = after_check (check_expected t p.expected p.key w)
  step p inserting w = after_insert (insert_row t p.new w)
  step p (finished r) w = (finished r, w)

  pub record State : Type 0 where
    pub left : Phase R
    pub right : Phase R
    pub world : World

  -- Each entry of a schedule lets one client take its next step, `true` the left one.
  unfoldable pub turn : Writer → Writer → Bool → State → State
  turn p q true s = let (f, w) = step p s.left s.world in record s { left = f; world = w }
  turn p q false s = let (f, w) = step q s.right s.world in record s { right = f; world = w }

  unfoldable pub run : Writer → Writer → List Bool → State → State
  unfolding turn
  run p q [] s = s
  run p q (b ∷ bs) s = run p q bs (turn p q b s)

  abbrev pub start : World → State
  start w = record { left = checking; right = checking; world = w }
