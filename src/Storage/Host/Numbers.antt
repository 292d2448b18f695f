-- ===== src/Storage/Host/Numbers.antt =====
-- The numbers of what a process has open: given out in rising order, so never twice.
use contrato_core.Base.{
  ℕ, ◌≤◌, ◌<◌, ◌≡◌, refl, false, List, [], ◌∷◌, ◌==◌, nat_eq, nat_beq_iff, Bool-cases, inl, inr,
  arith,
}
use contrato_core.Storage.Host.{Host, erase, is_live}

-- The numbers fall from one that is below `n`.
abbrev pub IsFalling : ℕ → List ℕ → Type 0
IsFalling n [] = Unit {0}
IsFalling n (m ∷ xs) = (m < n) × IsFalling m xs

pub IsFalling-mono : (m n : ℕ) (xs : List ℕ) → m ≤ n → IsFalling m xs → IsFalling n xs
IsFalling-mono m n [] le f = tt
IsFalling-mono m n (x ∷ xs) le (lt, f) = (omega (arith, lt, le), f)

pub IsFalling-erase : (k n : ℕ) (xs : List ℕ) → IsFalling n xs → IsFalling n (erase k xs)
IsFalling-erase k n [] f = tt
IsFalling-erase k n (x ∷ xs) (lt, f) = elim (Bool-cases (x == k)) [
  | inl e ↦ rw e (IsFalling-mono x n xs (omega (arith, lt)) f)
  | inr e ↦ rw e (lt, IsFalling-erase k x xs f)
]

pub is_live_above : (k n : ℕ) (xs : List ℕ) → n ≤ k → IsFalling n xs → is_live k xs ≡ false
is_live_above k n [] le f = refl
is_live_above k n (x ∷ xs) le (lt, f) = ground (arith, is_live_above k x xs)

-- A number that was erased is gone.
pub is_live-erase_same : (k n : ℕ) (xs : List ℕ) → IsFalling n xs → is_live k (erase k xs) ≡ false
is_live-erase_same k n [] f = refl
is_live-erase_same k n (x ∷ xs) (lt, f) = elim (Bool-cases (x == k)) [
  | inl e ↦ rw e (is_live_above k x xs (omega (arith, (nat_beq_iff x k).0 e)) f)
  | inr e ↦ rw e (rw e (is_live-erase_same k x xs f))
]

-- A number that is gone stays gone.
pub is_live-erase : (k m : ℕ) (xs : List ℕ) → is_live k xs ≡ false → is_live k (erase m xs) ≡ false
is_live-erase k m [] e = refl
is_live-erase k m (x ∷ xs) e = ground (arith, is_live-erase k m xs)

pub erase_missing : (k : ℕ) (xs : List ℕ) → is_live k xs ≡ false → erase k xs ≡ xs
erase_missing k [] e = refl
erase_missing k (x ∷ xs) e = ground (arith, erase_missing k xs)

-- The number that was given out before the last.
pub erase_second : (k m : ℕ) (xs : List ℕ) → k < m → erase k (m ∷ (k ∷ xs)) ≡ m ∷ xs
erase_second k m xs lt = ground arith

pub is_live-later :
    (k m : ℕ) (xs : List ℕ) → k < m → is_live k xs ≡ false → is_live k (m ∷ xs) ≡ false
is_live-later k m xs lt e = ground arith

pub record IsTidy (h : Host) : Type 0 where
  pub dbs : IsFalling h.made h.dbs
  pub txs : IsFalling h.made h.txs
  pub timers : IsFalling h.made h.timers
