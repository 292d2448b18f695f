-- ===== src/Storage/Host/Effects.antt =====
-- What one call does to the databases, transactions and timers of a process, as a step relation.
use contrato_core.Base.{
  ℕ, ◌≤◌, ◌<◌, ◌≡◌, sym, subst, false, Option, none, some, List, ◌∷◌, arith, nat_eq,
}
use contrato_core.Storage.Host.{Host, Querier, pool, in_tx, is_usable, is_live, erase}
use contrato_core.Storage.Host.Handles.{Same, WithDb, WithTx, IsFreshTimer, added}
use contrato_core.Storage.Host.Numbers.{
  IsFalling, IsFalling-mono, IsFalling-erase, is_live-erase, is_live-later, IsTidy,
}

abbrev pub dropped : Option ℕ → List ℕ → List ℕ
dropped none xs = xs
dropped (some n) xs = erase n xs

-- At most one of each kind is given up.
pub record Drops (db tx timer : Option ℕ) (h h' : Host) : Type 0 where
  pub dbs : h'.dbs ≡ dropped db h.dbs
  pub txs : h'.txs ≡ dropped tx h.txs
  pub timers : h'.timers ≡ dropped timer h.timers
  pub made : h.made ≤ h'.made

pub data Effect (h h' : Host) : Type 0 where
  keeps : Same h h' → Effect h h'
  opens : (d : ℕ) → WithDb d h h' → Effect h h'
  begins : (t : ℕ) (timer : Option ℕ) → WithTx t timer h h' → Effect h h'
  drops : (db tx timer : Option ℕ) → Drops db tx timer h h' → Effect h h'

dropped-IsFalling :
    (o : Option ℕ) (m n : ℕ) (xs : List ℕ) → m ≤ n → IsFalling m xs → IsFalling n (dropped o xs)
dropped-IsFalling none m n xs le f = IsFalling-mono m n xs le f
dropped-IsFalling (some k) m n xs le f = IsFalling-mono m n _ le (IsFalling-erase k m xs f)

added-IsFalling :
    (timer : Option ℕ) (h h' : Host)
    → IsFreshTimer timer h h'
    → h.made ≤ h'.made
    → IsFalling h.made h.timers
    → IsFalling h'.made (added timer h.timers)
added-IsFalling none h h' f le t = IsFalling-mono h.made h'.made h.timers le t
added-IsFalling (some n) h h' f le t = (f.1, IsFalling-mono h.made n h.timers f.0 t)

-- Every step keeps the numbers in order.
pub Effect-IsTidy : {h h' : Host} → Effect h h' → IsTidy h → IsTidy h'
Effect-IsTidy {h} {h'} (keeps s) t = record {
  dbs = subst (IsFalling h'.made) (sym s.dbs) (IsFalling-mono h.made h'.made h.dbs s.made t.dbs);
  txs = subst (IsFalling h'.made) (sym s.txs) (IsFalling-mono h.made h'.made h.txs s.made t.txs);
  timers =
      subst (IsFalling h'.made) (sym s.timers)
        (IsFalling-mono h.made h'.made h.timers s.made t.timers);
}
Effect-IsTidy {h} {h'} (opens d s) t =
    let le : h.made ≤ h'.made = omega (arith, s.fresh.0, s.fresh.1) in
    record {
      dbs =
          subst (IsFalling h'.made) (sym s.dbs)
            (s.fresh.1, IsFalling-mono h.made d h.dbs s.fresh.0 t.dbs);
      txs = subst (IsFalling h'.made) (sym s.txs) (IsFalling-mono h.made h'.made h.txs le t.txs);
      timers =
          subst (IsFalling h'.made) (sym s.timers)
            (IsFalling-mono h.made h'.made h.timers le t.timers);
    }
Effect-IsTidy {h} {h'} (begins n timer s) t =
    let le : h.made ≤ h'.made = omega (arith, s.fresh.0, s.fresh.1) in
    record {
      dbs = subst (IsFalling h'.made) (sym s.dbs) (IsFalling-mono h.made h'.made h.dbs le t.dbs);
      txs =
          subst (IsFalling h'.made) (sym s.txs)
            (s.fresh.1, IsFalling-mono h.made n h.txs s.fresh.0 t.txs);
      timers =
          subst (IsFalling h'.made) (sym s.timers)
            (added-IsFalling timer h h' s.fresh_timer le t.timers);
    }
Effect-IsTidy {h} {h'} (drops db tx timer s) t = record {
  dbs =
      subst (IsFalling h'.made) (sym s.dbs)
        (dropped-IsFalling db h.made h'.made h.dbs s.made t.dbs);
  txs =
      subst (IsFalling h'.made) (sym s.txs)
        (dropped-IsFalling tx h.made h'.made h.txs s.made t.txs);
  timers =
      subst (IsFalling h'.made) (sym s.timers)
        (dropped-IsFalling timer h.made h'.made h.timers s.made t.timers);
}

-- A number that was given out and is open no more.
abbrev pub IsGone : ℕ → ℕ → List ℕ → Type 0
IsGone k n xs = (k < n) × (is_live k xs ≡ false)

dropped-IsGone :
    (o : Option ℕ) (k m n : ℕ) (xs : List ℕ) → m ≤ n → IsGone k m xs → IsGone k n (dropped o xs)
dropped-IsGone none k m n xs le (lt, e) = (omega (arith, lt, le), e)
dropped-IsGone (some j) k m n xs le (lt, e) = (omega (arith, lt, le), is_live-erase k j xs e)

added-IsGone : (k m j n : ℕ) (xs : List ℕ) → (m ≤ j) × (j < n) → IsGone k m xs → IsGone k n (j ∷ xs)
added-IsGone k m j n xs f (lt, e) =
    (omega (arith, lt, f.0, f.1), is_live-later k j xs (omega (arith, lt, f.0)) e)

-- A database or a transaction that is over.
abbrev pub IsOver : Querier → Host → Type 0
IsOver (pool d) h = IsGone d h.made h.dbs
IsOver (in_tx t) h = IsGone t.number h.made h.txs

pub IsOver-unusable : (q : Querier) (h : Host) → IsOver q h → is_usable q h ≡ false
IsOver-unusable (pool d) h o = o.1
IsOver-unusable (in_tx t) h o = o.1

-- What is over is over for good.
pub Effect-IsOver : {h h' : Host} (q : Querier) → Effect h h' → IsOver q h → IsOver q h'
Effect-IsOver {h} {h'} (pool k) (keeps s) o =
    subst (IsGone k h'.made) (sym s.dbs) (dropped-IsGone none k h.made h'.made h.dbs s.made o)
Effect-IsOver {h} {h'} (in_tx t) (keeps s) o =
    subst (IsGone t.number h'.made) (sym s.txs)
      (dropped-IsGone none t.number h.made h'.made h.txs s.made o)
Effect-IsOver {h} {h'} (pool k) (opens d s) o =
    subst (IsGone k h'.made) (sym s.dbs) (added-IsGone k h.made d h'.made h.dbs s.fresh o)
Effect-IsOver {h} {h'} (in_tx t) (opens d s) o =
    subst (IsGone t.number h'.made) (sym s.txs)
      (dropped-IsGone none t.number h.made h'.made h.txs (omega (arith, s.fresh.0, s.fresh.1)) o)
Effect-IsOver {h} {h'} (pool k) (begins n timer s) o =
    subst (IsGone k h'.made) (sym s.dbs)
      (dropped-IsGone none k h.made h'.made h.dbs (omega (arith, s.fresh.0, s.fresh.1)) o)
Effect-IsOver {h} {h'} (in_tx t) (begins n timer s) o =
    subst (IsGone t.number h'.made) (sym s.txs)
      (added-IsGone t.number h.made n h'.made h.txs s.fresh o)
Effect-IsOver {h} {h'} (pool k) (drops db tx timer s) o =
    subst (IsGone k h'.made) (sym s.dbs) (dropped-IsGone db k h.made h'.made h.dbs s.made o)
Effect-IsOver {h} {h'} (in_tx t) (drops db tx timer s) o =
    subst (IsGone t.number h'.made) (sym s.txs)
      (dropped-IsGone tx t.number h.made h'.made h.txs s.made o)
