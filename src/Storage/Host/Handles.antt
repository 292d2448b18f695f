-- ===== src/Storage/Host/Handles.antt =====
-- The databases, transactions and timers that a process holds, before and after a call.
use contrato_core.Base.{
  ℕ, ◌≤◌, ◌<◌, ◌≡◌, refl, ◌∙◌, ap, Bool, true, false, Option, none, some, List, ◌∷◌, ◌==◌, nat_eq,
  nat_beq_iff, arith, if◌then◌else◌,
}
use contrato_core.Storage.{Result, ok, err, message}
use contrato_core.Storage.Server.{World}
use contrato_core.Storage.Exec.{Exec}
use contrato_core.Storage.Host.{
  Host, Op, Querier, landed, through, ping, close_db, erase, is_live, signal, reaching, is_usable,
  why_not, pool, tx_done, Txn, end_tx, ended, closed,
}

-- The same databases, transactions and timers are open; others may have been made and be gone.
pub record Same (h h' : Host) : Type 0 where
  pub dbs : h'.dbs ≡ h.dbs
  pub txs : h'.txs ≡ h.txs
  pub timers : h'.timers ≡ h.timers
  pub made : h.made ≤ h'.made

pub Same-refl : (h : Host) → Same h h
Same-refl h = record { dbs = refl; txs = refl; timers = refl; made = omega arith }

pub Same-trans : {h h' h'' : Host} → Same h h' → Same h' h'' → Same h h''
Same-trans a b = record {
  dbs = b.dbs ∙ a.dbs;
  txs = b.txs ∙ a.txs;
  timers = b.timers ∙ a.timers;
  made = omega (arith, a.made, b.made);
}

-- A call that opens and closes nothing for good.
abbrev pub Borrows : {A : Type 0} → Op A → Type 0
Borrows m = (h : Host) → Same h (m h).1

pub landed-Same : {A : Type 0} (h : Host) (o : Result A × World) → Same h (landed h o).1
landed-Same h (r, w) = record { dbs = refl; txs = refl; timers = refl; made = omega arith }

-- Statements open and close nothing, whoever runs them.
pub through-Borrows : {A : Type 0} (q : Querier) (m : Exec A) → Borrows (through q m)
unfolding through
through-Borrows q m h = landed-Same h (reaching (is_usable q h) (why_not q) m h.world)

pub ping-Borrows : (d : ℕ) → Borrows (ping d)
unfolding ping
ping-Borrows d = through-Borrows (pool d) signal

nat_test : (n : ℕ) → (n == n) ≡ true
nat_test n = (nat_beq_iff n n).1 refl

pub erase_head : (n : ℕ) (xs : List ℕ) → erase n (n ∷ xs) ≡ xs
erase_head n xs = rw (nat_test n) refl

pub is_live_head : (n : ℕ) (xs : List ℕ) → is_live n (n ∷ xs) ≡ true
is_live_head n xs = rw (nat_test n) refl

-- A number that was given out in between.
abbrev pub IsFresh : ℕ → Host → Host → Type 0
IsFresh n h h' = (h.made ≤ n) × (n < h'.made)

abbrev pub IsFreshTimer : Option ℕ → Host → Host → Type 0
IsFreshTimer none h h' = Unit {0}
IsFreshTimer (some n) h h' = IsFresh n h h'

pub IsFreshTimer-trans :
    (c : Option ℕ) (h h' h'' : Host)
    → IsFreshTimer c h h'
    → h'.made ≤ h''.made
    → IsFreshTimer c h h''
IsFreshTimer-trans none h h' h'' f m = tt
IsFreshTimer-trans (some n) h h' h'' f m = (f.0, omega (arith, f.1, m))

-- What a process holds beyond what it held: a database, or a transaction with or without a timer.
pub record WithDb (d : ℕ) (h h' : Host) : Type 0 where
  pub dbs : h'.dbs ≡ d ∷ h.dbs
  pub txs : h'.txs ≡ h.txs
  pub timers : h'.timers ≡ h.timers
  pub fresh : IsFresh d h h'

abbrev pub added : Option ℕ → List ℕ → List ℕ
added none xs = xs
added (some n) xs = n ∷ xs

pub record WithTx (t : ℕ) (timer : Option ℕ) (h h' : Host) : Type 0 where
  pub dbs : h'.dbs ≡ h.dbs
  pub txs : h'.txs ≡ t ∷ h.txs
  pub timers : h'.timers ≡ added timer h.timers
  pub fresh : IsFresh t h h'
  pub fresh_timer : IsFreshTimer timer h h'

pub WithDb-trans : {d : ℕ} {h h' h'' : Host} → WithDb d h h' → Same h' h'' → WithDb d h h''
WithDb-trans a b = record {
  dbs = b.dbs ∙ a.dbs;
  txs = b.txs ∙ a.txs;
  timers = b.timers ∙ a.timers;
  fresh = (a.fresh.0, omega (arith, a.fresh.1, b.made));
}

pub WithTx-trans :
    {t : ℕ} {c : Option ℕ} {h h' h'' : Host} → WithTx t c h h' → Same h' h'' → WithTx t c h h''
WithTx-trans {t} {c} {h} {h'} {h''} a b = record {
  dbs = b.dbs ∙ a.dbs;
  txs = b.txs ∙ a.txs;
  timers = b.timers ∙ a.timers;
  fresh = (a.fresh.0, omega (arith, a.fresh.1, b.made));
  fresh_timer = IsFreshTimer-trans c h h' h'' a.fresh_timer b.made;
}

-- Closing that database.
pub close_db-Same : {d : ℕ} {h h' : Host} → WithDb d h h' → Same h (close_db d h').1
unfolding close_db
close_db-Same {d} {h} {h'} s =
    go (signal h'.world) (is_live d h'.dbs) (ap (is_live d) s.dbs ∙ is_live_head d h.dbs)
  where
    go :
        (o : Result (Unit {0}) × World) (b : Bool)
        → b ≡ true
        → Same h (if b then closed d (landed h' o) else (ok tt, h')).1
    go (r, w) true e = record {
      dbs = ap (erase d) s.dbs ∙ erase_head d h.dbs;
      txs = s.txs;
      timers = s.timers;
      made = omega (arith, s.fresh.0, s.fresh.1);
    }
    go (r, w) false e = absurd (ground arith)

-- Ending that transaction.
pub end_tx-timers :
    {c : Option ℕ} {h h' : Host} (t : Txn)
    → WithTx t.number c h h'
    → ((end_tx t h').1.dbs ≡ h.dbs)
      × ((end_tx t h').1.txs ≡ h.txs)
      × ((end_tx t h').1.timers ≡ added c h.timers)
      × (h.made ≤ (end_tx t h').1.made)
unfolding end_tx
end_tx-timers {c} {h} {h'} t s =
    go (signal h'.world) (is_live t.number h'.txs)
      (ap (is_live t.number) s.txs ∙ is_live_head t.number h.txs)
  where
    go :
        (o : Result (Unit {0}) × World) (b : Bool)
        → b ≡ true
        → let h'' = (if b then ended t (landed h' o) else (err (message tx_done), h')).1 in
          (h''.dbs ≡ h.dbs)
          × (h''.txs ≡ h.txs)
          × (h''.timers ≡ added c h.timers)
          × (h.made ≤ h''.made)
    go (r, w) true e = (
      s.dbs,
      ap (erase t.number) s.txs ∙ erase_head t.number h.txs,
      s.timers,
      omega (arith, s.fresh.0, s.fresh.1),
    )
    go (r, w) false e = absurd (ground arith)
