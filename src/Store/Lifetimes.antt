-- ===== src/Store/Lifetimes.antt =====
-- The transactions and timers that the store starts and ends.
use contrato_core.Base.{
  arith, ◌≤◌, ℕ, ◌≡◌, refl, ap, ◌∙◌, Bool-cases, inl, inr, Bool, Option, none, some, ◌∷◌,
}
use contrato_core.Storage.{TxOptions, Result, ok, err}
use contrato_core.Storage.Host.{
  Host, pool, signal, through, begin_db, begun, end_tx, start_timer, stop_timer, erase,
}
use contrato_core.Storage.Host.Handles.{
  Same, Same-trans, IsFreshTimer, IsFreshTimer-trans, WithTx, WithTx-trans, through-Borrows, added,
  end_tx-timers, erase_head,
}
use contrato_core.Store.{
  SqlStore, SqlTx, cancel_with, or_cancel, begin_with, is_positive, begin_tx, and_cancel, commit,
  rollback,
}

-- What is open once a timer is stopped that was started last.
record WithTimer (timer : Option ℕ) (h h' : Host) : Type 0 where
  dbs : h'.dbs ≡ h.dbs
  txs : h'.txs ≡ h.txs
  timers : h'.timers ≡ added timer h.timers
  made : h.made ≤ h'.made

cancel_with-Same :
    (timer : Option ℕ) {h h' : Host} → WithTimer timer h h' → Same h (cancel_with timer h')
unfolding stop_timer
cancel_with-Same none s = record { dbs = s.dbs; txs = s.txs; timers = s.timers; made = s.made }
cancel_with-Same (some n) {h} {h'} s = record {
  dbs = s.dbs;
  txs = s.txs;
  timers = ap (erase n) s.timers ∙ erase_head n h.timers;
  made = s.made;
}

-- A transaction that was begun, or nothing.
abbrev pub IsBegun : Host → Result SqlTx × Host → Type 0
IsBegun h (ok t, h') = WithTx t.tx.number t.cancel h h'
IsBegun h (err x, h') = Same h h'

begin_with-IsBegun :
    (s : SqlStore) (read_only : Bool) (timer : Option ℕ) (h h' : Host)
    → WithTimer timer h h'
    → IsFreshTimer timer h h'
    → IsBegun h (begin_with s read_only timer h')
unfolding begin_db
begin_with-IsBegun s read_only timer h h' w f =
    go (through (pool s.db) signal h') (through-Borrows (pool s.db) signal h')
  where
    go :
        (o : Result (Unit {0}) × Host)
        → Same h' o.1
        → IsBegun h (or_cancel s.cap timer (begun read_only o))
    go (ok _, h2) e = record {
      dbs = e.dbs ∙ w.dbs;
      txs = ap (λ xs. h2.made ∷ xs) (e.txs ∙ w.txs);
      timers = e.timers ∙ w.timers;
      fresh = (omega (arith, e.made, w.made), omega arith);
      fresh_timer = IsFreshTimer-trans timer h h' _ f (omega (arith, e.made));
    }
    go (err x, h2) e = cancel_with-Same timer (record {
      dbs = e.dbs ∙ w.dbs;
      txs = e.txs ∙ w.txs;
      timers = e.timers ∙ w.timers;
      made = omega (arith, e.made, w.made);
    })

pub begin_tx-IsBegun : (s : SqlStore) (opts : TxOptions) (h : Host) → IsBegun h (begin_tx s opts h)
unfolding begin_tx start_timer
begin_tx-IsBegun s opts h = elim (Bool-cases (is_positive opts.timeout)) [
  | inl e ↦ rw e (
      begin_with-IsBegun s opts.read_only (some h.made) h _
        (record { dbs = refl; txs = refl; timers = refl; made = omega arith })
        (omega arith, omega arith))
  | inr e ↦ rw e (
      begin_with-IsBegun s opts.read_only none h h
        (record { dbs = refl; txs = refl; timers = refl; made = omega arith }) tt)
]

pub ended-Same :
    (t : SqlTx) (h h' : Host)
    → WithTx t.tx.number t.cancel h h'
    → Same h (and_cancel t.cancel (end_tx t.tx h')).1
ended-Same t h h' w =
    let (d, x, c, m) = end_tx-timers t.tx w in
    cancel_with-Same t.cancel (record { dbs = d; txs = x; timers = c; made = m })

-- Nothing new is open after a `BeginTx` that failed; and none is left after a commit, nor after a
-- rollback.
abbrev pub IsSettled : Host → Host → Result SqlTx → Type 0
IsSettled h h' (ok t) = Same h (commit t h').1 × Same h (rollback t h').1
IsSettled h h' (err x) = Same h h'

settled : (h h' : Host) (o : Result SqlTx × Host) → IsBegun h o → Same o.1 h' → IsSettled h h' o.0
unfolding commit rollback
settled h h' (ok t, h1) b s =
    (ended-Same t h h' (WithTx-trans b s), ended-Same t h h' (WithTx-trans b s))
settled h h' (err x, h1) b s = Same-trans b s

-- A `BeginTx` that fails leaves no transaction and no timer behind, whatever its timeout; and a
-- transaction that it returns leaves none once it is committed or rolled back, also if that fails, where what ran in
-- between has closed what it opened and nothing else.
pub begin_tx-IsSettled :
    (s : SqlStore) (opts : TxOptions) (h h' : Host)
    → Same (begin_tx s opts h).1 h'
    → IsSettled h h' (begin_tx s opts h).0
begin_tx-IsSettled s opts h h' e = settled h h' (begin_tx s opts h) (begin_tx-IsBegun s opts h) e
