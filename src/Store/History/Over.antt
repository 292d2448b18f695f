-- ===== src/Store/History/Over.antt =====
-- A closed store and an ended transaction, whatever the process does next.
use contrato_core.Base.{
  ℕ, ◌<◌, ◌≡◌, refl, sym, subst, String, Bool, true, false, Bool-cases, inl, inr, Option, none,
  some, List, [], ◌∷◌, arith, nat_eq, if◌then◌else◌,
}
use contrato_core.Storage.{Result, ok, err, message}
use contrato_core.Storage.Server.{World}
use contrato_core.Storage.Host.{
  Host, Querier, Txn, pool, in_tx, is_live, landed, closed, ended, signal, close_db, end_tx,
  tx_done, stop_timer,
}
use contrato_core.Storage.Host.Handles.{ping-Borrows}
use contrato_core.Storage.Host.Numbers.{is_live-erase_same, IsTidy}
use contrato_core.Storage.Host.Effects.{
  Effect, keeps, begins, drops, Drops, IsOver, IsOver-unusable, Effect-IsOver, Effect-IsTidy,
}
use contrato_core.Storage.Host.Effects
use contrato_core.Store.{SqlStore, SqlTx, repositories, begin_tx, commit, rollback, and_cancel}
use contrato_core.Store.Driver.{Driver}
use contrato_core.Store.Driver.Owned.{MigrationBorrows, IsOwned, open_store-IsOwned}
use contrato_core.Store.Lifetimes.{IsBegun, begin_tx-IsBegun}
use contrato_core.Store.Requests.{Request, request}
use contrato_core.Store.Requests.Borrows.{request-Same}
use contrato_core.Store.Refusals.{IsRefused, request-IsRefused}
use contrato_core.Store.History.{
  Event, opens, pings, closes, commits, rollbacks, calls, happen, happen_all,
}
use contrato_core.Store.History

close_db-Effect : (d : ℕ) (h : Host) → Effect h (close_db d h).1
unfolding close_db
close_db-Effect d h = go (signal h.world) (is_live d h.dbs)
  where
    go :
        (o : Result (Unit {0}) × World) (b : Bool)
        → Effect h (if b then closed d (landed h o) else (ok tt, h)).1
    go (r, w) true =
        drops (some d) none none
          (record { dbs = refl; txs = refl; timers = refl; made = omega arith })
    go (r, w) false =
        drops none none none (record { dbs = refl; txs = refl; timers = refl; made = omega arith })

end-Effect : (t : Txn) (timer : Option ℕ) (h : Host) → Effect h (and_cancel timer (end_tx t h)).1
unfolding end_tx stop_timer
end-Effect t timer h = go (signal h.world) (is_live t.number h.txs) timer
  where
    go :
        (o : Result (Unit {0}) × World) (b : Bool) (timer : Option ℕ)
        → Effect h
            (and_cancel timer (if b then ended t (landed h o) else (err (message tx_done), h))).1
    go (r, w) true none =
        drops none (some t.number) none
          (record { dbs = refl; txs = refl; timers = refl; made = omega arith })
    go (r, w) true (some n) =
        drops none (some t.number) (some n)
          (record { dbs = refl; txs = refl; timers = refl; made = omega arith })
    go (r, w) false none =
        drops none none none (record { dbs = refl; txs = refl; timers = refl; made = omega arith })
    go (r, w) false (some n) =
        drops none none (some n)
          (record { dbs = refl; txs = refl; timers = refl; made = omega arith })

begun-Effect : (h : Host) (o : Result SqlTx × Host) → IsBegun h o → Effect h o.1
begun-Effect h (ok t, h') b = begins t.tx.number t.cancel b
begun-Effect h (err x, h') b = keeps b

owned-Effect : (h : Host) (o : Result SqlStore × Host) → IsOwned h o → Effect h o.1
owned-Effect h (ok s, h') b = Effects.opens s.db b.0
owned-Effect h (err x, h') b = keeps b

-- The querier that an event is the last to use.
abbrev pub last_use : Event → Option Querier
last_use (closes s) = some (pool s.db)
last_use (commits t) = some (in_tx t.tx)
last_use (rollbacks t) = some (in_tx t.tx)
last_use _ = none

abbrev pub number : Querier → ℕ
number (pool d) = d
number (in_tx t) = t.number

closed-IsOver : (d : ℕ) (h : Host) → IsTidy h → d < h.made → IsOver (pool d) (close_db d h).1
unfolding close_db
closed-IsOver d h t lt = elim (Bool-cases (is_live d h.dbs)) [
  | inl e ↦ rw e (go (signal h.world))
  | inr e ↦ rw e (lt, e)
]
  where
    go : (o : Result (Unit {0}) × World) → IsOver (pool d) (closed d (landed h o)).1
    go (r, w) = (lt, is_live-erase_same d h.made h.dbs t.dbs)

cancelled-IsOver :
    (t : Txn) (timer : Option ℕ) (o : Result (Unit {0}) × Host)
    → IsOver (in_tx t) o.1
    → IsOver (in_tx t) (and_cancel timer o).1
unfolding stop_timer
cancelled-IsOver t none (r, h) o = o
cancelled-IsOver t (some n) (r, h) o = o

ended-IsOver : (t : Txn) (h : Host) → IsTidy h → t.number < h.made → IsOver (in_tx t) (end_tx t h).1
unfolding end_tx
ended-IsOver t h d lt = elim (Bool-cases (is_live t.number h.txs)) [
  | inl e ↦ rw e (go (signal h.world))
  | inr e ↦ rw e (lt, e)
]
  where
    go : (o : Result (Unit {0}) × World) → IsOver (in_tx t) (ended t (landed h o)).1
    go (r, w) = (lt, is_live-erase_same t.number h.made h.txs d.txs)

same_querier : {p q : Querier} → some p ≡ some q → p ≡ q
same_querier e = ground arith

ended_by :
    (x : SqlTx) (q : Querier) (h : Host)
    → some (in_tx x.tx) ≡ some q
    → IsTidy h
    → number q < h.made
    → IsOver q (and_cancel x.cancel (end_tx x.tx h)).1
ended_by x q h u t lt =
    subst (λ p. IsOver p (and_cancel x.cancel (end_tx x.tx h)).1) (same_querier u)
      (cancelled-IsOver x.tx x.cancel (end_tx x.tx h)
        (ended-IsOver x.tx h t (subst (λ p. number p < h.made) (sym (same_querier u)) lt)))

module _ (dsn_error : String → Option String) (etag_of : String → String) (d : Driver) where
  happen-Effect :
      (e : Event) (h : Host)
      → MigrationBorrows d.migrate
      → Effect h (happen dsn_error etag_of d e h)
  unfolding happen commit rollback
  happen-Effect (opens cfg) h m = owned-Effect h _ (open_store-IsOwned dsn_error d cfg h m)
  happen-Effect (pings s) h m = keeps (ping-Borrows s.db h)
  happen-Effect (closes s) h m = close_db-Effect s.db h
  happen-Effect (History.begins s opts) h m =
      begun-Effect h (begin_tx s opts h) (begin_tx-IsBegun s opts h)
  happen-Effect (commits t) h m = end-Effect t.tx t.cancel h
  happen-Effect (rollbacks t) h m = end-Effect t.tx t.cancel h
  happen-Effect (calls q r) h m = keeps (request-Same etag_of q r h)

  -- Where the migration gives back what it takes, every sequence of events keeps the numbers of the open databases, of the
  -- open transactions and of the running timers distinct.
  pub happen_all-IsTidy :
      (es : List Event) (h : Host)
      → MigrationBorrows d.migrate
      → IsTidy h
      → IsTidy (happen_all dsn_error etag_of d es h)
  unfolding happen_all
  happen_all-IsTidy [] h m t = t
  happen_all-IsTidy (e ∷ es) h m t =
      happen_all-IsTidy es (happen dsn_error etag_of d e h) m
        (Effect-IsTidy (happen-Effect e h m) t)

  stays-IsOver :
      (q : Querier) (es : List Event) (h : Host)
      → MigrationBorrows d.migrate
      → IsOver q h
      → IsOver q (happen_all dsn_error etag_of d es h)
  unfolding happen_all
  stays-IsOver q [] h m o = o
  stays-IsOver q (e ∷ es) h m o =
      stays-IsOver q es (happen dsn_error etag_of d e h) m (Effect-IsOver q (happen-Effect e h m) o)

  happen-IsOver :
      (e : Event) (q : Querier) (h : Host)
      → last_use e ≡ some q
      → IsTidy h
      → number q < h.made
      → IsOver q (happen dsn_error etag_of d e h)
  unfolding happen commit rollback
  happen-IsOver (closes s) q h u t lt =
      subst (λ p. IsOver p (close_db s.db h).1) (same_querier u)
        (closed-IsOver s.db h t (subst (λ p. number p < h.made) (sym (same_querier u)) lt))
  happen-IsOver (commits x) q h u t lt = ended_by x q h u t lt
  happen-IsOver (rollbacks x) q h u t lt = ended_by x q h u t lt
  happen-IsOver (opens cfg) q h u t lt = absurd (ground arith)
  happen-IsOver (pings s) q h u t lt = absurd (ground arith)
  happen-IsOver (History.begins s opts) q h u t lt = absurd (ground arith)
  happen-IsOver (calls p r) q h u t lt = absurd (ground arith)

  -- Where the open numbers are distinct and the migration gives back what it takes: after a store was
  -- closed, or a transaction was committed or rolled back, also if that failed, every method of its
  -- eight repositories fails and changes no table, whatever the process has done in between.
  pub happen_all-refuses :
      (e : Event) (q : Querier) (es : List Event) (r : Request) (h : Host)
      → last_use e ≡ some q
      → IsTidy h
      → number q < h.made
      → MigrationBorrows d.migrate
      → let h' = happen_all dsn_error etag_of d es (happen dsn_error etag_of d e h) in
        IsRefused h' (request (repositories etag_of q) r h')
  happen_all-refuses e q es r h u t lt m =
      request-IsRefused etag_of q r _
        (IsOver-unusable q _ (stays-IsOver q es _ m (happen-IsOver e q h u t lt)))
