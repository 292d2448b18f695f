-- ===== src/Http/Graph/Transaction/Agrees.antt =====
-- `ListNodes` with its transaction, and without.
use contrato_core.Base.{
  ◌≡◌, refl, ◌∙◌, ap, String, true, ◌||◌, ◌==◌, string_eq, nat_eq, Bool-cases, ℕ, Option, some, inl,
  inr, none, arith,
}
use contrato_core.Storage.{Node, Result, ok, err}
use contrato_core.Storage.Server.{World}
use contrato_core.Storage.Exec.{Exec}
use contrato_core.Storage.Host.{
  Host, Querier, Txn, pool, in_tx, stop_timer, is_live, is_usable, landed, ended, begun, end_tx,
  through, begin_db, signal,
}
use contrato_core.Storage.Host.Handles.{Same, Same-refl, WithTx, is_live_head, WithTx-trans}
use contrato_core.Repo.Graph.{get_node}
use contrato_core.Store.{
  SqlStore, SqlTx, repositories, as_store, as_tx, begin_tx, or_cancel, shown_tx, rollback,
  and_cancel,
}
use contrato_core.Store.Lifetimes.{ended-Same}
use contrato_core.Http.{Response, reply, answer_with, storage_error, respond_ok, refuse_if}
use contrato_core.Http.Graph.{
  list_nodes, begin_tx as begin_query, rollback as rollback_query, list_one, rolled_back,
}
use contrato_core.Http.Graph
use contrato_core.Http.Graph.Transaction.{list_nodes_of, list_one_in, within, after_rollback, found}

-- The same answer and the same tables, and nothing more is open.
abbrev pub Agrees : Host → Response Node × Host → Response Node × World → Type 0
Agrees h (r, h') (r', w') = (r ≡ r') × (h'.world ≡ w') × Same h h'

through_usable :
    {A : Type 0} (q : Querier) (m : Exec A) (h : Host)
    → is_usable q h ≡ true
    → through q m h ≡ landed h (m h.world)
unfolding through
through_usable q m h e = rw e refl

world-end :
    (t : Txn) (h : Host) → is_live t.number h.txs ≡ true → (end_tx t h).1.world ≡ (signal h.world).1
unfolding end_tx
world-end t h e = rw e (go (signal h.world))
  where
    go : (o : Result (Unit {0}) × World) → (ended t (landed h o)).1.world ≡ o.1
    go (r, w) = refl

held :
    {t : ℕ} {timer : Option ℕ} {h h1 : Host} {w : World}
    → WithTx t timer h h1
    → WithTx t timer h (record h1 { world = w })
held s = WithTx-trans s (record { dbs = refl; txs = refl; timers = refl; made = omega arith })

cancelled-world :
    (timer : Option ℕ) (o : Result (Unit {0}) × Host) → (and_cancel timer o).1.world ≡ o.1.world
unfolding stop_timer
cancelled-world none (r, h) = refl
cancelled-world (some n) (r, h) = refl

usable :
    {h h1 : Host} (t : SqlTx) → WithTx t.tx.number t.cancel h h1 → is_live t.tx.number h1.txs ≡ true
usable {h} {h1} t w = ap (is_live t.tx.number) w.txs ∙ is_live_head t.tx.number h.txs

module _ (etag_of : String → String) (t : SqlTx) where
  rolled_back-Agrees :
      (h h1 : Host) (r : Response Node)
      → WithTx t.tx.number t.cancel h h1
      → Agrees h (after_rollback (as_tx etag_of t) (r, h1)) (rolled_back (r, h1.world))
  unfolding rolled_back rollback_query as_tx rollback
  rolled_back-Agrees h h1 r w = (
    refl,
    cancelled-world t.cancel (end_tx t.tx h1) ∙ world-end t.tx h1 (usable t w),
    ended-Same t h h1 w,
  )

  found-Agrees :
      (h h1 : Host) (o : Result Node × World)
      → WithTx t.tx.number t.cancel h h1
      → Agrees h
          (after_rollback (as_tx etag_of t) (found (landed h1 o)))
          (rolled_back (answer_with storage_error respond_ok o))
  found-Agrees h h1 (ok n, w) s =
      rolled_back-Agrees h (record h1 { world = w }) (respond_ok n) (held s)
  found-Agrees h h1 (err x, w) s =
      rolled_back-Agrees h (record h1 { world = w }) (storage_error x) (held s)

  list_one-Agrees :
      (tenant_id id : String) (h h1 : Host)
      → WithTx t.tx.number t.cancel h h1
      → Agrees h
          (after_rollback (as_tx etag_of t) (list_one_in (as_tx etag_of t) tenant_id id h1))
          (rolled_back (list_one tenant_id id h1.world))
  unfolding list_one_in list_one as_tx repositories reply
  list_one-Agrees tenant_id id h h1 s = elim (Bool-cases (id == "")) [
    | inl e ↦ rw e (rolled_back-Agrees h h1 _ s)
    | inr e ↦ rw e (
        rw (through_usable (in_tx t.tx) (get_node tenant_id id) h1 (usable t s))
          (found-Agrees h h1 (get_node tenant_id id h1.world) s))
  ]

begun-Agrees :
    (etag_of : String → String) (s : SqlStore) (tenant_id id : String) (h : Host)
    (o : Result (Unit {0}) × World)
    → Agrees h
        (within
          (λ tx. list_one_in tx tenant_id id)
          (shown_tx etag_of (or_cancel s.cap none (begun true (landed h o)))))
        (Graph.in_tx (list_one tenant_id id) o)
unfolding Graph.in_tx
begun-Agrees etag_of s tenant_id id h (ok _, w) =
    list_one-Agrees etag_of _ tenant_id id h _ (record {
      dbs = refl;
      txs = refl;
      timers = refl;
      fresh = (omega arith, omega arith);
      fresh_timer = tt;
    })
begun-Agrees etag_of s tenant_id id h (err x, w) =
    (refl, refl, record { dbs = refl; txs = refl; timers = refl; made = omega arith })

-- Where the database of the store is open, `ListNodes` with its transaction gives the answer, and
-- leaves the tables, that the handler gives and leaves with `BEGIN` and `ROLLBACK` as statements of their own; and no
-- transaction is left open, whichever of the statements fail.
pub list_nodes_of-Agrees :
    (etag_of : String → String) (s : SqlStore) (tenant_id model_id id : String) (h : Host)
    → is_live s.db h.dbs ≡ true
    → Agrees h
        (list_nodes_of (as_store etag_of s) tenant_id model_id id h)
        (list_nodes tenant_id model_id id h.world)
unfolding list_nodes_of list_nodes as_store begin_tx begin_db begin_query refuse_if
list_nodes_of-Agrees etag_of s tenant_id model_id id h e =
    elim (Bool-cases (tenant_id == "" || model_id == "")) [
      | inl bad ↦ rw bad (refl, refl, Same-refl h)
      | inr good ↦ rw good (
          rw (through_usable (pool s.db) signal h e)
            (begun-Agrees etag_of s tenant_id id h (signal h.world)))
    ]
