-- ===== src/Http/Graph/Transaction.antt =====
-- `ListNodes` of internal/api/httpapi/handlers/graph.go on the interfaces of the store, with its
-- transaction.
pub mod Agrees
use contrato_core.Base.{
  ◌≡◌, refl, sym, ap, String, Bool, true, false, not, ◌||◌, ◌==◌, string_eq, pos, nat_eq,
  Bool-cases, inl, inr, if◌then◌else◌,
}
use contrato_core.Storage.{Node, TxOptions, Result, ok, err}
use contrato_core.Storage.Server.{World}
use contrato_core.Storage.Exec.{Exec, query}
use contrato_core.Storage.Host.{
  Host, Txn, is_live, landed, ended, in_tx, reaching, tx_done, through, begin_db, end_tx, signal,
}
use contrato_core.Storage.Host.Handles.{Same, is_live_head}
use contrato_core.Storage.Interfaces.{Tx, Store}
use contrato_core.Repo.Graph.{get_node}
use contrato_core.Store.{SqlStore, SqlTx, repositories, as_store, as_tx, begin_tx, rollback}
use contrato_core.Http.{
  Response, bad_request, respond_ok, respond_error, internal_error, storage_error,
}
use contrato_core.Http.Graph.{list_nodes}

abbrev read_only : TxOptions
read_only = record { read_only = true; timeout = pos 0 }

abbrev found : Result Node × Host → Response Node × Host
found (ok n, h) = (respond_ok n, h)
found (err x, h) = (storage_error x, h)

-- `defer tx.Rollback(…)`, its error ignored.
abbrev after_rollback : Tx → Response Node × Host → Response Node × Host
after_rollback tx (r, h) = (r, (tx.rollback h).1)

list_one_in : Tx → String → String → Host → Response Node × Host
list_one_in tx tenant_id id h =
    if not (id == "") then found (tx.repositories.graph.get_node tenant_id id h) else (
      respond_error 501 "list all nodes requires model_id cursor paging (not yet implemented)",
      h,
    )

abbrev within : (Tx → Host → Response Node × Host) → Result Tx × Host → Response Node × Host
within body (ok tx, h) = after_rollback tx (body tx h)
within body (err x, h) = (internal_error x, h)

unfoldable pub list_nodes_of : Store → String → String → String → Host → Response Node × Host
unfolding list_one_in
list_nodes_of store tenant_id model_id id h =
    if tenant_id == "" || model_id == ""
    then (bad_request "tenant_id and model_id required", h)
    else within (λ tx. list_one_in tx tenant_id id) (store.begin_tx read_only h)
