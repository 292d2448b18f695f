-- ===== src/Store.antt =====
-- The store of internal/storage/sqlstore: store.go and tx.go. `Health` and `Close` are those of
-- database/sql.
pub mod Driver
pub mod Lifetimes
pub mod Requests
pub mod Refusals
pub mod History
use contrato_core.Base.{
  ℕ, String, Option, none, some, ℤ, pos, negsuc, Bool, true, false, ltb, if◌then◌else◌,
}
use contrato_core.Storage.{CapSet, TxOptions, Result, ok, err}
use contrato_core.Storage.Host.{
  Host, Op, Txn, Querier, pool, in_tx, through, ping, close_db, begin_db, end_tx, start_timer,
  stop_timer,
}
use contrato_core.Storage.Interfaces.{
  TenantRepo, TypeRepo, StatusRepo, PropertyRepo, ModelVersionRepo, ContractRepo, ObjectRepo,
  GraphRepo, Repositories, Tx, Store,
}
use contrato_core.Repo.ModelVersions
use contrato_core.Repo.Graph
use contrato_core.Repo.Properties.{get_property, put_property}
use contrato_core.Repo.Contracts.{get_contract, get_contract_version, put_contract, list_by_type}
use contrato_core.Repo.Objects
use contrato_core.Repo.Registries.{
  create_tenant, get_tenant, get_tenant_by_name, create_type, get_type_by_name, create_status,
  get_status_by_name,
}

-- `Store` and `Tx` of the package. `cancel` is the timer that `cancel()` stops.
pub record SqlStore : Type 0 where
  pub db : ℕ
  pub cap : CapSet

pub record SqlTx : Type 0 where
  pub tx : Txn
  pub cap : CapSet
  pub cancel : Option ℕ

-- The repositories over a querier. `etag_of` is SHA-256 in hexadecimal.
module _ (etag_of : String → String) where
  unfoldable pub repositories : Querier → Repositories
  repositories q = record {
    tenants = record {
      create = λ name. through q (create_tenant name);
      get = λ id. through q (get_tenant id);
      get_by_name = λ name. through q (get_tenant_by_name name);
    };
    types = record {
      create = λ t. through q (create_type t);
      get_by_name = λ tenant_id domain name. through q (get_type_by_name tenant_id domain name);
    };
    statuses = record {
      create = λ s. through q (create_status s);
      get_by_name = λ tenant_id domain name. through q (get_status_by_name tenant_id domain name);
    };
    properties = record {
      put = λ p opts. through q (put_property p opts);
      get = λ tenant_id owner_type owner_id key.
          through q (get_property tenant_id owner_type owner_id key);
    };
    model_versions = record {
      create = λ mv. through q (ModelVersions.create mv);
      get = λ tenant_id model_id v. through q (ModelVersions.get tenant_id model_id v);
      get_latest_enabled = λ tenant_id. through q (ModelVersions.get_latest_enabled tenant_id);
      list = λ tenant_id model_id page. through q (ModelVersions.list tenant_id model_id page);
    };
    contracts = record {
      get = λ tenant_id id. through q (get_contract tenant_id id);
      get_version = λ tenant_id id v. through q (get_contract_version tenant_id id v);
      put = λ rec opts. through q (put_contract rec opts);
      list_by_type =
          λ tenant_id domain type page. through q (list_by_type tenant_id domain type page);
    };
    objects = record {
      get_by_node_id = λ tenant_id node_id. through q (Objects.get_by_node_id tenant_id node_id);
      put = λ o opts. through q (Objects.put_object etag_of o opts);
      delete_by_node_id =
          λ tenant_id node_id. through q (Objects.delete_by_node_id tenant_id node_id);
    };
    graph = record {
      put_node = λ n opts. through q (Graph.put_node n opts);
      get_node = λ tenant_id id. through q (Graph.get_node tenant_id id);
      put_edge = λ x opts. through q (Graph.put_edge x opts);
      out_edges = λ tenant_id from_id domain type page.
          through q (Graph.out_edges tenant_id from_id domain type page);
    };
  }

-- `if cancel != nil { cancel() }`
abbrev pub cancel_with : Option ℕ → Host → Host
cancel_with none h = h
cancel_with (some n) h = stop_timer n h

abbrev pub or_cancel : CapSet → Option ℕ → Result Txn × Host → Result SqlTx × Host
or_cancel cap cancel (ok t, h) = (ok (record { tx = t; cap = cap; cancel = cancel }), h)
or_cancel cap cancel (err x, h) = (err x, cancel_with cancel h)

abbrev pub begin_with : SqlStore → Bool → Option ℕ → Op SqlTx
begin_with s read_only cancel h = or_cancel s.cap cancel (begin_db s.db read_only h)

abbrev pub begin_timed : SqlStore → Bool → ℕ × Host → Result SqlTx × Host
begin_timed s read_only (n, h) = begin_with s read_only (some n) h

abbrev pub is_positive : ℤ → Bool
is_positive (pos n) = ltb 0 n
is_positive (negsuc n) = false

unfoldable pub begin_tx : SqlStore → TxOptions → Op SqlTx
begin_tx s opts h =
    if is_positive opts.timeout
    then begin_timed s opts.read_only (start_timer h)
    else begin_with s opts.read_only none h

abbrev pub and_cancel : Option ℕ → Result (Unit {0}) × Host → Result (Unit {0}) × Host
and_cancel cancel (r, h) = (r, cancel_with cancel h)

unfoldable pub commit : SqlTx → Op (Unit {0})
commit t h = and_cancel t.cancel (end_tx t.tx h)

unfoldable pub rollback : SqlTx → Op (Unit {0})
rollback t h = and_cancel t.cancel (end_tx t.tx h)

module _ (etag_of : String → String) where
  -- The transaction as the interface shows it.
  unfoldable pub as_tx : SqlTx → Tx
  as_tx t = record {
    repositories = repositories etag_of (in_tx t.tx);
    commit = commit t;
    rollback = rollback t;
  }

  abbrev pub shown_tx : Result SqlTx × Host → Result Tx × Host
  shown_tx (ok t, h) = (ok (as_tx t), h)
  shown_tx (err x, h) = (err x, h)

  unfoldable pub as_store : SqlStore → Store
  as_store s = record {
    repositories = repositories etag_of (pool s.db);
    capabilities = s.cap;
    health = ping s.db;
    close = close_db s.db;
    begin_tx = λ opts h. shown_tx (begin_tx s opts h);
  }
