-- ===== src/Tests/Stores.antt =====
-- A store on the small database: its opening, a transaction, and what is over.
use contrato_core.Base.{refl, String, true, Option, none, some, [], ◌∷◌, pos, arith}
use contrato_core.Storage.{ok, TxOptions}
use contrato_core.Storage.Host.{Host, pool, in_tx, through, signal}
use contrato_core.Storage.Host.Handles.{Same-refl, through-Borrows}
use contrato_core.Storage.Host.Numbers.{IsTidy}
use contrato_core.Store.{SqlStore, SqlTx, repositories, as_store, begin_tx}
use contrato_core.Store.Driver.{Goose, migrate, Driver, open_store}
use contrato_core.Store.Driver.Owned.{
  IsOwned, GooseBorrows, MigrationBorrows, migrate-Borrows, open_store-IsOwned,
}
use contrato_core.Store.Lifetimes.{IsSettled, begin_tx-IsSettled}
use contrato_core.Store.Requests.{get_node, request}
use contrato_core.Store.Refusals.{IsRefused}
use contrato_core.Store.History.{opens, pings, rollbacks, happen, happen_all}
use contrato_core.Store.History.Over.{happen_all-refuses}
use contrato_core.Http.Graph.{list_nodes}
use contrato_core.Http.Graph.Transaction.{list_nodes_of}
use contrato_core.Http.Graph.Transaction.Agrees.{Agrees, list_nodes_of-Agrees}
use contrato_core.Process.{dsn_config}
use contrato_core.Tests.{world}

-- Migrations that send one message to the service.
abbrev pub goose : Goose String
goose = record {
  set_base_fs = λ files h. h;
  set_dialect = λ name h. (ok tt, h);
  up = λ db dir. through (pool db) signal;
}

pub goose-Borrows : GooseBorrows goose
goose-Borrows = record {
  set_base_fs = λ files h. Same-refl h;
  set_dialect = λ name h. Same-refl h;
  up = λ db dir. through-Borrows (pool db) signal;
}

abbrev pub any_dsn : String → Option String
any_dsn dsn = none

abbrev pub same_etag : String → String
same_etag payload = payload

abbrev driver : Driver
driver = record { migrate = some (migrate goose "*.sql") }

driver-Borrows : MigrationBorrows driver.migrate
driver-Borrows = migrate-Borrows goose "*.sql" goose-Borrows

-- One open database, and a transaction with a deadline.
abbrev pub host : Host
host = record { world = world; dbs = 0 ∷ []; txs = 2 ∷ []; timers = 1 ∷ []; made = 3 }

abbrev store : SqlStore
store = record { db = 0; cap = [] }

abbrev tx : SqlTx
tx = record { tx = record { number = 2; read_only = true }; cap = []; cancel = some 1 }

pub host-IsTidy : IsTidy host
host-IsTidy = record {
  dbs = (omega arith, tt);
  txs = (omega arith, tt);
  timers = (omega arith, tt);
}

open_store-IsOwned_example : IsOwned host (open_store any_dsn driver (dsn_config "db") host)
open_store-IsOwned_example = open_store-IsOwned any_dsn driver (dsn_config "db") host driver-Borrows

abbrev timed : TxOptions
timed = record { read_only = true; timeout = pos 5 }

begin_tx-IsSettled_example :
    IsSettled host (begin_tx store timed host).1 (begin_tx store timed host).0
begin_tx-IsSettled_example =
    begin_tx-IsSettled store timed host (begin_tx store timed host).1 (Same-refl _)

abbrev later : Host
later =
    happen_all any_dsn same_etag driver (opens (dsn_config "db") ∷ pings store ∷ [])
      (happen any_dsn same_etag driver (rollbacks tx) host)

happen_all-refuses_example :
    IsRefused later (request (repositories same_etag (in_tx tx.tx)) (get_node "t1" "n1") later)
happen_all-refuses_example =
    happen_all-refuses any_dsn same_etag driver (rollbacks tx) (in_tx tx.tx)
      (opens (dsn_config "db") ∷ pings store ∷ []) (get_node "t1" "n1") host refl host-IsTidy
      (omega arith) driver-Borrows

list_nodes_of-Agrees_example :
    Agrees host
      (list_nodes_of (as_store same_etag store) "t1" "m1" "n1" host)
      (list_nodes "t1" "m1" "n1" world)
list_nodes_of-Agrees_example = list_nodes_of-Agrees same_etag store "t1" "m1" "n1" host refl
