-- ===== src/Store/History.antt =====
-- What a process does with stores and transactions over time, as a sequence of events.
pub mod Over
use contrato_core.Base.{◌+◌, ◌≤◌, ◌<◌, ℕ, String, Option, List, [], ◌∷◌}
use contrato_core.Json.{Map}
use contrato_core.Storage.{TxOptions}
use contrato_core.Storage.Host.{Host, Querier, ping, close_db}
use contrato_core.Store.{SqlStore, SqlTx, repositories, begin_tx, commit, rollback}
use contrato_core.Store.Driver.{Driver, open_store}
use contrato_core.Store.Requests.{Request, request}

pub data Event : Type 0 where
  opens : Map → Event
  pings closes : SqlStore → Event
  begins : SqlStore → TxOptions → Event
  commits rollbacks : SqlTx → Event
  calls : Querier → Request → Event

module _ (dsn_error : String → Option String) (etag_of : String → String) (d : Driver) where
  unfoldable pub happen : Event → Host → Host
  happen (opens cfg) h = (open_store dsn_error d cfg h).1
  happen (pings s) h = (ping s.db h).1
  happen (closes s) h = (close_db s.db h).1
  happen (begins s opts) h = (begin_tx s opts h).1
  happen (commits t) h = (commit t h).1
  happen (rollbacks t) h = (rollback t h).1
  happen (calls q r) h = (request (repositories etag_of q) r h).1

  unfoldable pub happen_all : List Event → Host → Host
  happen_all [] h = h
  happen_all (e ∷ es) h = happen_all es (happen e h)
