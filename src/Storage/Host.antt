-- ===== src/Storage/Host.antt =====
-- What the code uses of Go's database/sql and context packages: databases, transactions and timers,
-- each known by a number, and the statements that run through them. A context that is cancelled shows
-- only as a refused statement.
pub mod Handles
pub mod Numbers
pub mod Effects
use contrato_core.Base.{
  ℕ, suc, String, Bool, true, false, Option, none, some, List, [], ◌∷◌, any, ◌==◌, nat_eq,
  if◌then◌else◌,
}
use contrato_core.Storage.{Result, ok, err, message, refused}
use contrato_core.Storage.Server.{World}
use contrato_core.Storage.Exec.{Exec, query}

-- The process: what it sees of the service, the databases that are not closed, the transactions that
-- are neither committed nor rolled back, the contexts with a deadline that are not cancelled, and how
-- many of these were made so far.
pub record Host : Type 0 where
  pub world : World
  pub dbs : List ℕ
  pub txs : List ℕ
  pub timers : List ℕ
  pub made : ℕ

abbrev pub Op : Type 0 → Type 0
Op A = Host → Result A × Host

-- `*sql.Tx`: its number, and the `ReadOnly` that it was begun with.
pub record Txn : Type 0 where
  pub number : ℕ
  pub read_only : Bool

abbrev pub is_live : ℕ → List ℕ → Bool
is_live n live = any (λ m. m == n) live

abbrev pub erase : ℕ → List ℕ → List ℕ
erase n [] = []
erase n (m ∷ live) = if m == n then live else m ∷ erase n live

-- The service leaves its world to the process.
abbrev pub landed : {A : Type 0} → Host → Result A × World → Result A × Host
landed h (r, w) = (r, record h { world = w })

-- Every statement fails with one text. The service decides on the other statements as before.
abbrev pub deaf : String → World → World
deaf why w = record w { server = record w.server { refuses = λ n. some why } }

abbrev pub heard_again : {A : Type 0} → World → Result A × World → Result A × World
heard_again w (r, v) = (r, record v { server = w.server })

unfoldable pub cut_off : {A : Type 0} → String → Exec A → Exec A
cut_off why m w = heard_again w (m (deaf why w))

abbrev pub reaching : {A : Type 0} → Bool → String → Exec A → Exec A
reaching live why m w = if live then m w else cut_off why m w

abbrev pub db_closed : String
db_closed = "sql: database is closed"

abbrev pub tx_done : String
tx_done = "sql: transaction has already been committed or rolled back"

-- `querier` of tx.go: a `*sql.DB` or a `*sql.Tx`.
pub data Querier : Type 0 where
  pool : ℕ → Querier
  in_tx : Txn → Querier

abbrev pub is_usable : Querier → Host → Bool
is_usable (pool d) h = is_live d h.dbs
is_usable (in_tx t) h = is_live t.number h.txs

abbrev pub why_not : Querier → String
why_not (pool d) = db_closed
why_not (in_tx t) = tx_done

-- Statements that are sent through a querier.
unfoldable pub through : {A : Type 0} → Querier → Exec A → Op A
through q m h = landed h (reaching (is_usable q h) (why_not q) m h.world)

-- A message to the service that touches no table: a ping, `BEGIN`, `COMMIT` and `ROLLBACK`.
abbrev pub signal : Exec (Unit {0})
signal = query λ w. tt

-- `sql.Open`. `refusal` is the error by which the driver rejects the DSN. No statement is sent.
unfoldable pub open_db : Option String → Op ℕ
open_db none h = (ok h.made, record h { dbs = h.made ∷ h.dbs; made = suc h.made })
open_db (some why) h = (err (refused why), h)

unfoldable pub ping : ℕ → Op (Unit {0})
unfolding through
ping d = through (pool d) signal

-- `DB.Close`: the database is closed also if the service does not take the farewell, and closing it
-- again does nothing.
abbrev pub closed : ℕ → Result (Unit {0}) × Host → Result (Unit {0}) × Host
closed d (r, h) = (r, record h { dbs = erase d h.dbs })

unfoldable pub close_db : ℕ → Op (Unit {0})
close_db d h = if is_live d h.dbs then closed d (landed h (signal h.world)) else (ok tt, h)

-- `DB.BeginTx`.
abbrev pub begun : Bool → Result (Unit {0}) × Host → Result Txn × Host
begun read_only (ok _, h) = (
  ok (record { number = h.made; read_only = read_only }),
  record h { txs = h.made ∷ h.txs; made = suc h.made },
)
begun read_only (err x, h) = (err x, h)

unfoldable pub begin_db : ℕ → Bool → Op Txn
unfolding through
begin_db d read_only h = begun read_only (through (pool d) signal h)

-- `Tx.Commit` and `Tx.Rollback`: the transaction is over also if the service fails, and cannot be
-- ended twice.
abbrev pub ended : Txn → Result (Unit {0}) × Host → Result (Unit {0}) × Host
ended t (r, h) = (r, record h { txs = erase t.number h.txs })

unfoldable pub end_tx : Txn → Op (Unit {0})
end_tx t h =
    if is_live t.number h.txs
    then ended t (landed h (signal h.world))
    else (err (message tx_done), h)

-- `context.WithTimeout`, and the function that it returns.
unfoldable pub start_timer : Host → ℕ × Host
start_timer h = (h.made, record h { timers = h.made ∷ h.timers; made = suc h.made })

unfoldable pub stop_timer : ℕ → Host → Host
stop_timer n h = record h { timers = erase n h.timers }
