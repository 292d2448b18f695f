-- ===== src/Store/Driver.antt =====
-- `Open` of internal/storage/drivers/postgres/driver.go, and `Run` of internal/migrate/migrate.go.
pub mod Owned
use contrato_core.Base.{
  ℕ, String, ◌<>◌, Option, none, some, List, [], ◌∷◌, ◌==◌, string_eq, if◌then◌else◌,
}
use contrato_core.Json.{Map, at, as_text}
use contrato_core.Storage.{
  Capability, capability_name, CapSet, has, cap_tx, cap_doc, cap_kv, cap_cas, cap_graph, cap_ttl,
  Err, Result, ok, err, message, error_text,
}
use contrato_core.Storage.Host.{Host, Op, open_db, ping, close_db}
use contrato_core.Store.{SqlStore}

-- `NewCapSet`: a key that is set twice is there once.
abbrev pub with_cap : CapSet → Capability → CapSet
with_cap s c = if has s c then s else capability_name c ∷ s

abbrev pub with_caps : CapSet → List Capability → CapSet
with_caps s [] = s
with_caps s (c ∷ cs) = with_caps (with_cap s c) cs

unfoldable pub new_cap_set : List Capability → CapSet
new_cap_set cs = with_caps [] cs

-- The calls of github.com/pressly/goose. `Files` is the type of a file system.
pub record Goose (Files : Type 0) : Type 0 where
  pub set_base_fs : Files → Host → Host
  pub set_dialect : String → Op (Unit {0})
  pub up : ℕ → String → Op (Unit {0})

-- `return fmt.Errorf("…: %w", err)` if a call fails, and the next call otherwise.
abbrev pub or_wrapped :
    String → Result (Unit {0}) × Host → (Host → Result (Unit {0}) × Host) → Result (Unit {0}) × Host
or_wrapped context (ok _, h) next = next h
or_wrapped context (err x, h) next = (err (message (context <> ": " <> error_text x)), h)

-- `files` are the embedded migrations.
unfoldable pub migrate : {Files : Type 0} → Goose Files → Files → ℕ → Op (Unit {0})
migrate goose files db h =
    or_wrapped "migrate: set dialect" (goose.set_dialect "postgres" (goose.set_base_fs files h))
      λ h'. or_wrapped "migrate: up" (goose.up db "." h') λ h''. (ok tt, h'')

-- A driver is its optional migration.
pub record Driver : Type 0 where
  pub migrate : Option (ℕ → Op (Unit {0}))

abbrev pub driver_name : String
driver_name = "postgres"

abbrev pub or_empty : Option String → String
or_empty none = ""
or_empty (some s) = s

abbrev pub all_caps : List Capability
all_caps = cap_tx ∷ cap_doc ∷ cap_kv ∷ cap_cas ∷ cap_graph ∷ cap_ttl ∷ []

-- A call that fails closes the database, and the error of closing is dropped.
abbrev pub after_close : Err → Result (Unit {0}) × Host → Result SqlStore × Host
after_close x (_, h) = (err x, h)

abbrev pub or_close :
    ℕ → Result (Unit {0}) × Host → (Host → Result SqlStore × Host) → Result SqlStore × Host
or_close db (ok _, h) next = next h
or_close db (err x, h) next = after_close x (close_db db h)

abbrev pub run_migration : Option (ℕ → Op (Unit {0})) → ℕ → Op (Unit {0})
run_migration none db h = (ok tt, h)
run_migration (some run) db h = run db h

abbrev pub new_store : ℕ → Host → Result SqlStore × Host
new_store db h = (ok (record { db = db; cap = new_cap_set all_caps }), h)

abbrev pub connect : Driver → Result ℕ × Host → Result SqlStore × Host
connect d (ok db, h) =
    or_close db (ping db h)
      λ h'. or_close db (run_migration d.migrate db h') λ h''. new_store db h''
connect d (err x, h) = (err x, h)

-- `dsn_error` is what github.com/jackc/pgx says of a DSN that it does not take.
unfoldable pub open_store : (String → Option String) → Driver → Map → Op SqlStore
open_store dsn_error d cfg h = connect d (open_db (dsn_error (or_empty (as_text (at "dsn" cfg)))) h)
