-- ===== src/Process.antt =====
-- The process of cmd/contrato/main.go on its host: the store that `New` of internal/app/app.go and
-- `main` open, the HTTP server, and the deferred calls. `log.Fatalf` ends the process without them.
pub mod Waiting
pub mod Released
pub mod Started
use contrato_core.Base.{
  ℕ, String, ◌<>◌, Bool, true, false, not, ◌||◌, Option, none, some, ◌==◌, string_eq, if◌then◌else◌,
}
use contrato_core.Json.{Map, text, field, end}
use contrato_core.Storage.{Result, ok, err, message, error_text}
use contrato_core.Storage.Server.{World}
use contrato_core.Storage.Exec.{Exec}
use contrato_core.Storage.Host.{Host, Op, close_db, start_timer, stop_timer}
use contrato_core.Store.{SqlStore}
use contrato_core.Store.Driver.{Driver, Goose, migrate, open_store}
use contrato_core.Access.{Config, App, Provider, Engine, select_authn, select_authz, features}
use contrato_core.Bundle.{Bundle}
use contrato_core.Bundle.Lint.{LintReport}
use contrato_core.Bundle.Import.{Options}
use contrato_core.CommandLine.{
  Flags, Outcome, fatal, finished, serving, is_set, lint_file, with_store,
}

-- `map[string]any{"dsn": cfg.PostgresDSN}`
abbrev pub dsn_config : String → Map
dsn_config dsn = some (field "dsn" (text dsn) end)

-- `pg.Driver{Migrate: migrate.Run}`, with what it opens.
abbrev pub connect_store :
    {Files : Type 0} → (String → Option String) → Goose Files → Files → Map → Op SqlStore
connect_store dsn_error goose files =
    open_store dsn_error (record { migrate = some (migrate goose files) })

abbrev pub or_return :
    {A B : Type 0} → Result A → Host → (A → Host → Result B × Host) → Result B × Host
or_return (ok a) h next = next a h
or_return (err x) h next = (err x, h)

abbrev pub built : Config → Provider → Engine → SqlStore → App SqlStore
built cfg an az st = record {
  cfg = cfg;
  store = st;
  authn = an;
  authz = az;
  enabled = features cfg.license_key;
}

abbrev pub app_of :
    Config → Provider → Engine → Result SqlStore × Host → Result (App SqlStore) × Host
app_of cfg an az (ok st, h) = (ok (built cfg an az st), h)
app_of cfg an az (err x, h) = (err x, h)

-- `Close` of app.go: the error of the store is dropped.
abbrev pub without_error : Result (Unit {0}) × Host → Host
without_error (_, h) = h

unfoldable pub close_app : App SqlStore → Host → Host
close_app a h = without_error (close_db a.store.db h)

-- `New` of app.go. `quote` is the verb `%q`, and `connect` opens the store of the driver.
unfoldable pub start_app : (String → String) → (Map → Op SqlStore) → Config → Op (App SqlStore)
start_app quote connect cfg h =
    if cfg.postgres_dsn == ""
    then (err (message "CONTRATO_PG_DSN is required"), h)
    else or_return (select_authn quote cfg) h λ an h1.
      or_return (select_authz quote cfg) h1
        λ az h2. app_of cfg an az (connect (dsn_config cfg.postgres_dsn) h2)

abbrev pub or_exit :
    {A : Type 0}
    → String
    → Result A × Host
    → (A → Host → Outcome SqlStore × Host)
    → Outcome SqlStore × Host
or_exit context (ok a, h) next = next a h
or_exit context (err x, h) next = (fatal (context <> ": " <> error_text x), h)

-- `defer`: what runs when `main` returns, and does not when it exits.
abbrev pub deferred : (Host → Host) → Outcome SqlStore × Host → Outcome SqlStore × Host
deferred last (fatal s, h) = (fatal s, h)
deferred last (finished s, h) = (finished s, last h)
deferred last (serving a, h) = (serving a, last h)

abbrev pub taken_over : Host → Outcome SqlStore × World → Outcome SqlStore × Host
taken_over h (o, w) = (o, record h { world = w })

-- `read_file`, `decode` and `shown` are as in CommandLine, and so are the two functions on bundles.
-- `listen` is what the HTTP server does until a signal comes, and `shut_down` is its `Shutdown`; both
-- handle requests.
module _ (read_file : String → Result String) (decode : String → Result Bundle)
    (shown : LintReport → String) (quote : String → String)
    (import_bundle export_bundle : SqlStore → Options → Exec (Unit {0}))
    (connect : Map → Op SqlStore) (listen shut_down : App SqlStore → Host → Host) where
  -- The import, the export and the bootstrap, once the store is open.
  unfoldable pub use_store : Flags → SqlStore → Host → Outcome SqlStore × Host
  use_store f st h =
      deferred (λ h'. without_error (close_db st.db h'))
        (taken_over h
          (with_store read_file decode shown import_bundle export_bundle (λ s. true) f st h.world))

  -- `Shutdown` with five seconds and `cancel()`, and then the deferred calls of `shutdownCancel` and of
  -- `Close`. `n` is the first context.
  abbrev pub stop_with : ℕ → App SqlStore → ℕ × Host → Host
  stop_with n a (m, h) = close_app a (stop_timer m (stop_timer n (shut_down a h)))

  unfoldable pub serve : ℕ → App SqlStore → Host → Outcome SqlStore × Host
  unfolding close_app
  serve n a h = (serving a, stop_with n a (start_timer (listen a h)))

  abbrev pub without_lint : ℕ → Flags → Config → Host → Outcome SqlStore × Host
  without_lint n f cfg h =
      if is_set f.import_path || (is_set f.export_path || is_set f.bootstrap_path)
      then or_exit "failed to open store" (connect (dsn_config cfg.postgres_dsn) h) (use_store f)
      else or_exit "failed to init app" (start_app quote connect cfg h) (serve n)

  -- `context.WithCancel`, and the deferred `cancel()`.
  abbrev pub with_cancel : Flags → Config → ℕ × Host → Outcome SqlStore × Host
  with_cancel f cfg (n, h) = deferred (stop_timer n) (
      if is_set f.lint_path
      then (lint_file read_file decode shown f.lint_path, h)
      else without_lint n f cfg h)

  unfoldable pub main : Flags → Config → Host → Outcome SqlStore × Host
  unfolding use_store serve
  main f cfg h = with_cancel f cfg (start_timer h)
