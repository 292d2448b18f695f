-- ===== src/Tests/Processes.antt =====
-- A process that starts, serves and stops.
use contrato_core.Base.{String}
use contrato_core.Json.{Map}
use contrato_core.Storage.Exec.{Exec, pure}
use contrato_core.Storage.Host.{Host, Op}
use contrato_core.Storage.Host.Handles.{Same-refl}
use contrato_core.Store.{SqlStore}
use contrato_core.Access.{App, new_app}
use contrato_core.Bundle.Import.{Options}
use contrato_core.Process.{dsn_config, connect_store, start_app, main}
use contrato_core.Process.Started.{IsStarted, start_app-IsStarted}
use contrato_core.Process.Released.{main-IsReleased}
use contrato_core.Process.Waiting.{IsReleased}
use contrato_core.Tests.Stores.{goose, goose-Borrows, any_dsn, host, host-IsTidy}
use contrato_core.Tests.Callers.{config}
use contrato_core.Tests.Commands.{flags, read_file, decode, shown}

abbrev connect : Map → Op SqlStore
connect = connect_store any_dsn goose "*.sql"

abbrev quote : String → String
quote s = s

abbrev no_writes : SqlStore → Options → Exec (Unit {0})
no_writes st opts = pure tt

abbrev idle : App SqlStore → Host → Host
idle a h = h

start_app-IsStarted_example :
    IsStarted host
      (new_app quote (λ dsn. (connect (dsn_config dsn) host).0) config)
      (start_app quote connect config host)
start_app-IsStarted_example =
    start_app-IsStarted quote any_dsn goose "*.sql" config host goose-Borrows

main-IsReleased_example : IsReleased host (
    main read_file decode shown quote no_writes no_writes connect idle idle
      (flags "" "")
      config
      host)
main-IsReleased_example =
    main-IsReleased read_file decode shown quote no_writes no_writes any_dsn goose "*.sql" idle idle
      (flags "" "") config host host-IsTidy goose-Borrows (λ a h. Same-refl h) (λ a h. Same-refl h)
