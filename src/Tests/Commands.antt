-- ===== src/Tests/Commands.antt =====
-- Runs of the program, and a request.
use contrato_core.Base.{
  ◌≤◌, ◌≡◌, ◌≢◌, refl, String, none, some, true, false, [], ◌∷◌, select, length, arith, eq_iff,
  ◌==◌, string_eq,
}
use contrato_core.Json.{Map}
use contrato_core.Storage.{Result, ok}
use contrato_core.Storage.Exec.{Exec, pure}
use contrato_core.Access.{Config, App, Features}
use contrato_core.Bundle.{Bundle}
use contrato_core.Bundle.Lint.{LintReport}
use contrato_core.Bundle.Import.{Options}
use contrato_core.CommandLine.{Flags, run}
use contrato_core.CommandLine.Bootstrap.{IsGuarded, import_on, run-IsGuarded}
use contrato_core.Routes.{routes}
use contrato_core.Routes.Unambiguous.{accepts, routes-fit}
use contrato_core.Tests.{world}
use contrato_core.Tests.Bundles.{with_target}
use contrato_core.Tests.Callers.{config, app}

abbrev pub flags : String → String → Flags
flags lint_path bootstrap_path = record {
  import_path = "";
  export_path = "";
  tenant = "acme";
  enable = false;
  note = "";
  with_contracts = false;
  lint_path = lint_path;
  bootstrap_path = bootstrap_path;
}

abbrev pub read_file : String → Result String
read_file path = ok path

abbrev pub decode : String → Result Bundle
decode raw = ok (with_target "c")

abbrev pub shown : LintReport → String
shown rep = "{}"

abbrev marshal : Map → String
marshal none = "null"
marshal (some fs) = "{}"

abbrev does_nothing : String → Options → Exec (Unit {0})
does_nothing st opts = pure tt

abbrev open_store : String → Result String
open_store dsn = ok dsn

abbrev start : Config → Result (App String)
start cfg = ok app

named : (s : String) → (s == "") ≡ false → s ≢ ""
named s h e = absurd (ground (arith, eq_iff s ""))

run-IsGuarded_example :
    IsGuarded read_file decode shown marshal does_nothing (flags "" "core.json") world (
      run read_file decode shown
        (import_on read_file decode shown marshal does_nothing)
        does_nothing
        open_store
        (λ st. true)
        start
        (flags "" "core.json")
        config
        world)
run-IsGuarded_example =
    run-IsGuarded read_file decode shown marshal does_nothing open_store (λ st. true) start
      (flags "" "core.json") config world "db" refl (named "core.json" refl) refl refl

abbrev all_features : Features
all_features = record { frontier = true; waypoint = true; meridian = true }

routes-fit_example :
    length (select (accepts "GET" ("v0" ∷ "analysis" ∷ "holes" ∷ [])) (routes all_features true))
    ≤ 1
routes-fit_example = routes-fit all_features true "GET" ("v0" ∷ "analysis" ∷ "holes" ∷ [])
