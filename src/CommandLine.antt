-- ===== src/CommandLine.antt =====
-- `main` of cmd/contrato/main.go, up to the start of the HTTP server.
pub mod Bootstrap
use contrato_core.Base.{String, ◌<>◌, Bool, true, false, not, ◌||◌, ◌==◌, string_eq, if◌then◌else◌}
use contrato_core.Json.{Map}
use contrato_core.Storage.{Result, ok, err, Err, error_text}
use contrato_core.Storage.Server.{World}
use contrato_core.Storage.Exec.{Exec}
use contrato_core.Access.{Config, App}
use contrato_core.Bundle.{Bundle}
use contrato_core.Bundle.Lint.{LintMode, LintReport, enabled_model, bootstrap, lint_bundle}
use contrato_core.Bundle.Import.{Options}

-- The flags.
pub record Flags : Type 0 where
  pub import_path : String
  pub export_path : String
  pub tenant : String
  pub enable : Bool
  pub note : String
  pub with_contracts : Bool
  pub lint_path : String
  pub bootstrap_path : String

-- `log.Fatalf`, a return after `log.Printf`, and the start of the server.
pub data Outcome (S : Type 0) : Type 0 where
  fatal : String → Outcome S
  finished : String → Outcome S
  serving : App S → Outcome S

abbrev pub bootstrap_options : Flags → Options
bootstrap_options f = record {
  with_contracts = f.with_contracts;
  tenant_name = f.tenant;
  output_path = "";
  input_path = f.bootstrap_path;
  enable_imported = true;
  change_note = f.note;
}

abbrev pub export_options : Flags → Options
export_options f = record {
  with_contracts = f.with_contracts;
  tenant_name = f.tenant;
  output_path = f.export_path;
  input_path = "";
  enable_imported = false;
  change_note = "";
}

abbrev pub import_options : Flags → Options
import_options f = record {
  with_contracts = f.with_contracts;
  tenant_name = f.tenant;
  output_path = "";
  input_path = f.import_path;
  enable_imported = f.enable;
  change_note = f.note;
}

abbrev pub is_set : String → Bool
is_set path = not (path == "")

module _ {S : Type 0} where
  -- A call that is fatal if it fails.
  abbrev pub or_fatal : {A : Type 0} → String → Result A → (A → Outcome S) → Outcome S
  or_fatal context (ok a) next = next a
  or_fatal context (err e) next = fatal (context <> ": " <> error_text e)

  abbrev pub ran : {A : Type 0} → String → String → Result A × World → Outcome S × World
  ran context done (ok a, w) = (finished done, w)
  ran context done (err e, w) = (fatal (context <> ": " <> error_text e), w)

  -- The report of a bundle that fails the lint is fatal. `shown` is its JSON text.
  abbrev pub checked : (LintReport → String) → String → LintReport → Outcome S → Outcome S
  checked shown context rep good = if rep.is_ok then good else fatal (context <> ":\n" <> shown rep)

  -- The same where statements follow.
  abbrev pub checked_first :
      (LintReport → String)
      → String
      → LintReport
      → (World → Outcome S × World)
      → World
      → Outcome S × World
  checked_first shown context rep next w =
      if rep.is_ok then next w else (fatal (context <> ":\n" <> shown rep), w)

  abbrev pub or_fatal_first :
      {A : Type 0} → String → Result A → (A → World → Outcome S × World) → World → Outcome S × World
  or_fatal_first context (ok a) next w = next a w
  or_fatal_first context (err e) next w = (fatal (context <> ": " <> error_text e), w)

-- `read_file` is `os.ReadFile`, and `decode` is `json.Unmarshal` into a bundle.
module _ {S : Type 0} (read_file : String → Result String) (decode : String → Result Bundle)
    (shown : LintReport → String) where
  unfoldable pub lint_file : String → Outcome S
  lint_file path = or_fatal "lint read failed" (read_file path) λ raw.
      or_fatal "lint parse failed" (decode raw)
        λ b. checked shown "lint failed" (lint_bundle b enabled_model) (finished "lint ok")

  -- `import_bundle` and `export_bundle` are `ImportBundle` and `ExportLatestEnabled` on a store. They
  -- read the file again.
  module _ (import_bundle export_bundle : S → Options → Exec (Unit {0})) where
    unfoldable pub bootstrap_file : S → Flags → World → Outcome S × World
    bootstrap_file st f = or_fatal_first "bootstrap read failed" (read_file f.bootstrap_path) λ raw.
        or_fatal_first "bootstrap parse failed" (decode raw) λ b.
          checked_first shown "bootstrap lint failed" (lint_bundle b bootstrap) λ w.
            ran "bootstrap import failed" ("bootstrapped tenant/model from " <> f.bootstrap_path)
              (import_bundle st (bootstrap_options f) w)

    unfoldable pub export_file : S → Flags → World → Outcome S × World
    export_file st f w =
        ran "export failed" ("exported model bundle to " <> f.export_path)
          (export_bundle st (export_options f) w)

    unfoldable pub import_file : S → Flags → World → Outcome S × World
    import_file st f w =
        ran "import failed" ("imported model bundle from " <> f.import_path)
          (import_bundle st (import_options f) w)

    -- What is done with the store. `has_db` says whether it gives access to its database.
    abbrev pub with_store : (S → Bool) → Flags → S → World → Outcome S × World
    with_store has_db f st w =
        if not (has_db st)
        then (fatal "store does not support export/import", w)
        else if is_set f.bootstrap_path
        then bootstrap_file st f w
        else if is_set f.export_path
        then export_file st f w
        else import_file st f w

    -- What is done with the store, and the server otherwise. `open_store` is the driver, which migrates
    -- the database, and `start` is `app.New`.
    module _ (open_store : String → Result S) (has_db : S → Bool)
        (start : Config → Result (App S)) where
      unfoldable pub run : Flags → Config → World → Outcome S × World
      run f cfg w =
          if is_set f.lint_path
          then (lint_file f.lint_path, w)
          else if is_set f.import_path || (is_set f.export_path || is_set f.bootstrap_path)
          then or_fatal_first "failed to open store" (open_store cfg.postgres_dsn)
              (with_store has_db f) w
          else (or_fatal "failed to init app" (start cfg) serving, w)
