-- ===== src/CommandLine/Bootstrap.antt =====
-- What the command line writes, and when.
use contrato_core.Base.{
  ◌≡◌, ◌≢◌, ◌↔◌, ◌⊎◌, refl, String, Bool, true, false, ◌||◌, inl, inr, Bool-cases, arith, eq_iff,
  ◌==◌, string_eq, ◌<>◌, subst,
}
use contrato_core.Json.{Map}
use contrato_core.Storage.{Result, ok, err, Err, error_text}
use contrato_core.Storage.Server.{World}
use contrato_core.Storage.Exec.{Exec, ◌>>=◌, reject_if, pure}
use contrato_core.Access.{Config, App}
use contrato_core.Bundle.{Bundle}
use contrato_core.Bundle.Lint.{LintReport, enabled_model, bootstrap, lint_bundle}
use contrato_core.Bundle.Lint.Complete.{
  IsComplete, IsSeed, lint_bundle-IsComplete, lint_bundle-IsSeed,
}
use contrato_core.Bundle.Import.{Options, import_bundle, import_decoded}
use contrato_core.CommandLine.{
  Flags, Outcome, fatal, finished, bootstrap_options, lint_file, bootstrap_file, ran, run, is_set,
}

-- The file can be read and holds the bundle.
abbrev pub Holds : (String → Result String) → (String → Result Bundle) → String → Bundle → Type 0
Holds read_file decode path b = (raw : String) × (read_file path ≡ ok raw) × (decode raw ≡ ok b)

Result-cases : {A : Type 0} (r : Result A) → ((a : A) × (r ≡ ok a)) ⊎ ((e : Err) × (r ≡ err e))
Result-cases (ok a) = inl (a, refl)
Result-cases (err e) = inr (e, refl)

-- A file holds one bundle.
Holds-unique :
    (read_file : String → Result String) (decode : String → Result Bundle) (path : String)
    {b c : Bundle}
    → Holds read_file decode path b
    → Holds read_file decode path c
    → b ≡ c
Holds-unique read_file decode path (raw, r, s) (raw', r', s') =
    let same : raw ≡ raw' = ground arith in ground arith

-- How the program ends after a call, and what it leaves.
abbrev pub EndsAs :
    {S : Type 0} → String → String → Result (Unit {0}) × World → Outcome S × World → Type 0
EndsAs context done (ok u, w) o = o ≡ (finished done, w)
EndsAs context done (err e, w) o = o ≡ (fatal (context <> ": " <> error_text e), w)

ran-EndsAs :
    (S : Type 0) (context done : String) (r : Result (Unit {0}) × World)
    → EndsAs {S = S} context done r (ran context done r)
ran-EndsAs S context done (ok u, w) = refl
ran-EndsAs S context done (err e, w) = refl

module _ {S : Type 0} (read_file : String → Result String) (decode : String → Result Bundle)
    (shown : LintReport → String) where
  -- The lint of a file that holds a bundle ends well exactly if the bundle is complete.
  lint_file-IsComplete :
      (path : String) (b : Bundle)
      → Holds read_file decode path b
      → (lint_file {S = S} read_file decode shown path ≡ finished "lint ok") ↔ IsComplete b
  unfolding lint_file
  lint_file-IsComplete path b (raw, read, parsed) =
      let (forth, back) = lint_bundle-IsComplete b in
      rw (read, parsed)
        (
          λ s. forth (elim (Bool-cases (lint_bundle b enabled_model).is_ok) [
            | inl e ↦ e
            | inr e ↦ absurd (ground arith)
          ]),
          λ h. rw (back h) refl,
        )

  module _ (marshal : Map → String) (export_bundle : S → Options → Exec (Unit {0})) where
    -- `ImportBundle` on a store.
    abbrev pub import_on : S → Options → Exec (Unit {0})
    import_on st = import_bundle marshal read_file decode

    -- The import of the bundle into the tenant of the flags, as an enabled model.
    abbrev pub imported : Flags → Bundle → Exec (Unit {0})
    imported f = import_decoded marshal (record {
      with_contracts = f.with_contracts;
      tenant_name = f.tenant;
      output_path = "";
      input_path = f.bootstrap_path;
      enable_imported = true;
      change_note = f.note;
    })

    -- A file with a seed bundle is imported, and any other file is fatal and writes nothing.
    abbrev pub IsGuarded : Flags → World → Outcome S × World → Type 0
    IsGuarded f w o =
        ((b : Bundle)
          → Holds read_file decode f.bootstrap_path b
          → IsSeed b
          → EndsAs "bootstrap import failed" ("bootstrapped tenant/model from " <> f.bootstrap_path)
              (imported f b w) o)
        × (((b : Bundle) → Holds read_file decode f.bootstrap_path b → ¬ IsSeed b)
            → (text : String) × (o ≡ (fatal text, w)))

    -- The import reads the file again, and finds the same bundle.
    import_on-imported :
        (st : S) (f : Flags) (b : Bundle) (w : World)
        → f.bootstrap_path ≢ ""
        → Holds read_file decode f.bootstrap_path b
        → import_on st (bootstrap_options f) w ≡ imported f b w
    unfolding import_bundle ◌>>=◌ reject_if pure
    import_on-imported st f b w named (raw, read, parsed) =
        let given : (f.bootstrap_path == "") ≡ false = ground (arith, eq_iff f.bootstrap_path "") in
        rw (given, read, parsed) refl

    bootstrap_file-IsGuarded :
        (st : S) (f : Flags) (w : World)
        → f.bootstrap_path ≢ ""
        → IsGuarded f w (bootstrap_file read_file decode shown import_on export_bundle st f w)
    unfolding bootstrap_file
    bootstrap_file-IsGuarded st f w named = elim (Result-cases (read_file f.bootstrap_path)) [
      | inr (e, s) ↦ rw s (λ b (raw, r, _). absurd (ground arith), λ _. (_, refl))
      | inl (raw, read) ↦ elim (Result-cases (decode raw)) [
        | inr (e, s) ↦ (λ b h. absurd (unreadable raw e read s h), λ _. rw (read, s) (_, refl))
        | inl (b, parsed) ↦ elim (Bool-cases (lint_bundle b bootstrap).is_ok) [
          | inr bad ↦ (
            λ c h seed.
                let same = Holds-unique read_file decode f.bootstrap_path h (raw, read, parsed) in
                let good = (lint_bundle-IsSeed b).1 (subst IsSeed same seed) in
                absurd (ground arith),
            λ _. rw (read, parsed, bad) (_, refl),
          )
          | inl good ↦ (
            λ c h seed.
                let same = Holds-unique read_file decode f.bootstrap_path (raw, read, parsed) h in
                subst
                  (λ d.
                    EndsAs "bootstrap import failed"
                      ("bootstrapped tenant/model from " <> f.bootstrap_path) (imported f d w)
                      (bootstrap_file read_file decode shown import_on export_bundle st f w))
                  same
                  (rw (read, parsed, good, import_on-imported st f b w named (raw, read, parsed))
                    (ran-EndsAs S _ _ (imported f b w))),
            λ none_seeds. absurd (none_seeds b (raw, read, parsed) ((lint_bundle-IsSeed b).0 good)),
          )
        ]
      ]
    ]
      where
        unreadable :
            (raw : String) (e : Err) {b : Bundle}
            → read_file f.bootstrap_path ≡ ok raw
            → decode raw ≡ err e
            → Holds read_file decode f.bootstrap_path b
            → ⊥
        unreadable raw e read s (raw', read', parsed) =
            let same : raw ≡ raw' = ground arith in ground arith

    module _ (open_store : String → Result S) (has_db : S → Bool)
        (start : Config → Result (App S)) where
      -- With `-lint` nothing is written, whatever the other flags are, and the program ends well exactly
      -- if a file that holds a bundle holds a complete one.
      pub run-lint :
          (f : Flags) (cfg : Config) (w : World) (b : Bundle)
          → f.lint_path ≢ ""
          → Holds read_file decode f.lint_path b
          → ((run read_file decode shown import_on export_bundle open_store has_db start f cfg w).1
              ≡ w)
            × (((run read_file decode shown import_on export_bundle open_store has_db start f cfg
                    w).0
                  ≡ finished "lint ok")
                ↔ IsComplete b)
      unfolding run
      run-lint f cfg w b named holds =
          let given : (f.lint_path == "") ≡ false = ground (arith, eq_iff f.lint_path "") in
          rw given (refl, lint_file-IsComplete f.lint_path b holds)

      -- With `-bootstrap` and without `-lint`, and a store that opens and gives access to its database,
      -- whatever the other flags are: if the file holds a seed bundle, the program imports that bundle
      -- into the tenant of the flags, as an enabled model, and ends as the import ends; otherwise it
      -- ends with an error and nothing is written.
      pub run-IsGuarded :
          (f : Flags) (cfg : Config) (w : World) (st : S)
          → f.lint_path ≡ ""
          → f.bootstrap_path ≢ ""
          → open_store cfg.postgres_dsn ≡ ok st
          → has_db st ≡ true
          → IsGuarded f w
              (run read_file decode shown import_on export_bundle open_store has_db start f cfg w)
      unfolding run
      run-IsGuarded f cfg w st unset named opened access =
          let given : (f.bootstrap_path == "") ≡ false =
            ground (arith, eq_iff f.bootstrap_path "") in
          let any_path : (is_set f.import_path || (is_set f.export_path || is_set f.bootstrap_path))
              ≡ true =
            ground arith in
          let no_lint : (f.lint_path == "") ≡ true = ground (arith, eq_iff f.lint_path "") in
          rw (no_lint, any_path, opened, access, given) (bootstrap_file-IsGuarded st f w named)
