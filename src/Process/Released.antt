-- ===== src/Process/Released.antt =====
-- What the process of `main` has open when it returns.
use contrato_core.Base.{
  ℕ, suc, ◌<◌, refl, ◌∙◌, ap, String, true, ◌||◌, Bool-cases, inl, inr, Option, ◌∷◌, arith,
  string_eq, if◌then◌else◌,
}
use contrato_core.Json.{Map}
use contrato_core.Storage.{Result, ok, err}
use contrato_core.Storage.Exec.{Exec}
use contrato_core.Storage.Host.{Host, Op, start_timer, stop_timer, erase}
use contrato_core.Storage.Host.Handles.{Same, WithDb, close_db-Same, erase_head}
use contrato_core.Storage.Host.Numbers.{IsTidy, is_live_above, erase_second}
use contrato_core.Store.{SqlStore}
use contrato_core.Store.Driver.{Goose}
use contrato_core.Store.Driver.Owned.{IsOwned, GooseBorrows}
use contrato_core.Access.{Config, App}
use contrato_core.Bundle.{Bundle}
use contrato_core.Bundle.Lint.{LintReport}
use contrato_core.Bundle.Import.{Options}
use contrato_core.CommandLine.{Flags, is_set, lint_file, with_store}
use contrato_core.Process.{
  dsn_config, connect_store, close_app, start_app, or_exit, use_store, serve, without_lint, main,
}
use contrato_core.Process.Started.{IsStarted, start_owned, connect_store-IsOwned}
use contrato_core.Process.Waiting.{IsReleased, WithTimer, IsWaiting, cancelled, closed_after, waits}

module _ (read_file : String → Result String) (decode : String → Result Bundle)
    (shown : LintReport → String) (quote : String → String)
    (import_bundle export_bundle : SqlStore → Options → Exec (Unit {0}))
    (connect : Map → Op SqlStore) (listen shut_down : App SqlStore → Host → Host) where
  served :
      (n : ℕ) (a : App SqlStore) (h h1 h2 : Host)
      → WithTimer n h h1
      → WithDb a.store.db h1 h2
      → ((h3 : Host) → Same h3 (listen a h3))
      → ((h3 : Host) → Same h3 (shut_down a h3))
      → Same h
          (serve read_file decode shown quote import_bundle export_bundle connect listen shut_down n
            a h2).1
  unfolding serve close_app start_timer stop_timer
  served n a h h1 h2 w d l s = close_db-Same (record {
    dbs = stopped.dbs ∙ listened.dbs ∙ d.dbs ∙ ap (λ xs. a.store.db ∷ xs) w.dbs;
    txs = stopped.txs ∙ listened.txs ∙ d.txs ∙ w.txs;
    timers =
        ap (λ xs. erase h3.made (erase n xs))
          (stopped.timers ∙ ap (λ xs. h3.made ∷ xs) (listened.timers ∙ d.timers ∙ w.timers))
        ∙ ap (erase h3.made) (erase_second n h3.made h.timers given)
        ∙ erase_head h3.made h.timers;
    fresh =
        (omega (arith, d.fresh.0, w.made), omega (arith, d.fresh.1, listened.made, stopped.made));
  })
    where
      h3 : Host
      h3 = listen a h2

      h4 : Host
      h4 = record h3 { timers = h3.made ∷ h3.timers; made = suc h3.made }

      listened : Same h2 h3
      listened = l h2

      stopped : Same h4 (shut_down a h4)
      stopped = s h4

      given : n < h3.made
      given = omega (arith, w.given, d.fresh.0, d.fresh.1, listened.made)

  opened_store :
      (n : ℕ) (f : Flags) (h h1 : Host) (o : Result SqlStore × Host)
      → WithTimer n h h1
      → IsOwned h1 o
      → IsWaiting n h (
          or_exit "failed to open store" o (
            use_store read_file decode shown quote import_bundle export_bundle connect listen
              shut_down f))
  unfolding use_store
  opened_store n f h h1 (ok st, h2) w d =
      closed_after n st h h1 h2
        (with_store read_file decode shown import_bundle export_bundle (λ s. true) f st h2.world) w
        d.0
  opened_store n f h h1 (err x, h2) w d = tt

  started_app :
      (n : ℕ) (cfg : Config) (expected : Result (App SqlStore)) (h h1 : Host)
      (o : Result (App SqlStore) × Host)
      → WithTimer n h h1
      → IsStarted h1 expected o
      → ((a : App SqlStore) (h3 : Host) → Same h3 (listen a h3))
      → ((a : App SqlStore) (h3 : Host) → Same h3 (shut_down a h3))
      → IsWaiting n h (
          or_exit "failed to init app" o (
            serve read_file decode shown quote import_bundle export_bundle connect listen shut_down
              n))
  unfolding serve
  started_app n cfg expected h h1 (ok a, h2) w d l s = inr (served n a h h1 h2 w d.1 (l a) (s a))
  started_app n cfg expected h h1 (err x, h2) w d l s = tt

  decided :
      (n : ℕ) (f : Flags) (cfg : Config) (h h1 : Host)
      → WithTimer n h h1
      → ((m : Map) (h2 : Host) → IsOwned h2 (connect m h2))
      → ((a : App SqlStore) (h2 : Host) → Same h2 (listen a h2))
      → ((a : App SqlStore) (h2 : Host) → Same h2 (shut_down a h2))
      → IsWaiting n h (
          if is_set f.lint_path
          then (lint_file read_file decode shown f.lint_path, h1)
          else without_lint read_file decode shown quote import_bundle export_bundle connect listen
              shut_down n f cfg h1)
  decided n f cfg h h1 w o l s = elim (Bool-cases (is_set f.lint_path)) [
    | inl e ↦ rw e (waits (lint_file read_file decode shown f.lint_path) w)
    | inr e ↦
        rw e
          (elim (Bool-cases
            (is_set f.import_path || (is_set f.export_path || is_set f.bootstrap_path))) [
              | inl u ↦ rw u (
                  opened_store n f h h1 (connect (dsn_config cfg.postgres_dsn) h1) w
                    (o (dsn_config cfg.postgres_dsn) h1))
              | inr u ↦ rw u (
                  started_app n cfg _ h h1 (start_app quote connect cfg h1) w
                    (start_owned quote connect cfg h1 o) l s)
            ])
  ]

  main_owned :
      (f : Flags) (cfg : Config) (h : Host)
      → IsTidy h
      → ((m : Map) (h1 : Host) → IsOwned h1 (connect m h1))
      → ((a : App SqlStore) (h1 : Host) → Same h1 (listen a h1))
      → ((a : App SqlStore) (h1 : Host) → Same h1 (shut_down a h1))
      → IsReleased h (
          main read_file decode shown quote import_bundle export_bundle connect listen shut_down f
            cfg h)
  unfolding main start_timer
  main_owned f cfg h t o l s =
      cancelled h.made h _ (is_live_above h.made h.made h.timers (omega arith) t.timers) (
        decided h.made f cfg h _
          (record {
            dbs = refl;
            txs = refl;
            timers = refl;
            made = omega arith;
            given = omega arith;
          })
          o l s)

module _ (read_file : String → Result String) (decode : String → Result Bundle)
    (shown : LintReport → String) (quote : String → String)
    (import_bundle export_bundle : SqlStore → Options → Exec (Unit {0}))
    (dsn_error : String → Option String) {Files : Type 0} (goose : Goose Files) (files : Files)
    (listen shut_down : App SqlStore → Host → Host) where
  -- Where neither the migrations of goose nor the handling of requests leave anything open or close
  -- what they did not open: if the process returns, because a command is done or because a signal
  -- stopped the server, it has open the databases, transactions and timers that it had before, and
  -- no others.
  pub main-IsReleased :
      (f : Flags) (cfg : Config) (h : Host)
      → IsTidy h
      → GooseBorrows goose
      → ((a : App SqlStore) (h1 : Host) → Same h1 (listen a h1))
      → ((a : App SqlStore) (h1 : Host) → Same h1 (shut_down a h1))
      → IsReleased h (
          main read_file decode shown quote import_bundle export_bundle
            (connect_store dsn_error goose files)
            listen
            shut_down
            f
            cfg
            h)
  main-IsReleased f cfg h t g l s =
      main_owned read_file decode shown quote import_bundle export_bundle
        (connect_store dsn_error goose files) listen shut_down f cfg h t
        (connect_store-IsOwned dsn_error goose files g) l s
