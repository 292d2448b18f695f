-- ===== src/Process/Started.antt =====
-- `New` of internal/app/app.go: what it opens, and what it returns.
use contrato_core.Base.{◌≡◌, refl, String, Option, some, Bool-cases, inl, inr, ◌==◌, string_eq}
use contrato_core.Json.{Map}
use contrato_core.Storage.{Result, ok, err}
use contrato_core.Storage.Host.{Host, Op}
use contrato_core.Storage.Host.Handles.{Same, Same-refl, WithDb}
use contrato_core.Store.{SqlStore}
use contrato_core.Store.Driver.{Goose, migrate}
use contrato_core.Store.Driver.Owned.{IsOwned, GooseBorrows, open_store-IsOwned, migrate-Borrows}
use contrato_core.Access.{
  Config, App, Provider, Engine, select_authn, select_authz, new_app, ◌andthen◌,
}
use contrato_core.Process.{dsn_config, connect_store, built, or_return, app_of, start_app}

-- The answer of a start on a host: that of a start whose store is opened apart. If it succeeds, the
-- database of the application is the only new one; if it fails, none is open.
abbrev pub IsStarted : Host → Result (App SqlStore) → Result (App SqlStore) × Host → Type 0
IsStarted h expected (ok a, h') = (ok a ≡ expected) × WithDb a.store.db h h'
IsStarted h expected (err x, h') = (err x ≡ expected) × Same h h'

module _ (quote : String → String) (connect : Map → Op SqlStore) (cfg : Config) (h : Host)
    (owned : (m : Map) (h1 : Host) → IsOwned h1 (connect m h1)) where
  opened :
      (an : Provider) (az : Engine) (o : Result SqlStore × Host)
      → IsOwned h o
      → IsStarted h (o.0 andthen λ st. ok (built cfg an az st)) (app_of cfg an az o)
  opened an az (ok st, h') w = (refl, w.0)
  opened an az (err x, h') s = (refl, s)

  with_engine :
      (an : Provider) (r : Result Engine)
      → IsStarted h
          (r andthen λ az.
            (connect (dsn_config cfg.postgres_dsn) h).0 andthen λ st. ok (built cfg an az st))
          (or_return r h λ az h2. app_of cfg an az (connect (dsn_config cfg.postgres_dsn) h2))
  with_engine an (ok az) = opened an az (connect (dsn_config cfg.postgres_dsn) h) (owned _ h)
  with_engine an (err x) = (refl, Same-refl h)

  with_provider :
      (r : Result Provider)
      → IsStarted h
          (r andthen λ an. select_authz quote cfg andthen λ az.
            (connect (dsn_config cfg.postgres_dsn) h).0 andthen λ st. ok (built cfg an az st))
          (or_return r h λ an h1.
            or_return
              (select_authz quote cfg)
              h1
              λ az h2. app_of cfg an az (connect (dsn_config cfg.postgres_dsn) h2))
  with_provider (ok an) = with_engine an (select_authz quote cfg)
  with_provider (err x) = (refl, Same-refl h)

  pub start_owned :
      IsStarted h
        (new_app quote (λ dsn. (connect (dsn_config dsn) h).0) cfg)
        (start_app quote connect cfg h)
  unfolding start_app new_app
  start_owned = elim (Bool-cases (cfg.postgres_dsn == "")) [
    | inl e ↦ rw e (refl, Same-refl h)
    | inr e ↦ rw e (with_provider (select_authn quote cfg))
  ]

pub connect_store-IsOwned :
    (dsn_error : String → Option String) {Files : Type 0} (goose : Goose Files) (files : Files)
    → GooseBorrows goose
    → (m : Map) (h : Host) → IsOwned h (connect_store dsn_error goose files m h)
connect_store-IsOwned dsn_error goose files g m h =
    open_store-IsOwned dsn_error (record { migrate = some (migrate goose files) }) m h
      (migrate-Borrows goose files g)

-- Where the migrations of goose leave nothing open and close nothing: `New` returns what it returns over the
-- store that the driver opens; if it fails, it leaves no database open, and if it
-- succeeds, the database of the application is the only one that it has opened.
pub start_app-IsStarted :
    (quote : String → String) (dsn_error : String → Option String) {Files : Type 0}
    (goose : Goose Files) (files : Files) (cfg : Config) (h : Host)
    → GooseBorrows goose
    → IsStarted h
        (new_app quote (λ dsn. (connect_store dsn_error goose files (dsn_config dsn) h).0) cfg)
        (start_app quote (connect_store dsn_error goose files) cfg h)
start_app-IsStarted quote dsn_error goose files cfg h g =
    start_owned quote (connect_store dsn_error goose files) cfg h
      (connect_store-IsOwned dsn_error goose files g)
