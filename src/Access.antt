-- ===== src/Access.antt =====
-- Who may call the API: internal/authn, internal/authz and their noop providers, the middleware of
-- internal/api/httpapi/middleware.go, internal/config and `New` of internal/app/app.go.
pub mod Closed
pub mod Guarded
use contrato_core.Base.{
  String, ◌<>◌, Bool, true, false, not, ◌&&◌, Option, none, some, List, [], ◌∷◌, ◌==◌, string_eq,
  if◌then◌else◌,
}
use contrato_core.Json.{Map, Json, text, field, end}
use contrato_core.Storage.{Err, message, Result, ok, err}
use contrato_core.Storage.Server.{World}
use contrato_core.Http.{Handler, Response, respond_error}

-- What the middleware reads of a request, and the headers that a provider may read.
pub record Request : Type 0 where
  pub path : String
  pub method : String
  pub headers : List (String × String)

pub record Principal : Type 0 where
  pub type : String
  pub id : String
  pub claims : Map

-- `authn.Context`
pub record AuthnContext : Type 0 where
  pub actor : Principal
  pub user : Option Principal
  pub tenant_id : String

-- `authn.Provider`
pub record Provider : Type 0 where
  pub name : String
  pub authenticate : Request → Result AuthnContext

pub record Subject : Type 0 where
  pub type : String
  pub id : String

-- `authz.Object`
pub record Target : Type 0 where
  pub type : String
  pub id : String

pub record CheckRequest : Type 0 where
  pub subject : Subject
  pub relation : String
  pub target : Target
  pub context : Map

pub record CheckResponse : Type 0 where
  pub is_allowed : Bool
  pub reason : String

pub record Tuple : Type 0 where
  pub subject : Subject
  pub relation : String
  pub target : Target

pub record Engine : Type 0 where
  pub name : String
  pub check : CheckRequest → Result CheckResponse
  pub write_tuples : List Tuple → List Tuple → Result (Unit {0})

-- `firstNonEmpty`
abbrev first_non_empty : String → String → String
first_non_empty v default = if not (v == "") then v else default

abbrev dev_claims : Map
dev_claims = some (field "env" (text "dev") end)

abbrev principal : String → String → Principal
principal type id = record { type = type; id = id; claims = dev_claims }

-- The provider of noop/noop.go, with its fields.
pub noop_provider : String → String → Provider
noop_provider actor_id user_id = record {
  name = "noop";
  authenticate = λ req. ok (record {
    actor = principal "service" (first_non_empty actor_id "service:dev");
    user = if not (user_id == "") then some (principal "user" user_id) else none;
    tenant_id = "";
  });
}

pub noop_engine : Bool → Engine
noop_engine allow = record {
  name = "noop";
  check = λ req.
      if allow
      then ok (record { is_allowed = true; reason = "noop allow" })
      else ok (record { is_allowed = false; reason = "noop deny" });
  write_tuples = λ writes deletes. ok tt;
}

unfoldable pub access_request : AuthnContext → Request → CheckRequest
access_request ac req = record {
  subject = record { type = ac.actor.type; id = ac.actor.id };
  relation = "access";
  target = record { type = "system"; id = "contrato" };
  context = some (field "path" (text req.path) (field "method" (text req.method) end));
}

-- The context of a request carries `none` until it is authenticated.
abbrev pub Next : Type 0 → Type 0
Next A = Option AuthnContext → Request → Handler A

abbrev no_principal : Principal
no_principal = record { type = ""; id = ""; claims = none }

-- `AuthnFromContext`, with the zero context where there is none.
unfoldable pub authn_from_context : Option AuthnContext → AuthnContext × Bool
authn_from_context none = (record { actor = no_principal; user = none; tenant_id = "" }, false)
authn_from_context (some ac) = (ac, true)

module _ {A : Type 0} where
  abbrev pub forbidden : Response A
  forbidden = respond_error 403 "forbidden"

  abbrev pub unauthorized : Response A
  unauthorized = respond_error 401 "unauthorized"

  authorized : Next A → AuthnContext → Request → World → Result CheckResponse → Response A × World
  authorized next ac req w (err x) = (forbidden, w)
  authorized next ac req w (ok dec) =
      if not dec.is_allowed then (forbidden, w) else next (some ac) req w

  authenticated : Engine → Next A → Request → World → Result AuthnContext → Response A × World
  unfolding authorized
  authenticated az next req w (err x) = (unauthorized, w)
  authenticated az next req w (ok ac) = authorized next ac req w (az.check (access_request ac req))

  unfoldable pub with_auth : Provider → Engine → Next A → Request → Handler A
  unfolding authenticated access_request
  with_auth an az next req w =
      if req.path == "/health"
      then next none req w
      else authenticated az next req w (an.authenticate req)

pub record Config : Type 0 where
  pub env : String
  pub http_addr : String
  pub postgres_dsn : String
  pub authn_provider : String
  pub authz_provider : String
  pub noop_allow : Bool
  pub license_key : String

pub record Features : Type 0 where
  pub frontier : Bool
  pub waypoint : Bool
  pub meridian : Bool

-- `LicenseConfig.Features`: both branches of the source enable everything.
unfoldable pub features : String → Features
features key =
    if key == ""
    then record { frontier = true; waypoint = true; meridian = true }
    else record { frontier = true; waypoint = true; meridian = true }

-- `getenv` is `os.Getenv` and `parse_bool` is `strconv.ParseBool`.
module _ (getenv : String → String) (parse_bool : String → Option Bool) where
  pub get_env : String → String → String
  get_env k default = if not (getenv k == "") then getenv k else default

  abbrev or_default : Bool → Option Bool → Bool
  or_default default none = default
  or_default default (some b) = b

  pub get_env_bool : String → Bool → Bool
  get_env_bool k default =
      if getenv k == "" then default else or_default default (parse_bool (getenv k))

  unfoldable pub from_env : Config
  unfolding get_env get_env_bool
  from_env = record {
    env = get_env "CONTRATO_ENV" "dev";
    http_addr = get_env "CONTRATO_HTTP_ADDR" ":8080";
    postgres_dsn = get_env "CONTRATO_PG_DSN" "";
    authn_provider = get_env "CONTRATO_AUTHN_PROVIDER" "noop";
    authz_provider = get_env "CONTRATO_AUTHZ_PROVIDER" "noop";
    noop_allow = get_env_bool "CONTRATO_AUTHZ_NOOP_ALLOW" false;
    license_key = get_env "CONTRATO_LICENSE_KEY" "";
  }

pub record App (S : Type 0) : Type 0 where
  pub cfg : Config
  pub store : S
  pub authn : Provider
  pub authz : Engine
  pub enabled : Features

-- The two switches over the names of the providers. `quote` is the verb `%q`.
module _ (quote : String → String) where
  unfoldable pub select_authn : Config → Result Provider
  unfolding noop_provider
  select_authn cfg =
      if cfg.authn_provider == "noop"
      then ok (noop_provider "service:dev" "user:dev")
      else err (message ("unknown authn provider " <> quote cfg.authn_provider))

  unfoldable pub select_authz : Config → Result Engine
  unfolding noop_engine
  select_authz cfg =
      if cfg.authz_provider == "noop"
      then if cfg.noop_allow && not (cfg.env == "dev")
        then err
            (message ("refusing noop authz allow outside dev (CONTRATO_ENV=" <> cfg.env <> ")"))
        else ok (noop_engine cfg.noop_allow)
      else err (message ("unknown authz provider " <> quote cfg.authz_provider))

infixl 10 ◌andthen◌
abbrev pub ◌andthen◌ : {A B : Type 0} → Result A → (A → Result B) → Result B
ok a andthen f = f a
err x andthen f = err x

-- `open_store` is the driver: it connects to the database of a DSN and migrates it.
module _ {S : Type 0} (quote : String → String) (open_store : String → Result S) where
  unfoldable pub new_app : Config → Result (App S)
  unfolding select_authn select_authz
  new_app cfg =
      if cfg.postgres_dsn == ""
      then err (message "CONTRATO_PG_DSN is required")
      else select_authn quote cfg andthen λ an. select_authz quote cfg andthen λ az.
          open_store cfg.postgres_dsn andthen λ st. ok (record {
            cfg = cfg;
            store = st;
            authn = an;
            authz = az;
            enabled = features cfg.license_key;
          })
