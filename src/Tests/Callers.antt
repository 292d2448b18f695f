-- ===== src/Tests/Callers.antt =====
-- A request to a server outside `dev`.
use contrato_core.Base.{
  ◌≡◌, ◌≢◌, refl, String, true, false, [], arith, eq_iff, ◌⊎◌, string_eq, some,
}
use contrato_core.Storage.{Result, ok}
use contrato_core.Http.{respond_ok}
use contrato_core.Access.{
  Request, AuthnContext, Config, App, Next, noop_engine, noop_provider, new_app, with_auth,
  forbidden, features,
}
use contrato_core.Access.Closed.{IsAdmitted, IsRefused, with_auth-cases, new_app-IsClosed}
use contrato_core.Tests.{world}

abbrev pub config : Config
config = record {
  env = "prod";
  http_addr = ":80";
  postgres_dsn = "db";
  authn_provider = "noop";
  authz_provider = "noop";
  noop_allow = false;
  license_key = "";
}

abbrev open_store : String → Result String
open_store dsn = ok dsn

abbrev quote : String → String
quote s = s

abbrev pub app : App String
app = record {
  cfg = config;
  store = "db";
  authn = noop_provider "service:dev" "user:dev";
  authz = noop_engine false;
  enabled = record { frontier = true; waypoint = true; meridian = true };
}

abbrev request : Request
request = record { path = "/v0/contracts"; method = "GET"; headers = [] }

abbrev next : Next String
next ac req w = (respond_ok "hello", w)

app_starts : new_app quote open_store config ≡ ok app
unfolding new_app features
app_starts = refl

not_dev : config.env ≢ "dev"
not_dev e = absurd (ground (arith, eq_iff "prod" "dev"))

new_app-IsClosed_example : with_auth app.authn app.authz next request world ≡ (forbidden, world)
new_app-IsClosed_example =
    new_app-IsClosed quote open_store config app next request world app_starts not_dev refl

with_auth-cases_example :
    ((ac : AuthnContext) × IsAdmitted app.authn (noop_engine true) request ac
      × (with_auth app.authn (noop_engine true) next request world ≡ next (some ac) request world))
    ⊎ (((ac : AuthnContext) → IsAdmitted app.authn (noop_engine true) request ac → ⊥)
        × IsRefused (with_auth app.authn (noop_engine true) next request world) world)
with_auth-cases_example = with_auth-cases app.authn (noop_engine true) next request world refl
