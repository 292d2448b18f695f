-- ===== src/Access/Closed.antt =====
-- Whom the middleware lets through, and the server that `New` of internal/app/app.go builds.
use contrato_core.Base.{
  ◌≡◌, ◌≢◌, refl, sym, ◌∙◌, ap, String, Bool, true, false, not, ◌&&◌, some, ◌⊎◌, inl, inr, ◌==◌,
  string_eq, eq_iff, arith, if◌then◌else◌, Bool-cases,
}
use contrato_core.Storage.{Err, Result, ok, err}
use contrato_core.Storage.Server.{World}
use contrato_core.Http.{Response}
use contrato_core.Access.{
  Request, AuthnContext, Provider, Engine, CheckResponse, Next, Config, App, access_request,
  authorized, authenticated, with_auth, forbidden, unauthorized, noop_engine, noop_provider,
  select_authn, select_authz, new_app, ◌andthen◌,
}

-- The provider knows the caller, and the engine allows the caller to access the system.
abbrev pub IsAdmitted : Provider → Engine → Request → AuthnContext → Type 0
IsAdmitted an az req ac =
    (dec : CheckResponse) × (an.authenticate req ≡ ok ac)
    × (az.check (access_request ac req) ≡ ok dec)
    × (dec.is_allowed ≡ true)

abbrev pub IsRefused : {A : Type 0} → Response A × World → World → Type 0
IsRefused o w = (o ≡ (unauthorized, w)) ⊎ (o ≡ (forbidden, w))

ok_injective : {A : Type 0} (a b : A) → ok a ≡ ok b → a ≡ b
ok_injective a b s = ground arith

module _ {A : Type 0} (an : Provider) (az : Engine) (next : Next A) (req : Request)
    (w : World) where
  -- A request to another path than `/health` either reaches the handler, with the context of a
  -- caller that the provider knows and the engine allows, or no caller is admitted and it is answered
  -- 401 or 403 and leaves the world as it is.
  pub with_auth-cases :
      (req.path == "/health") ≡ false
      → ((ac : AuthnContext) × IsAdmitted an az req ac
          × (with_auth an az next req w ≡ next (some ac) req w))
        ⊎ (((ac : AuthnContext) → IsAdmitted an az req ac → ⊥)
            × IsRefused (with_auth an az next req w) w)
  unfolding with_auth
  with_auth-cases other = rw other (by_context (an.authenticate req) refl)
    where
      by_decision :
          (ac : AuthnContext) (r : Result CheckResponse)
          → an.authenticate req ≡ ok ac
          → az.check (access_request ac req) ≡ r
          → ((c : AuthnContext) × IsAdmitted an az req c
              × (authorized next ac req w r ≡ next (some c) req w))
            ⊎ (((c : AuthnContext) → IsAdmitted an az req c → ⊥)
                × IsRefused (authorized next ac req w r) w)
      by_decision ac (err x) s t = inr (λ c (dec, known, checked, _). cc, inr refl)
      by_decision ac (ok dec) s t = elim (Bool-cases dec.is_allowed) [
        | inl b ↦ inl (ac, (dec, s, t, b), rw b refl)
        | inr b ↦ inr (λ c (dec', known, checked, allowed). cc, inr (rw b refl))
      ]

      by_context :
          (r : Result AuthnContext)
          → an.authenticate req ≡ r
          → ((c : AuthnContext) × IsAdmitted an az req c
              × (authenticated az next req w r ≡ next (some c) req w))
            ⊎ (((c : AuthnContext) → IsAdmitted an az req c → ⊥)
                × IsRefused (authenticated az next req w r) w)
      by_context (err x) s = inr (λ c (dec, known, _, _). cc, inl refl)
      by_context (ok ac) s = by_decision ac (az.check (access_request ac req)) s refl

of_andthen :
    {A B : Type 0} (r : Result A) (f : A → Result B) (b : B)
    → (r andthen f) ≡ ok b
    → (a : A) × (r ≡ ok a) × (f a ≡ ok b)
of_andthen (ok a) f b s = (a, refl, s)
of_andthen (err x) f b s = absurd (ground arith)

module _ {A : Type 0} where
  -- A conditional that succeeds has taken a branch that does.
  of_then :
      (b : Bool) (r : Result A) (x : Err) (a : A)
      → (if b then r else err x) ≡ ok a
      → (b ≡ true) × (r ≡ ok a)
  of_then true r x a s = (refl, s)
  of_then false r x a s = absurd (ground arith)

  of_else :
      (b : Bool) (r : Result A) (x : Err) (a : A)
      → (if b then err x else r) ≡ ok a
      → (b ≡ false) × (r ≡ ok a)
  of_else true r x a s = absurd (ground arith)
  of_else false r x a s = (refl, s)

module _ (quote : String → String) (cfg : Config) where
  select_authn-noop :
      (an : Provider) → select_authn quote cfg ≡ ok an → an ≡ noop_provider "service:dev" "user:dev"
  unfolding select_authn
  select_authn-noop an s =
      sym (ok_injective _ an (of_then (cfg.authn_provider == "noop") _ _ an s).1)

  select_authz-noop :
      (az : Engine) → select_authz quote cfg ≡ ok az → cfg.env ≢ "dev" → az ≡ noop_engine false
  unfolding select_authz
  select_authz-noop az s away =
      let (_, t) = of_then (cfg.authz_provider == "noop") _ _ az s in
      let (closed, u) = of_else (cfg.noop_allow && not (cfg.env == "dev")) _ _ az t in
      let denies : cfg.noop_allow ≡ false = ground (arith, eq_iff cfg.env "dev") in
      sym (ok_injective _ az u) ∙ ap noop_engine denies

module _ {S : Type 0} (quote : String → String) (open_store : String → Result S) where
  -- The parts of a server that started outside `dev`.
  engine_outside_dev :
      (cfg : Config) (a : App S)
      → new_app quote open_store cfg ≡ ok a
      → cfg.env ≢ "dev"
      → (a.authz ≡ noop_engine false) × (a.authn ≡ noop_provider "service:dev" "user:dev")
  unfolding new_app
  engine_outside_dev cfg a s away =
      let (_, s1) = of_else (cfg.postgres_dsn == "") _ _ a s in
      let (an, known, s2) = of_andthen (select_authn quote cfg) _ a s1 in
      let (az, closed, s3) = of_andthen (select_authz quote cfg) _ a s2 in
      let (st, opened, s4) = of_andthen (open_store cfg.postgres_dsn) _ a s3 in
      let made = ok_injective _ a s4 in
      (
        ap (λ (b : App S). b.authz) (sym made) ∙ select_authz-noop quote cfg az closed away,
        ap (λ (b : App S). b.authn) (sym made) ∙ select_authn-noop quote cfg an known,
      )

  -- A server that started with an environment other than `dev` answers 403 to every request to
  -- another path than `/health`, and leaves the world as it is.
  pub new_app-IsClosed :
      {A : Type 0} (cfg : Config) (a : App S) (next : Next A) (req : Request) (w : World)
      → new_app quote open_store cfg ≡ ok a
      → cfg.env ≢ "dev"
      → (req.path == "/health") ≡ false
      → with_auth a.authn a.authz next req w ≡ (forbidden, w)
  unfolding with_auth new_app
  new_app-IsClosed cfg a next req w s away other =
      let (engine, provider) = engine_outside_dev cfg a s away in
      rw other (rw (engine, provider) refl)
