-- ===== src/Access/Guarded.antt =====
-- What the middleware leaves of the tables.
use contrato_core.Base.{Bool-cases, inl, inr, Option, none, some, ◌==◌, string_eq}
use contrato_core.Storage.{Result, ok, err}
use contrato_core.Storage.Server.{Db, World}
use contrato_core.Http.Guards.{Guards}
use contrato_core.Access.{
  Request, Provider, Engine, AuthnContext, CheckResponse, Next, access_request, authorized,
  authenticated, with_auth,
}

-- A request that is let through keeps what its handler keeps; one that is not changes nothing.
pub with_auth-Guards :
    {A : Type 0} (P : Db → Type 0) (an : Provider) (az : Engine) (next : Next A) (req : Request)
    → ((ac : Option AuthnContext) → Guards P (next ac req))
    → Guards P (with_auth an az next req)
unfolding with_auth authenticated authorized
with_auth-Guards {A} P an az next req g = record { at = go }
  where
    by_decision :
        (ac : AuthnContext) (r : Result CheckResponse) (w : World)
        → P w.db
        → P (authorized next ac req w r).1.db
    by_decision ac (err x) w p = p
    by_decision ac (ok dec) w p = elim (Bool-cases dec.is_allowed) [
      | inl e ↦ rw e ((g (some ac)).at w p)
      | inr e ↦ rw e p
    ]

    by_context :
        (r : Result AuthnContext) (w : World) → P w.db → P (authenticated az next req w r).1.db
    by_context (err x) w p = p
    by_context (ok ac) w p = by_decision ac (az.check (access_request ac req)) w p

    go : (w : World) → P w.db → P (with_auth an az next req w).1.db
    go w p = elim (Bool-cases (req.path == "/health")) [
      | inl e ↦ rw e ((g none).at w p)
      | inr e ↦ rw e (by_context (an.authenticate req) w p)
    ]
