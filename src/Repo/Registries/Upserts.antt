-- ===== src/Repo/Registries/Upserts.antt =====
-- `Create` of tenants_repo.go for a name that is there.
use contrato_core.Base.{
  ◌≡◌, refl, sym, ap, ◌∙◌, String, Bool, true, false, Option, none, some, arith, string_eq,
  if◌then◌else◌, eq_iff, find,
}
use contrato_core.Storage.{ok, err, Tenant, refused}
use contrato_core.Storage.Server.{Db, World}
use contrato_core.Storage.Exec.{tick, insert, statement, answer}
use contrato_core.Storage.Statements.{query_row_ok}
use contrato_core.Repo.Registries.{
  named, tenant_of, upsert_tenant, create_tenant, get_tenant_by_name,
}

-- The world after a statement that put nothing or something into the tables.
inserted :
    {A : Type 0} (allowed : World → Bool) (write : World → A × Db) (w w' : World) (a : A)
    → insert allowed write w ≡ (ok a, w')
    → (a ≡ (write w).0) × (w' ≡ record (tick w) { db = (write w).1 })
unfolding insert statement
inserted allowed write w w' a s = go (allowed w) (w.server.refuses w.ran) s
  where
    go :
        (b : Bool) (refusal : Option String)
        → answer w (if b then ok (write w) else err (refused (w.server.violation w.ran))) refusal
          ≡ (ok a, w')
        → (a ≡ (write w).0) × (w' ≡ record (tick w) { db = (write w).1 })
    go true none s = (ground arith, ground arith)
    go false none s = absurd (ground arith)
    go b (some x) s = absurd (ground arith)

find-upsert :
    (name : String) (w : World) (o : Option Tenant)
    → find (named name) w.db.tenants ≡ o
    → find (named name) (upsert_tenant name w o).1.tenants ≡ some (upsert_tenant name w o).0
find-upsert name w (some t) s = s
find-upsert name w none s = ground (arith, eq_iff name name)

module _ (name : String) (w w' : World) (t : Tenant)
    (made : create_tenant name w ≡ (ok t, w')) where
  kept : tenant_of name w' ≡ some t
  unfolding tenant_of
  kept =
      let (a, s) = in_made in
      ap (λ (v : World). find (named name) v.db.tenants) s
      ∙ find-upsert name w (tenant_of name w) refl
      ∙ ap some (sym a)
    where
      in_made :
          (t ≡ (upsert_tenant name w (tenant_of name w)).0)
          × (w' ≡ record (tick w) { db = (upsert_tenant name w (tenant_of name w)).1 })
      in_made = unfold create_tenant in inserted _ _ w w' t made

  -- The tenant that `Create` returned is what `GetByName` finds, and creating it again returns it
  -- and leaves the tables as they are.
  pub create_tenant-again :
      w'.server.refuses w'.ran ≡ none
      → (get_tenant_by_name name w' ≡ (ok t, tick w')) × (create_tenant name w' ≡ (ok t, tick w'))
  create_tenant-again quiet = (
    unfold get_tenant_by_name in query_row_ok (tenant_of name) w' t quiet kept,
    unfold create_tenant insert statement in rw (quiet, kept) refl,
  )
