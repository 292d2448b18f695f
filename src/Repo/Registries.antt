-- ===== src/Repo/Registries.antt =====
-- internal/storage/sqlstore: tenants_repo.go, types_repo.go and statuses_repo.go.
pub mod Upserts
use contrato_core.Base.{
  ℕ, suc, ◌+◌, ◌≤◌, ◌<◌, ◌≡◌, ◌≢◌, refl, String, Bool, true, false, Option, none, some, List, [],
  ◌∷◌, ◌++◌, ◌&&◌, ◌||◌, not, any, select, take, arith, ltb, leb, ℤ, pos, negsuc, if◌then◌else◌, Eq,
  ◌==◌, nat_eq, string_eq, int_eq, pair_eq, find, length, map,
}
use contrato_core.Storage.{Tenant, Kind, Status}
use contrato_core.Storage.Server.{Db, World, Server, has_tenant}
use contrato_core.Storage.Exec.{Exec, query_row, insert}

abbrev pub named : String → Tenant → Bool
named name t = t.name == name

-- `INSERT … ON CONFLICT (name) DO UPDATE`: the row that has the name, or a new one.
unfoldable pub tenant_of : String → World → Option Tenant
tenant_of name w = find (named name) w.db.tenants

abbrev pub upsert_tenant : String → World → Option Tenant → Tenant × Db
upsert_tenant name w (some t) = (t, w.db)
upsert_tenant name w none =
    let t : Tenant = record { id = w.server.uuid w.ran; name = name; version = 1 } in
    (t, record w.db { tenants = t ∷ w.db.tenants })

-- The primary key of a new row.
abbrev pub tenant_allowed : World → Option Tenant → Bool
tenant_allowed w (some t) = true
tenant_allowed w none = not (has_tenant w.db (w.server.uuid w.ran))

unfoldable pub create_tenant : String → Exec Tenant
unfolding tenant_of
create_tenant name =
    insert (λ w. tenant_allowed w (tenant_of name w)) λ w. upsert_tenant name w (tenant_of name w)

unfoldable pub get_tenant : String → Exec Tenant
get_tenant id = query_row λ w. find (λ t. t.id == id) w.db.tenants

unfoldable pub get_tenant_by_name : String → Exec Tenant
unfolding tenant_of
get_tenant_by_name name = query_row (tenant_of name)

abbrev pub is_kind : Kind → Kind → Bool
is_kind k r = r.tenant_id == k.tenant_id && (r.domain == k.domain && r.name == k.name)

-- `ON CONFLICT … DO UPDATE SET name=EXCLUDED.name` leaves the row as it is.
abbrev pub add_kind : Kind → List Kind → List Kind
add_kind k rs = if any (is_kind k) rs then rs else k ∷ rs

unfoldable pub create_type : Kind → Exec Kind
create_type k =
    insert (λ w. has_tenant w.db k.tenant_id)
      λ w. (k, record w.db { types = add_kind k w.db.types })

unfoldable pub get_type_by_name : String → String → String → Exec Kind
get_type_by_name tenant_id domain name =
    query_row λ w.
      find (is_kind (record { tenant_id = tenant_id; domain = domain; name = name })) w.db.types

abbrev pub is_status : Status → Status → Bool
is_status s r = r.tenant_id == s.tenant_id && (r.domain == s.domain && r.name == s.name)

abbrev pub add_status : Status → List Status → List Status
add_status s rs = if any (is_status s) rs then rs else s ∷ rs

unfoldable pub create_status : Status → Exec Status
create_status s =
    insert (λ w. has_tenant w.db s.tenant_id)
      λ w. (s, record w.db { statuses = add_status s w.db.statuses })

unfoldable pub get_status_by_name : String → String → String → Exec Status
get_status_by_name tenant_id domain name = query_row λ w.
    find (is_status (record { tenant_id = tenant_id; domain = domain; name = name })) w.db.statuses
