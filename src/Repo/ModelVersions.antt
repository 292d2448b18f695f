-- ===== src/Repo/ModelVersions.antt =====
-- internal/storage/sqlstore/model_versions_repo.go
use contrato_core.Base.{
  ℕ, ◌+◌, String, Bool, true, List, [], ◌∷◌, ◌&&◌, ◌||◌, not, any, select, take, ltb, leb, pos,
  negsuc, if◌then◌else◌, ◌==◌, nat_eq, string_eq, pair_eq,
}
use contrato_core.Table.{newest}
use contrato_core.Table.History.{has_version, row_at}
use contrato_core.Storage.{message, Page, ModelVersion}
use contrato_core.Storage.Server.{World, has_tenant}
use contrato_core.Repo.Versioned.{Versioned, max_version, insert_row}
use contrato_core.Storage.Exec.{or_else, Exec, pure, query, query_row, reject_if, ◌>>◌}

-- The columns (tenant_id, model_id).
abbrev pub key : ModelVersion → String × String
key r = (r.tenant_id, r.model_id)

abbrev pub version : ModelVersion → ℕ
version r = r.version

-- `if mv.Status == "" { mv.Status = "draft" }`
abbrev pub default_to : String → String → String
default_to d s = if s == "" then d else s

row : ModelVersion → String → ℕ → World → ModelVersion
row mv model_id v w = record mv {
  model_id = model_id;
  version = v;
  created_at = w.server.now w.ran;
  updated_at = 0;
}

-- `model_versions`: the primary key (tenant_id, model_id, version), the foreign key to `tenants`.
abbrev pub table : Versioned ModelVersion (String × String)
table = record {
  key = key;
  version = version;
  rows = λ d. d.model_versions;
  put = λ rs d. record d { model_versions = rs };
  admits = λ d r.
      has_tenant d r.tenant_id
      && not (any (has_version key version (key r) r.version) d.model_versions);
}

-- The row of the first `INSERT`, with a generated model id, and of the second, with the next
-- version of the model.
pub first : ModelVersion → World → ModelVersion
first mv w = row mv (w.server.uuid w.ran) 1 w

pub next : ModelVersion → World → ModelVersion
next mv w = row mv mv.model_id (max_version table (key mv) w + 1) w

unfoldable pub create : ModelVersion → Exec ModelVersion
unfolding row first next
create mv = do
  reject_if (mv.tenant_id == "") (message "tenant_id required")
  let mv' : ModelVersion = record mv { status = default_to "draft" mv.status }
  if mv'.model_id == "" then insert_row table (first mv') else insert_row table (next mv')

unfoldable pub get : String → String → ℕ → Exec ModelVersion
get tenant_id model_id v =
    query_row λ w. row_at key version (tenant_id, model_id) v w.db.model_versions

-- `WHERE tenant_id=$1 AND status='enabled'`
abbrev pub is_enabled : String → ModelVersion → Bool
is_enabled tenant_id r = r.tenant_id == tenant_id && r.status == "enabled"

abbrev pub created : ModelVersion → ℕ
created r = r.created_at

unfoldable pub get_latest_enabled : String → Exec ModelVersion
get_latest_enabled tenant_id =
    query_row λ w. newest created (is_enabled tenant_id) w.db.model_versions

-- What the other repositories do with a record that names no model: it is pinned to the latest
-- enabled one of the tenant.
unfoldable pub pinned : String → String → ℕ → Exec (String × ℕ)
pinned tenant_id model_id v =
    if model_id == "" || v == 0
    then or_else (get_latest_enabled tenant_id)
        (message "model_id/model_version required (no enabled model)")
        (λ mv. pure (mv.model_id, mv.version))
    else pure (model_id, v)

-- `ORDER BY model_id, version DESC`, by insertion.
place : (String → String → Bool) → ModelVersion → List ModelVersion → List ModelVersion
place before r [] = r ∷ []
place before r (x ∷ xs) =
    let rest = place before r xs in
    if r.model_id == x.model_id
    then (if ltb r.version x.version then x ∷ rest else r ∷ x ∷ xs)
    else if before r.model_id x.model_id
    then r ∷ x ∷ xs
    else x ∷ rest

sorted : (String → String → Bool) → List ModelVersion → List ModelVersion
sorted before [] = []
sorted before (r ∷ rs) = place before r (sorted before rs)

-- `limit <= 0 || limit > 200` gives 50.
abbrev pub page_limit : Page → ℕ
page_limit page = elim page.limit [ pos n ↦ if leb n 0 || ltb 200 n then 50 else n | negsuc n ↦ 50 ]

abbrev pub in_model : String → String → ModelVersion → Bool
in_model tenant_id model_id r =
    r.tenant_id == tenant_id && (if model_id == "" then true else r.model_id == model_id)

unfoldable pub list : String → String → Page → Exec (List ModelVersion)
unfolding place sorted
list tenant_id model_id page = query λ w.
    take (page_limit page)
      (sorted w.server.before (select (in_model tenant_id model_id) w.db.model_versions))
