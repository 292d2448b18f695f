-- ===== src/Http/ModelVersions.antt =====
-- internal/api/httpapi/handlers/model_versions.go. Query and path parameters, and the decoded
-- body, are the arguments of a handler.
pub mod Disable
use contrato_core.Base.{ℕ, String, Bool, ◌||◌, List, [], ◌∷◌, pos, ◌==◌, string_eq}
use contrato_core.Storage.{ModelVersion, Page, Result, ok, err}
use contrato_core.Storage.Server.{World}
use contrato_core.Storage.Exec.{Exec, ◌>>=◌}
use contrato_core.Repo.ModelVersions
use contrato_core.Http.{
  Handler, Response, Decoded, respond_ok, respond_created, respond_not_found, refuse_if, reply,
  reply_internal, with_body,
}

abbrev page : ℕ → Page
page n = record { cursor = ""; limit = pos n }

unfoldable pub list : String → String → Handler (List ModelVersion)
list tenant_id model_id =
    refuse_if (tenant_id == "") "tenant_id required"
      (reply_internal respond_ok (ModelVersions.list tenant_id model_id (page 50)))

unfoldable pub create : Decoded ModelVersion → Handler ModelVersion
create body = with_body body λ mv. reply respond_created (ModelVersions.create mv)

-- `if len(mvs) == 0 { respond.NotFound(w) }`
first_or_not_found : List ModelVersion → Response ModelVersion
first_or_not_found [] = respond_not_found
first_or_not_found (mv ∷ _) = respond_ok mv

unfoldable pub get : String → String → Handler ModelVersion
unfolding first_or_not_found
get tenant_id model_id =
    refuse_if (tenant_id == "" || model_id == "") "tenant_id and model_id required"
      (reply first_or_not_found (ModelVersions.list tenant_id model_id (page 1)))

pub record StatusBody : Type 0 where
  pub tenant_id : String
  pub model_id : String
  pub version : ℕ
  pub status : String

-- The row of the version is read, and written again with the new status.
unfoldable pub change_status : StatusBody → Exec ModelVersion
change_status body = do
  mv ← ModelVersions.get body.tenant_id body.model_id body.version
  ModelVersions.create (record mv { status = body.status })

unfoldable pub set_status : Decoded StatusBody → Handler ModelVersion
unfolding change_status
set_status body = with_body body λ b. reply respond_ok (change_status b)
