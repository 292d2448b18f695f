-- ===== src/Http/Contracts.antt =====
-- internal/api/httpapi/handlers/contracts.go
pub mod Status
use contrato_core.Base.{String, ◌||◌, Option, none, List, ℤ, pos, ◌==◌, string_eq}
use contrato_core.Storage.{ContractRecord, Page, PutOptions}
use contrato_core.Storage.Exec.{Exec, ◌>>=◌}
use contrato_core.Repo.Contracts.{get_contract, put_contract, list_by_type}
use contrato_core.Http.{Handler, Decoded, respond_ok, respond_created, refuse_if, reply, with_body}

unfoldable pub list : String → String → String → Handler (List ContractRecord)
list tenant_id domain type =
    refuse_if (tenant_id == "" || type == "") "tenant_id and type required" (
      reply respond_ok
        (list_by_type tenant_id domain type (record { cursor = ""; limit = pos 50 })))

unfoldable pub create : Decoded ContractRecord → Handler ContractRecord
create body =
    with_body body
      λ rec. reply respond_created (put_contract rec (record { expected_version = none }))

unfoldable pub get : String → String → Handler ContractRecord
get tenant_id id =
    refuse_if (tenant_id == "") "tenant_id required" (reply respond_ok (get_contract tenant_id id))

pub record StatusBody : Type 0 where
  pub tenant_id : String
  pub status : String
  pub expected_version : Option ℤ

unfoldable pub change_status : String → StatusBody → Exec ContractRecord
change_status id body = do
  rec ← get_contract body.tenant_id id
  put_contract (record rec { status = body.status })
      (record { expected_version = body.expected_version })

unfoldable pub set_status : String → Decoded StatusBody → Handler ContractRecord
unfolding change_status
set_status id body = with_body body λ b. reply respond_ok (change_status id b)
