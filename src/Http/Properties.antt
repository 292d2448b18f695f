-- ===== src/Http/Properties.antt =====
-- internal/api/httpapi/handlers/properties.go
use contrato_core.Base.{String, Option, ℤ, ◌==◌, string_eq}
use contrato_core.Storage.{Property}
use contrato_core.Repo.Properties.{get_property, put_property}
use contrato_core.Http.{Handler, Decoded, respond_ok, refuse_if, reply, with_body, put_options}

unfoldable pub get : String → String → String → String → Handler Property
get tenant_id owner_type owner_id key =
    refuse_if (tenant_id == "") "tenant_id required"
      (reply respond_ok (get_property tenant_id owner_type owner_id key))

-- `parse_int` is `json.Unmarshal` into an `int`.
module _ (parse_int : String → Option ℤ) where
  unfoldable pub put : String → String → String → String → Decoded Property → Handler Property
  unfolding put_options
  put owner_type owner_id key expected body = with_body body λ p. reply respond_ok (
      put_property (record p { owner_type = owner_type; owner_id = owner_id; key = key })
        (put_options parse_int expected))
