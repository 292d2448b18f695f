-- ===== src/Repo/Properties.antt =====
-- internal/storage/sqlstore/properties_repo.go
use contrato_core.Base.{
  ℕ, ◌+◌, String, ◌&&◌, ◌||◌, not, any, ◌==◌, nat_eq, string_eq, int_eq, pair_eq,
}
use contrato_core.Table.History.{latest, has_version}
use contrato_core.Storage.{message, PutOptions, Property}
use contrato_core.Storage.Server.{World, has_tenant, has_model}
use contrato_core.Repo.Versioned.{Versioned, max_version, check_expected, insert_row}
use contrato_core.Repo.ModelVersions.{default_to, pinned}
use contrato_core.Storage.Exec.{Exec, query_row, reject_if, ◌>>=◌, ◌>>◌}

-- The columns (tenant_id, owner_type, owner_id, key).
abbrev pub PropertyKey : Type 0
PropertyKey = String × (String × (String × String))

abbrev pub property_key : Property → PropertyKey
property_key p = (p.tenant_id, (p.owner_type, (p.owner_id, p.key)))

abbrev pub property_version : Property → ℕ
property_version p = p.version

-- `properties`
abbrev pub properties : Versioned Property PropertyKey
properties = record {
  key = property_key;
  version = property_version;
  rows = λ d. d.properties;
  put = λ rs d. record d { properties = rs };
  admits = λ d p.
      has_tenant d p.tenant_id
      && (has_model d p.tenant_id p.model_id p.model_version
          && not (
              any (has_version property_key property_version (property_key p) p.version)
                d.properties));
}

unfoldable pub get_property : String → String → String → String → Exec Property
get_property tenant_id owner_type owner_id key = query_row λ w.
    latest property_key property_version (tenant_id, (owner_type, (owner_id, key))) w.db.properties

pub next_property : Property → World → Property
next_property p w = record p { version = max_version properties (property_key p) w + 1 }

abbrev pub filled_property : Property → String × ℕ → Property
filled_property p m = record p {
  value_json = default_to "{}" p.value_json;
  model_id = m.0;
  model_version = m.1;
}

unfoldable pub put_property : Property → PutOptions → Exec Property
unfolding next_property
put_property p opts = do
  reject_if (p.tenant_id == "" || (p.owner_type == "" || (p.owner_id == "" || p.key == "")))
      (message "tenant_id, owner_type, owner_id, key required")
  m ← pinned p.tenant_id p.model_id p.model_version
  check_expected properties opts.expected_version (property_key p)
  insert_row properties (next_property (filled_property p m))
