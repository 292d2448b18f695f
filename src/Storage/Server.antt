-- ===== src/Storage/Server.antt =====
-- The tables of migrations/postgres/0001_init.sql, and what the database decides by itself.
use contrato_core.Base.{ℕ, String, Bool, Option, List, ◌==◌, ◌&&◌, string_eq, nat_eq, any}
use contrato_core.Storage.{Tenant, Kind, Status, Property, ModelVersion, Node, Edge}

-- A row of `contracts`. `action` is nullable.
pub record ContractRow : Type 0 where
  pub tenant_id : String
  pub id : String
  pub domain : String
  pub type : String
  pub status : String
  pub action : Option String
  pub model_id : String
  pub model_version : ℕ
  pub version : ℕ
  pub blob : String
  pub created_at : ℕ

-- A row of `objects`. `bytes`, `exturl` and `expires_at` are nullable.
pub record ObjectRow : Type 0 where
  pub tenant_id : String
  pub id : String
  pub node_id : String
  pub bytes : Option String
  pub exturl : Option String
  pub etag : String
  pub version : ℕ
  pub expires_at : Option ℕ
  pub created_at : ℕ
  pub updated_at : ℕ

-- A row of `contract_reasons`, and one of `contract_obligations`, of the columns that are read.
pub record ReasonRow : Type 0 where
  pub tenant_id : String
  pub contract_id : String
  pub contract_version : ℕ
  pub code : String

pub record ObligationRow : Type 0 where
  pub tenant_id : String
  pub contract_id : String
  pub contract_version : ℕ
  pub obligation : String
  pub params : String

pub record Db : Type 0 where
  pub tenants : List Tenant
  pub types : List Kind
  pub statuses : List Status
  pub model_versions : List ModelVersion
  pub nodes : List Node
  pub edges : List Edge
  pub properties : List Property
  pub contracts : List ContractRow
  pub objects : List ObjectRow
  pub contract_reasons : List ReasonRow
  pub contract_obligations : List ObligationRow

-- What the service decides at its n-th statement: whether it refuses the statement (a lost
-- connection, a cancelled context, a malformed UUID), the value of `gen_random_uuid()` and that of
-- `now()`. `violation n` is the text of the error if a constraint fails there. `breaks_off n` is the
-- number of rows after which the result breaks off, if it does: a loop that looks at `rows.Err()` then
-- fails, which is a refusal here, and a loop that does not ends early. `clock n` is the time on the
-- client's host after n statements. `before` is the order in which it sorts texts.
pub record Server : Type 0 where
  pub refuses : ℕ → Option String
  pub violation : ℕ → String
  pub breaks_off : ℕ → Option ℕ
  pub uuid : ℕ → String
  pub now : ℕ → ℕ
  pub clock : ℕ → ℕ
  pub before : String → String → Bool

pub record World : Type 0 where
  pub db : Db
  pub ran : ℕ
  pub server : Server

-- `REFERENCES tenants(id)`
unfoldable pub has_tenant : Db → String → Bool
has_tenant d t = any (λ r. r.id == t) d.tenants

-- `REFERENCES model_versions(tenant_id, model_id, version)`
unfoldable pub has_model : Db → String → String → ℕ → Bool
has_model d t m v =
    any (λ r. r.tenant_id == t && (r.model_id == m && r.version == v)) d.model_versions
