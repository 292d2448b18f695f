-- ===== src/Storage.antt =====
-- internal/storage: the records that the repositories take and return (storage.go), the sentinel
-- errors (errors.go) and the capability sets (capabilities.go). A `time.Time` is a number, 0 for
-- the zero time; a `[]byte` is the text of its bytes; an `*int` is an optional integer.
pub mod Exec
pub mod Server
pub mod Statements
pub mod Keeps
pub mod Succeeds
pub mod Host
pub mod Deaf
pub mod Interfaces
use contrato_core.Base.{ℕ, String, Bool, Option, List, [], ◌∷◌, ℤ, any, string_eq, ◌==◌}

-- `ErrUnsupported`, `ErrNotFound`, `ErrConflict`, and the errors that equal none of them: a text of
-- `errors.New`, and an error of the database driver with its text.
pub data Err : Type 0 where
  unsupported not_found conflict : Err
  message : String → Err
  refused : String → Err

-- `err.Error()`
abbrev pub error_text : Err → String
error_text unsupported = "storage: unsupported"
error_text not_found = "storage: not found"
error_text conflict = "storage: conflict"
error_text (message s) = s
error_text (refused s) = s

pub data Result {ℓ} (A : Type ℓ) : Type ℓ where
  ok : A → Result A
  err : Err → Result A

pub record PutOptions : Type 0 where
  pub expected_version : Option ℤ

-- `Timeout` is a duration, of which only the sign matters.
pub record TxOptions : Type 0 where
  pub read_only : Bool
  pub timeout : ℤ

pub record Page : Type 0 where
  pub cursor : String
  pub limit : ℤ

pub record Tenant : Type 0 where
  pub id : String
  pub name : String
  pub version : ℕ

-- `Type` of the source.
pub record Kind : Type 0 where
  pub tenant_id : String
  pub domain : String
  pub name : String

pub record Status : Type 0 where
  pub tenant_id : String
  pub domain : String
  pub name : String

pub record Property : Type 0 where
  pub tenant_id : String
  pub owner_type : String
  pub owner_id : String
  pub key : String
  pub value_json : String
  pub model_id : String
  pub model_version : ℕ
  pub version : ℕ

pub record ModelVersion : Type 0 where
  pub tenant_id : String
  pub model_id : String
  pub version : ℕ
  pub status : String
  pub change_note : String
  pub created_at : ℕ
  pub updated_at : ℕ

pub record ContractRecord : Type 0 where
  pub tenant_id : String
  pub id : String
  pub domain : String
  pub type : String
  pub status : String
  pub action : String
  pub model_id : String
  pub model_version : ℕ
  pub version : ℕ
  pub blob : String
  pub created_at : ℕ
  pub updated_at : ℕ

pub record Object : Type 0 where
  pub tenant_id : String
  pub id : String
  pub node_id : String
  pub bytes : String
  pub ext_url : String
  pub etag : String
  pub version : ℕ
  pub expires_at : ℕ
  pub created_at : ℕ
  pub updated_at : ℕ

pub record ObjectPutOptions : Type 0 where
  pub if_match_etag : String
  pub ttl : ℤ
  pub expected_version : Option ℤ

pub record Node : Type 0 where
  pub tenant_id : String
  pub id : String
  pub domain : String
  pub type : String
  pub model_id : String
  pub model_version : ℕ
  pub version : ℕ
  pub blob : String
  pub created_at : ℕ
  pub updated_at : ℕ

pub record Edge : Type 0 where
  pub tenant_id : String
  pub from_id : String
  pub to_id : String
  pub domain : String
  pub type : String
  pub model_id : String
  pub model_version : ℕ
  pub version : ℕ
  pub blob : String
  pub created_at : ℕ
  pub updated_at : ℕ

pub data Capability : Type 0 where
  cap_tx cap_graph cap_kv cap_doc cap_cas cap_ttl : Capability

abbrev pub capability_name : Capability → String
capability_name cap_tx = "tx"
capability_name cap_graph = "graph"
capability_name cap_kv = "kv"
capability_name cap_doc = "doc"
capability_name cap_cas = "cas"
capability_name cap_ttl = "ttl"

-- `CapSet`, `NewCapSet` and `Has`: the keys of the Go map.
abbrev pub CapSet : Type 0
CapSet = List String

unfoldable pub has : CapSet → Capability → Bool
has s c = any (λ k. k == capability_name c) s
