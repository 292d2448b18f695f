-- ===== src/Repo/Contracts.antt =====
-- internal/storage/sqlstore/contracts_repo.go
use contrato_core.Base.{
  ℕ, ◌+◌, String, Bool, Option, none, some, List, ◌&&◌, ◌||◌, not, any, select, take, ltb, leb, pos,
  negsuc, if◌then◌else◌, ◌==◌, nat_eq, string_eq, int_eq, pair_eq, map,
}
use contrato_core.Table.Distinct.{distinct_on}
use contrato_core.Table.History.{latest, has_version, row_at}
use contrato_core.Storage.{message, Page, PutOptions, ContractRecord}
use contrato_core.Storage.Server.{World, ContractRow, has_tenant, has_model}
use contrato_core.Repo.Versioned.{Versioned, max_version, check_expected, insert_row}
use contrato_core.Repo.ModelVersions.{default_to, pinned}
use contrato_core.Storage.Exec.{Exec, pure, query, query_row, reject_if, ◌>>=◌, ◌>>◌}

abbrev pub contract_key : ContractRow → String × String
contract_key r = (r.tenant_id, r.id)

abbrev pub contract_version : ContractRow → ℕ
contract_version r = r.version

-- `contracts`
abbrev pub contracts : Versioned ContractRow (String × String)
contracts = record {
  key = contract_key;
  version = contract_version;
  rows = λ d. d.contracts;
  put = λ rs d. record d { contracts = rs };
  admits = λ d r.
      has_tenant d r.tenant_id
      && (has_model d r.tenant_id r.model_id r.model_version
          && not (
              any (has_version contract_key contract_version (contract_key r) r.version)
                d.contracts));
}

unfoldable pub nullable_string : String → Option String
nullable_string s = if s == "" then none else some s

-- `if action.Valid { rec.Action = action.String }`
abbrev pub or_empty : Option String → String
or_empty none = ""
or_empty (some s) = s

unfoldable pub scan_contract : ContractRow → ContractRecord
scan_contract r = record {
  tenant_id = r.tenant_id;
  id = r.id;
  domain = r.domain;
  type = r.type;
  status = r.status;
  action = or_empty r.action;
  model_id = r.model_id;
  model_version = r.model_version;
  version = r.version;
  blob = r.blob;
  created_at = r.created_at;
  updated_at = 0;
}

unfoldable pub get_contract : String → String → Exec ContractRecord
get_contract tenant_id id = do
  r ← query_row λ w. latest contract_key contract_version (tenant_id, id) w.db.contracts
  pure (scan_contract r)

unfoldable pub get_contract_version : String → String → ℕ → Exec ContractRecord
get_contract_version tenant_id id v = do
  r ← query_row λ w. row_at contract_key contract_version (tenant_id, id) v w.db.contracts
  pure (scan_contract r)

contract_row : ContractRecord → String → ℕ → World → ContractRow
contract_row rec id v w = record {
  tenant_id = rec.tenant_id;
  id = id;
  domain = rec.domain;
  type = rec.type;
  status = rec.status;
  action = nullable_string rec.action;
  model_id = rec.model_id;
  model_version = rec.model_version;
  version = v;
  blob = rec.blob;
  created_at = w.server.now w.ran;
}

pub first_contract : ContractRecord → World → ContractRow
first_contract rec w = contract_row rec (w.server.uuid w.ran) 1 w

pub next_contract : ContractRecord → World → ContractRow
next_contract rec w =
    contract_row rec rec.id (max_version contracts (rec.tenant_id, rec.id) w + 1) w

abbrev pub filled_contract : ContractRecord → String × ℕ → ContractRecord
filled_contract rec m = record rec {
  domain = default_to "contract" rec.domain;
  model_id = m.0;
  model_version = m.1;
  blob = default_to "{}" rec.blob;
}

-- The checks of `Put` and its `INSERT … RETURNING`, before the row is scanned.
unfoldable pub append_contract : ContractRecord → PutOptions → Exec ContractRow
unfolding contract_row first_contract next_contract nullable_string
append_contract rec opts = do
  reject_if (rec.tenant_id == "") (message "tenant_id required")
  reject_if (rec.type == "") (message "type required")
  reject_if (rec.status == "") (message "status required")
  m ← pinned rec.tenant_id rec.model_id rec.model_version
  let rec' = filled_contract rec m
  if rec.id == "" then insert_row contracts (first_contract rec') else do
    check_expected contracts opts.expected_version (rec.tenant_id, rec.id)
    insert_row contracts (next_contract rec')

unfoldable pub put_contract : ContractRecord → PutOptions → Exec ContractRecord
unfolding append_contract scan_contract
put_contract rec opts = do r ← append_contract rec opts; pure (scan_contract r)

-- `limit <= 0 || limit > 200` gives 50.
abbrev pub contract_limit : Page → ℕ
contract_limit page = elim page.limit [
  | pos n ↦ if leb n 0 || ltb 200 n then 50 else n
  | negsuc n ↦ 50
]

abbrev pub has_type : String → String → String → ContractRow → Bool
has_type tenant_id domain type r =
    r.tenant_id == tenant_id && (r.domain == domain && r.type == type)

abbrev pub contract_before : (String → String → Bool) → String × String → String × String → Bool
contract_before before (_, id) (_, id') = before id id'

unfoldable pub list_by_type : String → String → String → Page → Exec (List ContractRecord)
unfolding scan_contract
list_by_type tenant_id domain type page = query λ w. map scan_contract (
    take (contract_limit page) (
      distinct_on contract_key contract_version (contract_before w.server.before)
        (select (has_type tenant_id (default_to "contract" domain) type) w.db.contracts)))
