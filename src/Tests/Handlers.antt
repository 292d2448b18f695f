-- ===== src/Tests/Handlers.antt =====
-- Requests on the small database.
use contrato_core.Base.{
  ◌≡◌, ◌≢◌, refl, String, Option, none, some, [], ◌∷◌, ℤ, pos, arith, eq_iff, ◌==◌, string_eq,
  pair_eq, if◌then◌else◌,
}
use contrato_core.Table.{max_of, newest}
use contrato_core.Storage.{ok}
use contrato_core.Storage.Server.{World, ContractRow, has_tenant, has_model}
use contrato_core.Storage.Exec.{tick, ◌>>=◌, pure, reject_if, insert, statement, query_row}
use contrato_core.Repo.Graph.{nodes}
use contrato_core.Repo.Versioned.{max_version, check_expected, insert_row}
use contrato_core.Repo.ModelVersions
use contrato_core.Repo.ModelVersions.{get_latest_enabled, pinned}
use contrato_core.Repo.Contracts.{get_contract, put_contract}
use contrato_core.Repo.Concurrency.Nodes.{IsReady}
use contrato_core.Http.{respond_error, decoded}
use contrato_core.Http.Graph.{update_node}
use contrato_core.Http.Graph.Versions.{update_node-conflict}
use contrato_core.Http.ModelVersions.{StatusBody, change_status}
use contrato_core.Http.ModelVersions.Disable.{get_latest_enabled-change_status}
use contrato_core.Http.Contracts
use contrato_core.Tests.{db, world, world-IsWellFormed, node, contract}

-- A reader of a few integers.
abbrev parse_int : String → Option ℤ
parse_int s = if s == "7" then some (pos 7) else none

update-IsReady : IsReady (node "n1" 0 "x")
update-IsReady = record { tenant = refl; typed = refl; pinned = refl; named = refl }

seven_is_stale : pos (max_version nodes ("t1", "n1") world) ≢ pos 7
unfolding max_of
seven_is_stale e = absurd (ground arith)

update_node-conflict_example :
    update_node parse_int "n1" "7" (decoded (node "" 0 "x")) world
    ≡ (respond_error 409 "version conflict", tick world)
update_node-conflict_example =
    update_node-conflict parse_int "n1" "7" (node "" 0 "x") (pos 7) world update-IsReady refl refl
      refl seven_is_stale

abbrev disable : StatusBody
disable = record { tenant_id = "t1"; model_id = "m1"; version = 1; status = "disabled" }

not_enabled : disable.status ≢ "enabled"
not_enabled e = absurd (ground (arith, eq_iff "disabled" "enabled"))

get_latest_enabled-change_status_example :
    (get_latest_enabled "t1" (change_status disable world).1).0 ≡ (get_latest_enabled "t1" world).0
unfolding change_status ModelVersions.get ◌>>=◌ ModelVersions.create reject_if insert_row insert
    statement query_row max_of has_tenant
get_latest_enabled-change_status_example =
    get_latest_enabled-change_status disable world "t1" world-IsWellFormed.model_versions
      not_enabled refl refl

-- The contract `c1` in its first version.
abbrev draft : ContractRow
draft = record {
  tenant_id = "t1";
  id = "c1";
  domain = "contract";
  type = "lease";
  status = "draft";
  action = none;
  model_id = "m1";
  model_version = 1;
  version = 1;
  blob = "{}";
  created_at = 0;
}

abbrev with_draft : World
with_draft = record world { db = record db { contracts = draft ∷ [] } }

abbrev activated : World
activated = record world {
  ran = 2;
  db = record db {
    contracts = record draft { status = "active"; version = 2; created_at = 1 } ∷ draft ∷ [];
  };
}

abbrev activate : Contracts.StatusBody
activate = record { tenant_id = "t1"; status = "active"; expected_version = none }

activate_c1 :
    Contracts.change_status "c1" activate with_draft ≡ (ok (contract "active" 2 1), activated)
unfolding Contracts.change_status get_contract put_contract ◌>>=◌ reject_if pure pinned
    check_expected insert_row insert statement query_row newest max_of has_tenant has_model
activate_c1 = refl
