-- ===== src/Tests/Objects.antt =====
-- Objects, tenants and pages on the small database.
use contrato_core.Base.{
  ℕ, suc, pos, ◌≤◌, ◌≡◌, refl, String, none, some, List, [], ◌∷◌, arith, length, select, find,
  pair_eq, string_eq, map, All, true, ◌==◌, ◌&&◌,
}
use contrato_core.Table.{max_of, newest}
use contrato_core.Storage.{ok, err, not_found, Object, Tenant}
use contrato_core.Storage.Server.{World, ObjectRow, has_tenant, ContractRow}
use contrato_core.Storage.Exec.{tick, ◌>>=◌, pure, gets, insert, statement, query, reject_if}
use contrato_core.Storage.Statements.{OnSuccess}
use contrato_core.Repo.Graph.{out_edges}
use contrato_core.Repo.ModelVersions
use contrato_core.Repo.ModelVersions.{pinned, create, get}
use contrato_core.Repo.Versioned.{check_expected, insert_row}
use contrato_core.Repo.Contracts.{list_by_type, contract_version, scan_contract}
use contrato_core.Repo.Objects.{put_object, get_by_node_id}
use contrato_core.Repo.Objects.Stored.{get_by_node_id-put_object, HoldsObject, IsAlive}
use contrato_core.Repo.Registries.{create_tenant}
use contrato_core.Repo.Listing.{pages_bounded, list_by_type-latest, stands_in}
use contrato_core.Tests.{acme, db, world, world-IsWellFormed, object, for_ten, any_page, etag_of}

-- An object that lives for ten units of time.
abbrev stored_object : Object
stored_object = record object {
  id = "u1";
  etag = "data";
  version = 1;
  expires_at = 11;
  created_at = 1;
  updated_at = 1;
}

abbrev object_row : ObjectRow
object_row = record {
  tenant_id = "t1";
  id = "u1";
  node_id = "n1";
  bytes = some "data";
  exturl = none;
  etag = "data";
  version = 1;
  expires_at = some 11;
  created_at = 1;
  updated_at = 1;
}

abbrev after_object : World
after_object = record world { ran = 2; db = record db { objects = object_row ∷ [] } }

written_object : put_object etag_of object for_ten world ≡ (ok stored_object, after_object)
unfolding put_object ◌>>=◌ reject_if pure gets check_expected insert_row insert statement query
    max_of has_tenant
written_object = refl

get_by_node_id-put_object_example :
    HoldsObject etag_of object stored_object
    × (k : ℕ) × (2 ≡ suc k)
    × (IsAlive (pos 10) k 3
        → get_by_node_id "t1" "n1" after_object ≡ (ok stored_object, tick after_object))
    × (¬ IsAlive (pos 10) k 3
        → get_by_node_id "t1" "n1" after_object ≡ (err not_found, tick after_object))
get_by_node_id-put_object_example =
    get_by_node_id-put_object etag_of object for_ten world after_object stored_object
      world-IsWellFormed.objects written_object refl

-- A tenant of a new name.
abbrev beta : Tenant
beta = record { id = "u1"; name = "beta"; version = 1 }

abbrev after_tenant : World
after_tenant = record world { ran = 1; db = record db { tenants = beta ∷ acme ∷ [] } }

made_tenant : create_tenant "beta" world ≡ (ok beta, after_tenant)
unfolding create_tenant insert statement has_tenant
made_tenant = refl

pages_bounded_example :
    OnSuccess (λ xs. length xs ≤ 500) (out_edges "t1" "n1" "" "provides" any_page world).0
    × OnSuccess (λ xs. length xs ≤ 200) (list_by_type "t1" "n1" "" any_page world).0
    × OnSuccess (λ xs. length xs ≤ 200) (ModelVersions.list "t1" "n1" any_page world).0
pages_bounded_example = pages_bounded "t1" "n1" "" "provides" any_page world

-- A contract that was a lease in its first version and is a sale in its second.
abbrev lease : ContractRow
lease = record {
  tenant_id = "t1";
  id = "c1";
  domain = "contract";
  type = "lease";
  status = "draft";
  action = none;
  model_id = "m1";
  model_version = 1;
  version = 1;
  blob = "{}";
  created_at = 0;
}

abbrev with_sale : World
with_sale = record world {
  db = record db { contracts = record lease { type = "sale"; version = 2 } ∷ lease ∷ [] };
}

one_lease : length (select (stands_in "t1" "" "lease") with_sale.db.contracts) ≤ 50
one_lease = omega arith

list_by_type-latest_example :
    (rows : List ContractRow) × (list_by_type "t1" "" "lease" any_page with_sale
      ≡ (ok (map scan_contract rows), tick with_sale))
    × ((id : String)
        → find (λ r. r.tenant_id == "t1" && r.id == id) rows
          ≡ newest contract_version
              (λ r. r.tenant_id == "t1" && r.id == id)
              (select (stands_in "t1" "" "lease") with_sale.db.contracts))
    × All (λ r. stands_in "t1" "" "lease" r ≡ true) rows
list_by_type-latest_example = list_by_type-latest "t1" "" "lease" any_page with_sale refl one_lease
