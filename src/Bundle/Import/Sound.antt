-- ===== src/Bundle/Import/Sound.antt =====
-- The invariants of the database under an import that may stop anywhere.
use contrato_core.Repo.Versioned.Appends.{Reads-query_row}
use contrato_core.Base.{◌≡◌, sym, subst, String, Bool}
use contrato_core.Json.{Map}
use contrato_core.Storage.{Result, ok, err, PutOptions, Tenant, ModelVersion}
use contrato_core.Storage
use contrato_core.Storage.Server.{Db, World}
use contrato_core.Storage.Keeps.{Keeps, keep_rules, Keeps-fail, Keeps-bind, Keeps-reject_if}
use contrato_core.Repo.ModelVersions.{create}
use contrato_core.Repo.Graph.{put_node, put_edge}
use contrato_core.Repo.Properties.{put_property}
use contrato_core.Repo.Contracts.{put_contract}
use contrato_core.Repo.Registries.{create_tenant, get_tenant_by_name, create_type, create_status}
use contrato_core.Repo.Calls.{
  Call, new_tenant, new_type, new_status, new_model_version, write_node, write_edge, write_property,
  write_contract, perform,
}
use contrato_core.Repo.Calls.WellFormed.{IsWellFormed, perform-IsWellFormed}
use contrato_core.Repo.Calls.References.{IsLinked, perform-IsLinked}
use contrato_core.Bundle.{Bundle}
use contrato_core.Bundle.Import.{
  Options, or_create, and_import, find_or_create, import_status, import_type, import_node,
  import_edge, import_property, import_contract, import_contents, import_decoded, import_bundle,
}

-- The versions of every key are 1, 2, …, and every record has its tenant and its model version.
pub record IsSound (d : Db) : Type 0 where
  pub numbered : IsWellFormed d
  pub linked : IsLinked d

abbrev as_is : String → String
as_is s = s

perform-IsSound : (c : Call) (w : World) → IsSound w.db → IsSound (perform as_is c w).db
perform-IsSound c w h = record {
  numbered = perform-IsWellFormed as_is c w h.numbered;
  linked = perform-IsLinked as_is c w h.numbered h.linked;
}

create_tenant-Keeps : (name : String) → Keeps IsSound (create_tenant name)
unfolding perform
create_tenant-Keeps name = record { at = perform-IsSound (new_tenant name) }

pub create_type-Keeps : (k : Storage.Kind) → Keeps IsSound (create_type k)
unfolding perform
create_type-Keeps k = record { at = perform-IsSound (new_type k) }

pub create_status-Keeps : (s : Storage.Status) → Keeps IsSound (create_status s)
unfolding perform
create_status-Keeps s = record { at = perform-IsSound (new_status s) }

pub create-Keeps : (mv : ModelVersion) → Keeps IsSound (create mv)
unfolding perform
create-Keeps mv = record { at = perform-IsSound (new_model_version mv) }

pub put_node-Keeps : (n : Storage.Node) (opts : PutOptions) → Keeps IsSound (put_node n opts)
unfolding perform
put_node-Keeps n opts = record { at = perform-IsSound (write_node n opts) }

pub put_edge-Keeps : (x : Storage.Edge) (opts : PutOptions) → Keeps IsSound (put_edge x opts)
unfolding perform
put_edge-Keeps x opts = record { at = perform-IsSound (write_edge x opts) }

pub put_property-Keeps :
    (p : Storage.Property) (opts : PutOptions) → Keeps IsSound (put_property p opts)
unfolding perform
put_property-Keeps p opts = record { at = perform-IsSound (write_property p opts) }

pub put_contract-Keeps :
    (c : Storage.ContractRecord) (opts : PutOptions) → Keeps IsSound (put_contract c opts)
unfolding perform
put_contract-Keeps c opts = record { at = perform-IsSound (write_contract c opts) }

get_tenant_by_name-world : (name : String) (w : World) → (get_tenant_by_name name w).1.db ≡ w.db
unfolding get_tenant_by_name
get_tenant_by_name-world name w = (Reads-query_row _).at w

pub find_or_create-Keeps : (name : String) → Keeps IsSound (find_or_create name)
unfolding find_or_create
find_or_create-Keeps name = record {
  at = λ w h.
      go (get_tenant_by_name name w) (subst IsSound (sym (get_tenant_by_name-world name w)) h);
}
  where
    go : (o : Result Tenant × World) → IsSound o.1.db → IsSound (or_create name o).1.db
    go (ok t, w) h = h
    go (err x, w) h = (create_tenant-Keeps name).at w h

module _ (marshal : Map → String) where
  import_contents-Keeps :
      (with_contracts : Bool) (b : Bundle) (t : Tenant) (mv : ModelVersion)
      → Keeps IsSound (import_contents marshal with_contracts b t mv)
  unfolding import_contents import_node import_edge import_property import_contract
  import_contents-Keeps with_contracts b t mv =
      search (keep_rules, put_node-Keeps, put_edge-Keeps, put_property-Keeps, put_contract-Keeps)
        depth 8

  import_decoded-Keeps :
      (opts : Options) (b : Bundle) → Keeps IsSound (import_decoded marshal opts b)
  unfolding import_decoded import_status import_type
  import_decoded-Keeps opts b =
      search
        (
          keep_rules, find_or_create-Keeps, create_status-Keeps, create_type-Keeps, create-Keeps,
          import_contents-Keeps,
        )
        depth 8

  module _ (read_file : String → Result String) (decode : String → Result Bundle) where
    and_import-Keeps :
        (opts : Options) (r : Result Bundle)
        → Keeps IsSound (and_import marshal read_file decode opts r)
    and_import-Keeps opts (ok b) = import_decoded-Keeps opts b
    and_import-Keeps opts (err x) = Keeps-fail x

    import_bundle-Keeps :
        (opts : Options) → Keeps IsSound (import_bundle marshal read_file decode opts)
    unfolding import_bundle
    import_bundle-Keeps opts = Keeps-bind _ _ (Keeps-reject_if _ _) (λ _. and_import-Keeps opts _)
