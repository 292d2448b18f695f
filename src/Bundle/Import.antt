-- ===== src/Bundle/Import.antt =====
-- `ImportBundle` of internal/modelio/io.go. It is a sequence of repository calls, each a statement or
-- two, with no transaction around them.
pub mod Sound
pub mod Fresh
pub mod Written
pub mod Kinds
pub mod Apart
pub mod Complete
pub mod Steps
pub mod Live
use contrato_core.Base.{
  String, ◌<>◌, Bool, true, false, not, Option, none, List, ◌==◌, string_eq, if◌then◌else◌,
}
use contrato_core.Json.{Map}
use contrato_core.Storage.{Result, ok, err, message, Tenant, ModelVersion, PutOptions}
use contrato_core.Storage
use contrato_core.Storage.Server.{World}
use contrato_core.Storage.Exec.{Exec, pure, fail, reject_if, for_each, wrap, ◌>>=◌, ◌>>◌}
use contrato_core.Repo.ModelVersions.{create}
use contrato_core.Repo.Graph.{put_node, put_edge}
use contrato_core.Repo.Properties.{put_property}
use contrato_core.Repo.Contracts.{put_contract}
use contrato_core.Repo.Registries.{create_tenant, get_tenant_by_name, create_type, create_status}
use contrato_core.Bundle
use contrato_core.Bundle.{Bundle}

-- The options of import and export.
pub record Options : Type 0 where
  pub with_contracts : Bool
  pub tenant_name : String
  pub output_path : String
  pub input_path : String
  pub enable_imported : Bool
  pub change_note : String

abbrev pub no_options : PutOptions
no_options = record { expected_version = none }

-- `firstNonEmpty`
abbrev pub first_non_empty : String → String → String
first_non_empty v default = if not (v == "") then v else default

-- The name of the tenant: the option, or that of the bundle.
abbrev pub tenant_name_of : Options → Bundle → String
tenant_name_of opts b = if opts.tenant_name == "" then b.tenant_name else opts.tenant_name

-- Whatever the error of `GetByName` is, the tenant is created.
abbrev pub or_create : String → Result Tenant × World → Result Tenant × World
or_create name (ok t, w) = (ok t, w)
or_create name (err _, w) = create_tenant name w

unfoldable pub find_or_create : String → Exec Tenant
find_or_create name w = or_create name (get_tenant_by_name name w)

abbrev pub model_status : Options → Bundle → String
model_status opts b =
    if opts.enable_imported
    then "enabled"
    else if not (b.model.status == "")
    then b.model.status
    else "draft"

-- The model version that is created: its number comes from the repository.
abbrev pub model_record : Options → Bundle → Tenant → ModelVersion
model_record opts b t = record {
  tenant_id = t.id;
  model_id = b.model.model_id;
  version = 0;
  status = model_status opts b;
  change_note = if opts.change_note == "" then b.model.change_note else opts.change_note;
  created_at = 0;
  updated_at = 0;
}

unfoldable pub import_status : Tenant → Bundle.Status → Exec Storage.Status
import_status t s =
    wrap ("create status " <> s.domain <> ":" <> s.name)
      (create_status (record { tenant_id = t.id; domain = s.domain; name = s.name }))

unfoldable pub import_type : Tenant → Bundle.Kind → Exec Storage.Kind
import_type t k =
    wrap ("create type " <> k.domain <> ":" <> k.name)
      (create_type (record { tenant_id = t.id; domain = k.domain; name = k.name }))

-- `marshal` is `json.Marshal` of a map, which a nil map turns into the text `null`.
module _ (marshal : Map → String) where
  abbrev pub node_record : Tenant → ModelVersion → Bundle.Node → Storage.Node
  node_record t mv n = record {
    tenant_id = t.id;
    id = n.id;
    domain = first_non_empty n.domain "node";
    type = n.type;
    model_id = mv.model_id;
    model_version = mv.version;
    version = 0;
    blob = marshal n.blob;
    created_at = 0;
    updated_at = 0;
  }

  abbrev pub edge_record : Tenant → ModelVersion → Bundle.Edge → Storage.Edge
  edge_record t mv x = record {
    tenant_id = t.id;
    from_id = x.from_id;
    to_id = x.to_id;
    domain = first_non_empty x.domain "edge";
    type = x.type;
    model_id = mv.model_id;
    model_version = mv.version;
    version = 0;
    blob = marshal x.blob;
    created_at = 0;
    updated_at = 0;
  }

  abbrev pub property_record : Tenant → ModelVersion → Bundle.Property → Storage.Property
  property_record t mv p = record {
    tenant_id = t.id;
    owner_type = p.owner_type;
    owner_id = p.owner_id;
    key = p.key;
    value_json = marshal p.value;
    model_id = mv.model_id;
    model_version = mv.version;
    version = 0;
  }

  abbrev pub contract_record : Tenant → ModelVersion → Bundle.Contract → Storage.ContractRecord
  contract_record t mv c = record {
    tenant_id = t.id;
    id = c.id;
    domain = first_non_empty c.domain "contract";
    type = c.type;
    status = c.status;
    action = c.action;
    model_id = mv.model_id;
    model_version = mv.version;
    version = 0;
    blob = marshal c.blob;
    created_at = 0;
    updated_at = 0;
  }

  unfoldable pub import_node : Tenant → ModelVersion → Bundle.Node → Exec Storage.Node
  import_node t mv n = wrap "put node" (put_node (node_record t mv n) no_options)

  unfoldable pub import_edge : Tenant → ModelVersion → Bundle.Edge → Exec Storage.Edge
  import_edge t mv x = wrap "put edge" (put_edge (edge_record t mv x) no_options)

  unfoldable pub import_property : Tenant → ModelVersion → Bundle.Property → Exec Storage.Property
  import_property t mv p = wrap "put property" (put_property (property_record t mv p) no_options)

  unfoldable pub import_contract :
      Tenant → ModelVersion → Bundle.Contract → Exec Storage.ContractRecord
  import_contract t mv c = wrap "put contract" (put_contract (contract_record t mv c) no_options)

  -- The four loops after the model version is created.
  unfoldable pub import_contents : Bool → Bundle → Tenant → ModelVersion → Exec (Unit {0})
  import_contents with_contracts b t mv = do
    for_each (import_node t mv) b.nodes
    for_each (import_edge t mv) b.edges
    for_each (import_property t mv) b.properties
    if with_contracts then for_each (import_contract t mv) b.contracts else pure tt

  -- From the decoded bundle on.
  unfoldable pub import_decoded : Options → Bundle → Exec (Unit {0})
  import_decoded opts b = do
    reject_if (tenant_name_of opts b == "")
        (message "tenant name missing (use --tenant or bundle.tenant.name)")
    t ← find_or_create (tenant_name_of opts b)
    for_each (import_status t) b.statuses
    for_each (import_type t) b.types
    mv ← create (model_record opts b t)
    import_contents opts.with_contracts b t mv

  -- `read_file` is `os.ReadFile`, and `decode` is `json.Unmarshal` into a bundle.
  module _ (read_file : String → Result String) (decode : String → Result Bundle) where
    abbrev pub and_decode : Result String → Result Bundle
    and_decode (ok raw) = decode raw
    and_decode (err x) = err x

    abbrev pub and_import : Options → Result Bundle → Exec (Unit {0})
    and_import opts (ok b) = import_decoded opts b
    and_import opts (err x) = fail x

    unfoldable pub import_bundle : Options → Exec (Unit {0})
    import_bundle opts = do
      reject_if (opts.input_path == "") (message "input path required")
      and_import opts (and_decode (read_file opts.input_path))
