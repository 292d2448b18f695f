-- ===== src/Bundle/Export.antt =====
-- `ExportLatestEnabled` of internal/modelio/io.go.
pub mod RoundTrip
use contrato_core.Base.{
  ℕ, String, ◌<>◌, Bool, true, ◌&&◌, Option, none, some, List, [], ◌∷◌, map, select, ◌==◌,
  string_eq, nat_eq, if◌then◌else◌, ℤ, pos,
}
use contrato_core.Json.{Json, text, Fields, field, end, Map, from_map}
use contrato_core.Storage.{Result, ok, err, Err, message, Tenant, ModelVersion}
use contrato_core.Storage
use contrato_core.Storage.Server.{World, ContractRow, ReasonRow, ObligationRow}
use contrato_core.Storage.Exec.{Exec, pure, fail, query, reject_if, ◌>>=◌, ◌>>◌}
use contrato_core.Repo.ModelVersions.{get_latest_enabled}
use contrato_core.Repo.Contracts.{or_empty}
use contrato_core.Repo.Registries.{get_tenant_by_name}
use contrato_core.Snapshot.{
  model_nodes, model_edges, model_properties, model_contracts, first_difference,
}
use contrato_core.Bundle
use contrato_core.Bundle.{Bundle}
use contrato_core.Bundle.Import.{Options}

-- `ORDER BY domain, name`, by insertion.
module _ {A : Type 0} (before : A → A → Bool) where
  place : A → List A → List A
  place a [] = a ∷ []
  place a (x ∷ xs) = let rest = place a xs in if before a x then a ∷ x ∷ xs else x ∷ rest

  pub sorted : List A → List A
  unfolding place
  sorted [] = []
  sorted (a ∷ as') = place a (sorted as')

abbrev pair_before : (String → String → Bool) → String × String → String × String → Bool
pair_before before (d, n) (d', n') = if d == d' then before n n' else before d d'

unfoldable pub tenant_types : String → World → List Bundle.Kind
unfolding sorted
tenant_types t w =
    map (λ (p : String × String). record { domain = p.0; name = p.1 })
      (sorted (pair_before w.server.before) (
        map (λ (k : Storage.Kind). (k.domain, k.name)) (select (λ k. k.tenant_id == t) w.db.types)))

unfoldable pub tenant_statuses : String → World → List Bundle.Status
unfolding sorted
tenant_statuses t w =
    map (λ (p : String × String). record { domain = p.0; name = p.1 })
      (sorted (pair_before w.server.before) (
        map (λ (s : Storage.Status). (s.domain, s.name))
          (select (λ s. s.tenant_id == t) w.db.statuses)))

-- The codes and obligations of one version of a contract. The source groups the rows by the text
-- `id:version`, which is different for different ids and versions.
unfoldable pub reasons_of : List ReasonRow → String → ℕ → List String
reasons_of rows id v =
    map (λ (r : ReasonRow). r.code)
      (select (λ r. r.contract_id == id && r.contract_version == v) rows)

-- What is left where the error of `json.Unmarshal` is dropped: a nil map.
abbrev pub or_nil_map : Option Map → Map
or_nil_map none = none
or_nil_map (some m) = m

-- `unmarshal` is `json.Unmarshal` into a `map[string]any`.
module _ (unmarshal : String → Option Map) where
  unfoldable pub obligations_of : List ObligationRow → String → ℕ → List Map
  obligations_of rows id v =
      map
        (λ (r : ObligationRow). some (
          field "name" (text r.obligation)
            (field "params" (from_map (or_nil_map (unmarshal r.params))) end)))
        (select (λ r. r.contract_id == id && r.contract_version == v) rows)

  unfoldable pub node_of : Storage.Node → Bundle.Node
  node_of n = record {
    id = n.id;
    domain = n.domain;
    type = n.type;
    blob = or_nil_map (unmarshal n.blob);
  }

  unfoldable pub exported_nodes : String → ModelVersion → World → List Bundle.Node
  unfolding node_of
  exported_nodes t mv w = map node_of (model_nodes t mv w)

  unfoldable pub edge_of : Storage.Edge → Bundle.Edge
  edge_of x = record {
    from_id = x.from_id;
    to_id = x.to_id;
    domain = x.domain;
    type = x.type;
    blob = or_nil_map (unmarshal x.blob);
  }

  unfoldable pub property_of : Storage.Property → Bundle.Property
  property_of p = record {
    owner_type = p.owner_type;
    owner_id = p.owner_id;
    key = p.key;
    value = or_nil_map (unmarshal p.value_json);
  }

  unfoldable pub contract_of : List ReasonRow → List ObligationRow → ContractRow → Bundle.Contract
  contract_of reasons obligations r = record {
    id = r.id;
    domain = r.domain;
    type = r.type;
    status = r.status;
    action = or_empty r.action;
    model_id = r.model_id;
    model_version = r.model_version;
    blob = or_nil_map (unmarshal r.blob);
    reasons = reasons_of reasons r.id r.version;
    obligations = obligations_of obligations r.id r.version;
  }

  unfoldable pub load_contracts : String → ModelVersion → Exec (List Bundle.Contract)
  load_contracts t mv = do
    reasons ← query λ w. select (λ r. r.tenant_id == t) w.db.contract_reasons
    obligations ← query λ w. select (λ r. r.tenant_id == t) w.db.contract_obligations
    rows ← query (model_contracts t mv)
    pure (map (contract_of reasons obligations) rows)

  -- The bundle that is written.
  unfoldable pub export_model : Options → Exec Bundle
  export_model opts = do
    t ← get_tenant_by_name opts.tenant_name
    mv ← get_latest_enabled t.id
    types ← query (tenant_types t.id)
    statuses ← query (tenant_statuses t.id)
    ns ← query (exported_nodes t.id mv)
    xs ← query (model_edges t.id mv)
    ps ← query (model_properties t.id mv)
    cs ← if opts.with_contracts then load_contracts t.id mv else pure []
    pure (record {
      format_version = pos 1;
      tenant_name = opts.tenant_name;
      model = record {
        model_id = mv.model_id;
        version = mv.version;
        status = mv.status;
        change_note = mv.change_note;
        created_at = mv.created_at;
      };
      types = types;
      statuses = statuses;
      nodes = ns;
      edges = map edge_of xs;
      properties = map property_of ps;
      contracts = cs;
    })

  -- `encode` is `json.MarshalIndent`, and `write_file` is `os.WriteFile`.
  module _ (encode : Bundle → Result String)
      (write_file : String → String → Result (Unit {0})) where
    abbrev and_write : String → Result String → Exec (Unit {0})
    and_write path (err x) w = (err x, w)
    and_write path (ok raw) w = (write_file path raw, w)

    unfoldable pub export_latest_enabled : Options → Exec (Unit {0})
    export_latest_enabled opts = do
      reject_if (opts.tenant_name == "") (message "tenant name required")
      reject_if (opts.output_path == "") (message "output path required")
      b ← export_model opts
      and_write opts.output_path (encode b)
