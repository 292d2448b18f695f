-- ===== src/Bundle/Import/Live.antt =====
-- An import that nothing stops.
use contrato_core.Base.{
  ◌≡◌, ◌≢◌, refl, String, Bool, true, false, some, List, [], ◌∷◌, find, All, ◌==◌, nat_eq,
  string_eq, pair_eq, if◌then◌else◌,
}
use contrato_core.Json.{Map}
use contrato_core.Storage.{ok, Tenant, ModelVersion}
use contrato_core.Storage.Server.{World, has_tenant}
use contrato_core.Storage.Exec.{tick, pure, for_each, reject_if, ◌>>=◌, statement, query_row}
use contrato_core.Storage.Succeeds.{
  Quiet, Succeeds, Succeeds-pure, Succeeds-bind, Succeeds-for_each,
}
use contrato_core.Repo.Registries.{get_tenant_by_name, tenant_of}
use contrato_core.Bundle.{Bundle}
use contrato_core.Bundle.Import.{
  Options, tenant_name_of, find_or_create, model_record, import_status, import_type,
  import_contract, import_contents, import_decoded,
}
use contrato_core.Bundle.Import.Steps.{
  unnamed, HasModel, import_node-Succeeds, import_edge-Succeeds, import_property-Succeeds,
  import_contract-Succeeds, import_status-Succeeds, import_type-Succeeds, create_live,
  has_tenant_found,
}

-- The fields that the repositories ask for are there, and every id.
pub record IsFilled (b : Bundle) : Type 0 where
  pub nodes : All (λ n. (n.id ≢ "") × (n.type ≢ "")) b.nodes
  pub edges : All (λ x. (x.from_id ≢ "") × (x.to_id ≢ "") × (x.type ≢ "")) b.edges
  pub properties : All (λ p. (p.owner_type ≢ "") × (p.owner_id ≢ "") × (p.key ≢ "")) b.properties
  pub contracts : All (λ c. (c.id ≢ "") × (c.type ≢ "") × (c.status ≢ "")) b.contracts

module _ (marshal : Map → String) where
  contents-Succeeds :
      (with_contracts : Bool) (b : Bundle) (t : Tenant) (mv : ModelVersion)
      → t.id ≢ ""
      → mv.model_id ≢ ""
      → mv.version ≢ 0
      → IsFilled b
      → Succeeds (HasModel t mv) (import_contents marshal with_contracts b t mv)
  unfolding import_contents
  contents-Succeeds with_contracts b t mv named model_named numbered h =
      Succeeds-bind _ _
        (Succeeds-for_each _ b.nodes (import_node-Succeeds marshal t mv named model_named numbered)
          h.nodes)
        λ _.
          Succeeds-bind _ _
            (Succeeds-for_each _ b.edges
              (import_edge-Succeeds marshal t mv named model_named numbered) h.edges)
            λ _.
              Succeeds-bind _ _
                (Succeeds-for_each _ b.properties
                  (import_property-Succeeds marshal t mv named model_named numbered) h.properties)
                λ _. last with_contracts
    where
      last :
          (c : Bool)
          → Succeeds
              (HasModel t mv)
              (if c then for_each (import_contract marshal t mv) b.contracts else pure tt)
      last true =
          Succeeds-for_each _ b.contracts
            (import_contract-Succeeds marshal t mv named model_named numbered) h.contracts
      last false = Succeeds-pure tt

  -- An import of a bundle that names its model, and has every id and every field that the repositories ask
  -- for, into a tenant that there is, comes to its end if the server refuses nothing.
  pub import_decoded-returns :
      (opts : Options) (b : Bundle) (t : Tenant) (w : World)
      → tenant_name_of opts b ≢ ""
      → find (λ r. r.name == tenant_name_of opts b) w.db.tenants ≡ some t
      → t.id ≢ ""
      → b.model.model_id ≢ ""
      → IsFilled b
      → Quiet w
      → (v : World) × (import_decoded marshal opts b w ≡ (ok tt, v))
  unfolding import_decoded find_or_create get_tenant_by_name tenant_of query_row statement reject_if
      has_tenant ◌>>=◌ pure
  import_decoded-returns opts b t w given found named model_named h q =
      let there : has_tenant w.db t.id ≡ true =
        has_tenant_found (tenant_name_of opts b) t w.db.tenants found in
      let (_, w1, s1, q1, h1) =
        (Succeeds-for_each (import_status t) b.statuses (λ s _. import_status-Succeeds t s)
            (anything b.statuses)).at
          (tick w) q there in
      let (_, w2, s2, q2, h2) =
        (Succeeds-for_each (import_type t) b.types (λ k _. import_type-Succeeds t k)
            (anything b.types)).at
          w1 q1 h1 in
      let (mv, w3, s3, q3, mv_named, numbered, tenant, model) =
        create_live (model_record opts b t) w2 named model_named q2 h2 in
      let (_, v, s4, _, _) =
        (contents-Succeeds opts.with_contracts b t mv named mv_named numbered h).at w3 q3
          (tenant, model) in
      (v, rw (unnamed _ given, q w.ran, found, s1, s2, s3, s4) refl)
    where
      anything : {A : Type 0} (xs : List A) → All (λ x. Unit {0}) xs
      anything [] = tt
      anything (x ∷ xs) = (tt, anything xs)
