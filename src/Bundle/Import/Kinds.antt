-- ===== src/Bundle/Import/Kinds.antt =====
-- What the import writes for a node, an edge and a property.
use contrato_core.Base.{
  ℕ, ◌≡◌, ◌≢◌, refl, ap, subst, ◌∙◌, String, true, arith, eq_iff, string_eq, nat_eq, pair_eq, Eq,
}
use contrato_core.Json.{Map}
use contrato_core.Storage.{ok, Tenant, ModelVersion}
use contrato_core.Storage
use contrato_core.Storage.Server.{World}
use contrato_core.Storage.Exec.{Exec, wrap}
use contrato_core.Storage.Statements.{wrap_ok}
use contrato_core.Snapshot.{in_version}
use contrato_core.Repo.Versioned.{Versioned}
use contrato_core.Repo.Versioned.Appends.{Appends, Appended}
use contrato_core.Repo.Versioned.Returns.{Returns, of_returned}
use contrato_core.Repo.Appending.{put_node-Appends, put_edge-Appends, put_property-Appends}
use contrato_core.Repo.ModelVersions.{default_to}
use contrato_core.Repo.Graph.{EdgeKey, nodes, edges, node_key, edge_key}
use contrato_core.Repo.Properties.{PropertyKey, properties, property_key}
use contrato_core.Repo.Contents.{
  HoldsNode, HoldsEdge, HoldsProperty, put_node-Returns, put_edge-Returns, put_property-Returns,
}
use contrato_core.Repo.Calls.WellFormed.{Numbered}
use contrato_core.Bundle
use contrato_core.Bundle.Import.{
  first_non_empty, no_options, node_record, edge_record, property_record, import_node, import_edge,
  import_property,
}
use contrato_core.Bundle.Import.Written.{Writes}

module _ {R K : Type 0} ⦃e : Eq K⦄ (t : Versioned R K) {P : R → Type 0} where
  wrapped-writes :
      (context : String) (put : Exec R) (w w' : World) (r : R)
      → Appends t put
      → Returns P put
      → Numbered t w.db
      → wrap context put w ≡ (ok r, w')
      → Appended t w.db (ok r, w') × P r
  wrapped-writes context put w w' r appends returns h s =
      let done = wrap_ok context put w s in
      (subst (Appended t w.db) done (appends.at w h), of_returned put w w' r returns done)

-- What tells the rows of one tenant apart.
abbrev pub node_name : Bundle.Node → String
node_name n = n.id

abbrev pub edge_name : Bundle.Edge → String × (String × (String × String))
edge_name x = (x.from_id, (x.to_id, (first_non_empty x.domain "edge", x.type)))

abbrev pub property_name : Bundle.Property → String × (String × String)
property_name p = (p.owner_type, (p.owner_id, p.key))

-- The keys of the rows.
abbrev pub node_id : Tenant → Bundle.Node → String × String
node_id t n = (t.id, node_name n)

abbrev pub edge_ends : Tenant → Bundle.Edge → EdgeKey
edge_ends t x = (t.id, edge_name x)

abbrev pub property_owner : Tenant → Bundle.Property → PropertyKey
property_owner t p = (t.id, property_name p)

pub defaulted : (d s : String) → d ≢ "" → default_to d (first_non_empty s d) ≡ first_non_empty s d
defaulted d s h = ground (arith, eq_iff s "", eq_iff d "")

module _ (marshal : Map → String) (t : Tenant) (mv : ModelVersion) where
  abbrev pub HasNode : Bundle.Node → Storage.Node → Type 0
  HasNode n r = HoldsNode (node_record marshal t mv n) r

  abbrev pub HasEdge : Bundle.Edge → Storage.Edge → Type 0
  HasEdge x r = HoldsEdge (edge_record marshal t mv x) r

  abbrev pub HasProperty : Bundle.Property → Storage.Property → Type 0
  HasProperty p r = HoldsProperty (property_record marshal t mv p) r

  pub import_node-Writes : Writes nodes HasNode (import_node marshal t mv)
  unfolding import_node
  import_node-Writes n w w' r =
      wrapped-writes nodes "put node" _ w w' r (put_node-Appends _ no_options)
        (put_node-Returns _ no_options)

  pub import_edge-Writes : Writes edges HasEdge (import_edge marshal t mv)
  unfolding import_edge
  import_edge-Writes x w w' r =
      wrapped-writes edges "put edge" _ w w' r (put_edge-Appends _ no_options)
        (put_edge-Returns _ no_options)

  pub import_property-Writes : Writes properties HasProperty (import_property marshal t mv)
  unfolding import_property
  import_property-Writes p w w' r =
      wrapped-writes properties "put property" _ w w' r (put_property-Appends _ no_options)
        (put_property-Returns _ no_options)

  pub node_key-HasNode :
      (n : Bundle.Node) (r : Storage.Node) → n.id ≢ "" → HasNode n r → node_key r ≡ node_id t n
  node_key-HasNode n r full (tenant, _, _, _, id, _) = rw (tenant, id full) refl

  pub edge_key-HasEdge :
      (x : Bundle.Edge) (r : Storage.Edge) → HasEdge x r → edge_key r ≡ edge_ends t x
  edge_key-HasEdge x r (tenant, from_id, to_id, type, domain, _, _) =
      rw
        (
          tenant,
          from_id,
          to_id,
          type,
          domain ∙ defaulted "edge" x.domain (λ s. absurd (ground (arith, eq_iff "edge" ""))),
        )
        refl

  pub property_key-HasProperty :
      (p : Bundle.Property) (r : Storage.Property)
      → HasProperty p r
      → property_key r ≡ property_owner t p
  property_key-HasProperty p r (tenant, owner_type, owner_id, key, _, _) =
      rw (tenant, owner_type, owner_id, key) refl

  -- The rows lie in the version.
  module _ (model_named : mv.model_id ≢ "") (version_named : mv.version ≢ 0) where
    in_version_of :
        (tenant_id : String) (m : String × ℕ)
        → tenant_id ≡ t.id
        → (mv.model_id ≢ "" → mv.version ≢ 0 → m ≡ (mv.model_id, mv.version))
        → in_version mv t.id tenant_id m.0 m.1 ≡ true
    in_version_of tenant_id m tenant kept =
        let model = kept model_named version_named in
        ground (
          arith,
          eq_iff tenant_id t.id,
          eq_iff m.0 mv.model_id,
          ap (λ p. p.0) model,
          ap (λ p. p.1) model,
        )

    pub HasNode-in_version :
        (n : Bundle.Node) (r : Storage.Node)
        → HasNode n r
        → in_version mv t.id r.tenant_id r.model_id r.model_version ≡ true
    HasNode-in_version n r h = in_version_of r.tenant_id (r.model_id, r.model_version) h.0 h.5

    pub HasEdge-in_version :
        (x : Bundle.Edge) (r : Storage.Edge)
        → HasEdge x r
        → in_version mv t.id r.tenant_id r.model_id r.model_version ≡ true
    HasEdge-in_version x r h = in_version_of r.tenant_id (r.model_id, r.model_version) h.0 h.6

    pub HasProperty-in_version :
        (p : Bundle.Property) (r : Storage.Property)
        → HasProperty p r
        → in_version mv t.id r.tenant_id r.model_id r.model_version ≡ true
    HasProperty-in_version p r h = in_version_of r.tenant_id (r.model_id, r.model_version) h.0 h.5
