-- ===== src/Bundle/Import/Complete.antt =====
-- What an import that succeeds leaves in the tables of nodes, edges and properties.
use contrato_core.Base.{
  ◌≡◌, ◌≢◌, refl, sym, ap, subst, ◌∙◌, String, Bool, List, [], ◌∷◌, ◌++◌, All, string_eq, pair_eq,
  nat_eq,
}
use contrato_core.Json.{Map}
use contrato_core.Storage.{Result, ok, Tenant, ModelVersion}
use contrato_core.Storage.Server.{Db, World}
use contrato_core.Storage.Keeps.{Keeps-reject_if, bind_elim}
use contrato_core.Snapshot.{model_nodes, model_edges, model_properties}
use contrato_core.Repo.Lawful.{nodes-IsLawful, edges-IsLawful, properties-IsLawful}
use contrato_core.Repo.Graph.{nodes, edges, node_key, edge_key}
use contrato_core.Repo.Properties.{properties, property_key}
use contrato_core.Bundle.{Bundle}
use contrato_core.Bundle.Import.{Options, import_contents, import_decoded}
use contrato_core.Bundle.Import.Sound.{IsSound, create-Keeps, find_or_create-Keeps}
use contrato_core.Bundle.Import.Fresh.{IsFresh, create-IsFresh, node_in, edge_in, property_in}
use contrato_core.Bundle.Import.Written.{
  AreDistinct, AreDistinct-under, HasRows, rows_written, written-HasRows,
}
use contrato_core.Bundle.Import.Kinds.{
  node_name, edge_name, property_name, node_id, edge_ends, property_owner, HasNode, HasEdge,
  HasProperty, import_node-Writes, import_edge-Writes, import_property-Writes, node_key-HasNode,
  edge_key-HasEdge, property_key-HasProperty, HasNode-in_version, HasEdge-in_version,
  HasProperty-in_version,
}
use contrato_core.Bundle.Import.Apart.{
  SoundWith, after_contracts, nodes-Keeps, edges-Keeps, properties-Keeps, contracts-Keeps,
  statuses-Keeps, types-Keeps,
}

-- What the queries find of a version: the items of the bundle, and nothing else.
pub record HasItems (marshal : Map → String) (b : Bundle) (t : Tenant) (mv : ModelVersion)
    (w : World) : Type 0 where
  pub nodes : HasRows node_key (node_id t) (HasNode marshal t mv) b.nodes (model_nodes t.id mv w)
  pub edges : HasRows edge_key (edge_ends t) (HasEdge marshal t mv) b.edges (model_edges t.id mv w)
  pub properties :
      HasRows property_key
        (property_owner t)
        (HasProperty marshal t mv)
        b.properties
        (model_properties t.id mv w)

-- No two items would be versions of one record, and every node has an id.
pub record IsPlain (b : Bundle) : Type 0 where
  pub ids : All (λ n. n.id ≢ "") b.nodes
  pub nodes : AreDistinct node_name b.nodes
  pub edges : AreDistinct edge_name b.edges
  pub properties : AreDistinct property_name b.properties

always : {B : Type 0} (bs : List B) → All (λ b. Unit {0}) bs
always [] = tt
always (b ∷ bs) = (tt, always bs)

module _ (marshal : Map → String) where
  contents-HasItems :
      (with_contracts : Bool) (b : Bundle) (t : Tenant) (mv : ModelVersion) (d : Db) (w w' : World)
      → IsSound w.db
      → IsPlain b
      → mv.model_id ≢ ""
      → IsFresh d t.id mv w.db
      → import_contents marshal with_contracts b t mv w ≡ (ok tt, w')
      → HasItems marshal b t mv w'
  unfolding import_contents model_nodes model_edges model_properties
  contents-HasItems with_contracts b t mv d w w' sound plain named fresh s =
      bind_elim _ _ w (nodes-Keeps marshal t mv _ b.nodes) (sound, refl) s
        λ _ v1 (h1, e1) s1 k1.
          bind_elim _ _ v1 (edges-Keeps marshal t mv _ b.edges) (h1, refl) k1
            λ _ v2 (h2, e2) s2 k2.
              bind_elim _ _ v2 (properties-Keeps marshal t mv _ b.properties) (h2, refl) k2
                λ _ v3 (h3, e3) s3 k3.
                  let (_, e4) =
                    subst
                      (λ (o : Result (Unit {0}) × World).
                        SoundWith after_contracts (after_contracts v3.db) o.1.db)
                      k3
                      ((contracts-Keeps marshal t mv (after_contracts v3.db) with_contracts
                          b.contracts).at
                        v3 (h3, refl)) in
                  let (ns, grown_n, written_n) =
                    rows_written nodes nodes-IsLawful _ _ (import_node-Writes marshal t mv) b.nodes
                      w v1 sound.numbered.nodes s1 in
                  let (xs, grown_x, written_x) =
                    rows_written edges edges-IsLawful _ _ (import_edge-Writes marshal t mv) b.edges
                      v1 v2 h1.numbered.edges s2 in
                  let (ps, grown_p, written_p) =
                    rows_written properties properties-IsLawful _ _
                      (import_property-Writes marshal t mv) b.properties v2 v3
                      h2.numbered.properties s3 in
                  record {
                    nodes =
                        written-HasRows nodes (node_id t) (HasNode marshal t mv) (λ n. n.id ≢ "")
                          (node_key-HasNode marshal t mv) _ (node_in t.id mv)
                          (HasNode-in_version marshal t mv named fresh.numbered) b.nodes ns
                          w.db.nodes w'.db.nodes plain.ids
                          (AreDistinct-under t.id node_name b.nodes plain.nodes) written_n
                          (rw fresh.nodes fresh.no_nodes)
                          (ap (λ d. d.0) e4 ∙ ap (λ d. d.0) e3 ∙ ap (λ d. d.0) e2 ∙ grown_n);
                    edges =
                        written-HasRows edges (edge_ends t) (HasEdge marshal t mv) (λ _. Unit {0})
                          (λ x r _. edge_key-HasEdge marshal t mv x r) _ (edge_in t.id mv)
                          (HasEdge-in_version marshal t mv named fresh.numbered) b.edges xs
                          w.db.edges w'.db.edges (always b.edges)
                          (AreDistinct-under t.id edge_name b.edges plain.edges) written_x
                          (rw fresh.edges fresh.no_edges)
                          (ap (λ d. d.1.0) e4
                            ∙ ap (λ d. d.1) e3
                            ∙ grown_x
                            ∙ ap (λ l. xs ++ l) (ap (λ d. d.0) e1));
                    properties =
                        written-HasRows properties (property_owner t) (HasProperty marshal t mv)
                          (λ _. Unit {0}) (λ p r _. property_key-HasProperty marshal t mv p r) _
                          (property_in t.id mv)
                          (HasProperty-in_version marshal t mv named fresh.numbered) b.properties ps
                          w.db.properties w'.db.properties (always b.properties)
                          (AreDistinct-under t.id property_name b.properties plain.properties)
                          written_p (rw fresh.properties fresh.no_properties)
                          (ap (λ d. d.1.1) e4
                            ∙ grown_p
                            ∙ ap (λ l. ps ++ l) (ap (λ d. d.1) e2 ∙ ap (λ d. d.1) e1));
                  }

  -- If the invariants hold before, an import of a bundle that names its model, whose nodes have ids, and
  -- in which no two items would be versions of one record, leaves on success a version of that model that
  -- has the nodes, the edges and the properties of the bundle, with the fields that it gives them, and no
  -- others.
  pub import_decoded-HasItems :
      (opts : Options) (b : Bundle) (w w' : World)
      → IsSound w.db
      → b.model.model_id ≢ ""
      → IsPlain b
      → import_decoded marshal opts b w ≡ (ok tt, w')
      → (t : Tenant) × (mv : ModelVersion) × (mv.model_id ≡ b.model.model_id)
        × HasItems marshal b t mv w'
  unfolding import_decoded
  import_decoded-HasItems opts b w w' sound named plain s =
      bind_elim _ _ w (Keeps-reject_if _ _) sound s λ _ w1 h1 _ k1.
        bind_elim _ _ w1 (find_or_create-Keeps _) h1 k1 λ t w2 h2 _ k2.
          bind_elim _ _ w2 (statuses-Keeps t b.statuses) h2 k2 λ _ w3 h3 _ k3.
            bind_elim _ _ w3 (types-Keeps t b.types) h3 k3 λ _ w4 h4 _ k4.
              bind_elim _ _ w4 (create-Keeps _) h4 k4 λ mv w5 h5 s5 k5.
                let ((owned, model), fresh) = create-IsFresh _ mv w4 w5 h4.numbered h4.linked s5 in
                (
                  t,
                  mv,
                  model named,
                  contents-HasItems opts.with_contracts b t mv w4.db w5 w' h5 plain
                      (λ e. named (sym (model named) ∙ e)) fresh k5,
                )
