-- ===== src/Bundle/Export/RoundTrip.antt =====
-- The export of the version that an import created.
use contrato_core.Base.{
  ◌≡◌, ◌≢◌, ◌≤◌, refl, ap, ◌∙◌, String, Bool, Option, some, List, [], ◌∷◌, map, find, length,
  string_eq, pair_eq, length-map, inl, inr, Bool-cases, All, All-mono_both, Exists, arith, eq_iff,
  Eq,
}
use contrato_core.Json.{Map}
use contrato_core.Storage.{ok, Tenant, ModelVersion}
use contrato_core.Storage
use contrato_core.Storage.Server.{World}
use contrato_core.Snapshot.{model_edges, model_properties}
use contrato_core.Repo.ModelVersions.{default_to}
use contrato_core.Repo.Graph.{node_key, edge_key}
use contrato_core.Repo.Properties.{property_key}
use contrato_core.Bundle
use contrato_core.Bundle.{Bundle}
use contrato_core.Bundle.Import.{Options, first_non_empty, import_decoded}
use contrato_core.Bundle.Import.Sound.{IsSound}
use contrato_core.Bundle.Import.Written.{HasRows}
use contrato_core.Bundle.Import.Kinds.{
  HasNode, HasEdge, HasProperty, node_id, edge_ends, property_owner, defaulted,
}
use contrato_core.Bundle.Import.Complete.{IsPlain, HasItems, import_decoded-HasItems}
use contrato_core.Bundle.Export.{node_of, edge_of, property_of, exported_nodes, or_nil_map}

-- An item with the default domain of the import.
abbrev pub with_node_domain : Bundle.Node → Bundle.Node
with_node_domain n = record n { domain = first_non_empty n.domain "node" }

abbrev pub with_edge_domain : Bundle.Edge → Bundle.Edge
with_edge_domain x = record x { domain = first_non_empty x.domain "edge" }

abbrev pub same : Bundle.Property → Bundle.Property
same p = p

-- What was found has every item, up to its default, and is not longer than the list of items.
abbrev pub Carries : {B : Type 0} → (B → B) → List B → List B → Type 0
Carries default bs found =
    All (λ b. Exists (λ c. c ≡ default b) found) bs × (length found ≤ length bs)

module _ {A B : Type 0} (p : A → Bool) (f : A → B) where
  found-map :
      (b : B) (a : A) (xs : List A) → find p xs ≡ some a → f a ≡ b → Exists (λ y. y ≡ b) (map f xs)
  found-map b a [] s h = absurd (ground arith)
  found-map b a (x ∷ xs) s h = elim (Bool-cases (p x)) [
    | inl e ↦ inl (ap f (ground arith) ∙ h)
    | inr e ↦ inr (found-map b a xs (ground arith) h)
  ]

HasRows-Carries :
    {R K B : Type 0} ⦃e : Eq K⦄ {Good : B → Type 0} (key : R → K) (key_of : B → K)
    (Holds : B → R → Type 0) (g : R → B) (default : B → B)
    → ((b : B) (r : R) → Good b → Holds b r → g r ≡ default b)
    → (bs : List B) (found : List R) → All Good bs
    → HasRows key key_of Holds bs found
    → Carries default bs (map g found)
HasRows-Carries key key_of Holds g default reads bs found good (present, few) = (
  All-mono_both (λ b q (r, s, holds). found-map _ _ (default b) r _ s (reads b r q holds)) bs good
      present,
  rw (length-map g found) few,
)

module _ (marshal : Map → String) (unmarshal : String → Option Map) where
  -- The JSON library writes some text, and reads back what it wrote.
  abbrev pub RoundTrips : Map → Type 0
  RoundTrips m = (marshal m ≢ "") × (unmarshal (marshal m) ≡ some m)

  -- It does so for every blob and value of the bundle.
  pub record IsReadBack (b : Bundle) : Type 0 where
    pub nodes : All (λ n. RoundTrips n.blob) b.nodes
    pub edges : All (λ x. RoundTrips x.blob) b.edges
    pub properties : All (λ p. RoundTrips p.value) b.properties

  read_back :
      (m : Map) (text : String)
      → RoundTrips m
      → text ≡ default_to "{}" (marshal m)
      → or_nil_map (unmarshal text) ≡ m
  read_back m text (shown, back) s =
      let written : text ≡ marshal m = s ∙ ground (arith, eq_iff (marshal m) "") in
      ap (λ x. or_nil_map (unmarshal x)) written ∙ ap or_nil_map back

  module _ (t : Tenant) (mv : ModelVersion) where
    node_of-HasNode :
        (n : Bundle.Node) (r : Storage.Node)
        → (n.id ≢ "") × RoundTrips n.blob
        → HasNode marshal t mv n r
        → node_of unmarshal r ≡ with_node_domain n
    unfolding node_of
    node_of-HasNode n r (full, trip) (_, type, domain, blob, id, _) =
        rw
          (
            id full,
            type,
            domain ∙ defaulted "node" n.domain (λ s. absurd (ground (arith, eq_iff "node" ""))),
            read_back n.blob r.blob trip blob,
          )
          refl

    edge_of-HasEdge :
        (x : Bundle.Edge) (r : Storage.Edge)
        → RoundTrips x.blob
        → HasEdge marshal t mv x r
        → edge_of unmarshal r ≡ with_edge_domain x
    unfolding edge_of
    edge_of-HasEdge x r trip (_, from_id, to_id, type, domain, blob, _) =
        rw
          (
            from_id,
            to_id,
            type,
            domain ∙ defaulted "edge" x.domain (λ s. absurd (ground (arith, eq_iff "edge" ""))),
            read_back x.blob r.blob trip blob,
          )
          refl

    property_of-HasProperty :
        (p : Bundle.Property) (r : Storage.Property)
        → RoundTrips p.value
        → HasProperty marshal t mv p r
        → property_of unmarshal r ≡ same p
    unfolding property_of
    property_of-HasProperty p r trip (_, owner_type, owner_id, key, value, _) =
        rw (owner_type, owner_id, key, read_back p.value r.value_json trip value) refl

  -- What the export makes of a version.
  pub record IsExported (b : Bundle) (t : Tenant) (mv : ModelVersion) (w : World) : Type 0 where
    pub nodes : Carries with_node_domain b.nodes (exported_nodes unmarshal t.id mv w)
    pub edges : Carries with_edge_domain b.edges (map (edge_of unmarshal) (model_edges t.id mv w))
    pub properties :
        Carries same b.properties (map (property_of unmarshal) (model_properties t.id mv w))

  HasItems-IsExported :
      (b : Bundle) (t : Tenant) (mv : ModelVersion) (w : World)
      → IsPlain b
      → IsReadBack b
      → HasItems marshal b t mv w
      → IsExported b t mv w
  unfolding exported_nodes
  HasItems-IsExported b t mv w plain trips h = record {
    nodes =
        HasRows-Carries node_key (node_id t) (HasNode marshal t mv) (node_of unmarshal)
          with_node_domain (node_of-HasNode t mv) b.nodes _
          (All-mono_both (λ n full trip. (full, trip)) b.nodes plain.ids trips.nodes) h.nodes;
    edges =
        HasRows-Carries edge_key (edge_ends t) (HasEdge marshal t mv) (edge_of unmarshal)
          with_edge_domain (edge_of-HasEdge t mv) b.edges _ trips.edges h.edges;
    properties =
        HasRows-Carries property_key (property_owner t) (HasProperty marshal t mv)
          (property_of unmarshal) same (property_of-HasProperty t mv) b.properties _
          trips.properties h.properties;
  }

  -- Where the invariants of the database hold, an import that succeeds, of a bundle that names its model,
  -- whose nodes have ids, and in which no two items would be versions of one record, leaves a version of
  -- that model whose export has each node, edge and property of the bundle, with the domain `node` or
  -- `edge` if it has none, and no more of them than the bundle has; if the JSON library writes no empty
  -- text and reads back the blobs and values that it writes.
  pub export-import :
      (opts : Options) (b : Bundle) (w w' : World)
      → IsSound w.db
      → b.model.model_id ≢ ""
      → IsPlain b
      → IsReadBack b
      → import_decoded marshal opts b w ≡ (ok tt, w')
      → (t : Tenant) × (mv : ModelVersion) × (mv.model_id ≡ b.model.model_id) × IsExported b t mv w'
  export-import opts b w w' sound named plain trips s =
      let (t, mv, model, items) = import_decoded-HasItems marshal opts b w w' sound named plain s in
      (t, mv, model, HasItems-IsExported b t mv w' plain trips items)
