-- ===== src/Bundle/Import/Fresh.antt =====
-- The model version that the import creates, and the records that were there before it.
use contrato_core.Base.{
  Bool, ℕ, ◌≡◌, ◌≢◌, refl, ap, subst, String, true, false, ◌&&◌, any, select, List, [], ◌∷◌, arith,
  All, Bool-cases, inl, inr, pair_eq, string_eq, nat_eq, ◌==◌, eq_iff,
}
use contrato_core.Table.History.{has_version}
use contrato_core.Storage.{ok, Node, Edge, Property, ModelVersion}
use contrato_core.Storage.Server.{Db, World, has_model}
use contrato_core.Snapshot.{in_version}
use contrato_core.Repo.ModelVersions
use contrato_core.Repo.ModelVersions.{create, next, first}
use contrato_core.Repo.Appending.{create-Appends}
use contrato_core.Repo.Versioned.Returns.{
  Returns, Returns-bind, Returns-if, Returns-insert_row, of_returned,
}
use contrato_core.Repo.Versioned.Appends.{Appended}
use contrato_core.Repo.Calls.WellFormed.{IsWellFormed}
use contrato_core.Repo.Calls.References.{IsLinked, Pinned}

abbrev pub Names : ModelVersion → ModelVersion → Type 0
Names mv r = (r.tenant_id ≡ mv.tenant_id) × (mv.model_id ≢ "" → r.model_id ≡ mv.model_id)

create-Names : (mv : ModelVersion) → Returns (Names mv) (create mv)
unfolding create
create-Names mv = Returns-bind _ _ λ _.
    Returns-if (mv.model_id == "") _ _
      (λ b.
        Returns-insert_row ModelVersions.table _
          (λ w. (refl, λ full. absurd (full ((eq_iff mv.model_id "").0 b)))))
      (λ _. Returns-insert_row ModelVersions.table _ (λ w. (refl, λ _. refl)))

has_model_free :
    (mv : ModelVersion) (rs : List ModelVersion)
    → any (has_version ModelVersions.key ModelVersions.version (ModelVersions.key mv) mv.version) rs
      ≡ false
    → any
        (λ r. r.tenant_id == mv.tenant_id && (r.model_id == mv.model_id && r.version == mv.version))
        rs
      ≡ false
has_model_free mv [] free = refl
has_model_free mv (r ∷ rs) free = ground (arith, has_model_free mv rs)

-- A version that no row has is one that no record refers to.
not_pinned :
    (d : Db) (mv : ModelVersion) (t m : String) (v : ℕ)
    → has_model d mv.tenant_id mv.model_id mv.version ≡ false
    → has_model d t m v ≡ true
    → in_version mv mv.tenant_id t m v ≡ false
not_pinned d mv t m v free pinned = elim (Bool-cases (in_version mv mv.tenant_id t m v)) [
  | inl b ↦
      let (st, (sm, sv)) : (t ≡ mv.tenant_id) × ((m ≡ mv.model_id) × (v ≡ mv.version)) =
        ground (arith, eq_iff t mv.tenant_id, eq_iff m mv.model_id) in
      absurd (
        ground (
          arith,
          ap (λ x. has_model d x m v) st,
          ap (λ x. has_model d mv.tenant_id x v) sm,
          ap (λ x. has_model d mv.tenant_id mv.model_id x) sv,
        ))
  | inr b ↦ b
]

module _ {R : Type 0} (tenant_id model_id : R → String) (model_version : R → ℕ) where
  abbrev pub lies_in : String → ModelVersion → R → Bool
  lies_in t mv r = in_version mv t (tenant_id r) (model_id r) (model_version r)

  no_rows :
      (d : Db) (mv : ModelVersion) (rs : List R)
      → has_model d mv.tenant_id mv.model_id mv.version ≡ false
      → All (λ r. Pinned d (tenant_id r) (model_id r) (model_version r)) rs
      → select (lies_in mv.tenant_id mv) rs ≡ []
  no_rows d mv [] free h = refl
  no_rows d mv (r ∷ rs) free ((owned, pinned), h) = ground (
    arith,
    not_pinned d mv (tenant_id r) (model_id r) (model_version r) free pinned,
    no_rows d mv rs free h,
  )

abbrev pub node_in : String → ModelVersion → Node → Bool
node_in = lies_in (λ n. n.tenant_id) (λ n. n.model_id) (λ n. n.model_version)

abbrev pub edge_in : String → ModelVersion → Edge → Bool
edge_in = lies_in (λ x. x.tenant_id) (λ x. x.model_id) (λ x. x.model_version)

abbrev pub property_in : String → ModelVersion → Property → Bool
property_in = lies_in (λ p. p.tenant_id) (λ p. p.model_id) (λ p. p.model_version)

-- What the creation of a version of a named model leaves.
pub record IsFresh (d : Db) (t : String) (mv : ModelVersion) (d' : Db) : Type 0 where
  pub numbered : mv.version ≢ 0
  pub nodes : d'.nodes ≡ d.nodes
  pub edges : d'.edges ≡ d.edges
  pub properties : d'.properties ≡ d.properties
  pub no_nodes : select (node_in t mv) d.nodes ≡ []
  pub no_edges : select (edge_in t mv) d.edges ≡ []
  pub no_properties : select (property_in t mv) d.properties ≡ []

pub create-IsFresh :
    (given mv : ModelVersion) (w w' : World)
    → IsWellFormed w.db
    → IsLinked w.db
    → create given w ≡ (ok mv, w')
    → Names given mv × IsFresh w.db given.tenant_id mv w'.db
unfolding has_model
create-IsFresh given mv w w' numbered linked s =
    let (grown, next, admitted) =
      subst (Appended ModelVersions.table w.db) s
        ((create-Appends given).at w numbered.model_versions) in
    let free : has_model w.db mv.tenant_id mv.model_id mv.version ≡ false =
      has_model_free mv w.db.model_versions (ground arith) in
    let names = of_returned _ w w' mv (create-Names given) s in
    (
      names,
      subst (λ t. IsFresh w.db t mv w'.db) names.0
          (record {
            numbered = omega arith;
            nodes = ap (λ (d : Db). d.nodes) grown;
            edges = ap (λ (d : Db). d.edges) grown;
            properties = ap (λ (d : Db). d.properties) grown;
            no_nodes =
                no_rows (λ (n : Node). n.tenant_id) (λ n. n.model_id) (λ n. n.model_version) w.db mv
                  w.db.nodes free linked.nodes;
            no_edges =
                no_rows (λ (x : Edge). x.tenant_id) (λ x. x.model_id) (λ x. x.model_version) w.db mv
                  w.db.edges free linked.edges;
            no_properties =
                no_rows (λ (p : Property). p.tenant_id) (λ p. p.model_id) (λ p. p.model_version)
                  w.db mv w.db.properties free linked.properties;
          }),
    )
