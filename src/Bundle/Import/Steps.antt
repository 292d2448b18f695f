-- ===== src/Bundle/Import/Steps.antt =====
-- The statements of the import, where the server refuses nothing.
use contrato_core.Base.{
  ℕ, ◌≡◌, ◌≢◌, refl, String, true, false, some, List, [], ◌∷◌, any, find, Bool-cases, inl, inr,
  arith, eq_iff, ◌==◌, nat_eq, string_eq, pair_eq,
}
use contrato_core.Table.History.{any-row_at_above, has_version}
use contrato_core.Json.{Map}
use contrato_core.Storage.{ok, Tenant, ModelVersion}
use contrato_core.Storage.Server.{Db, World, has_tenant, has_model}
use contrato_core.Storage.Exec.{pure, reject_if, ◌>>=◌}
use contrato_core.Storage.Succeeds.{
  Quiet, Succeeds, Succeeds-pure, Succeeds-bind, Succeeds-wrap, Succeeds-reject_if, Succeeds-insert,
}
use contrato_core.Repo.Versioned.{check_expected}
use contrato_core.Repo.Versioned.Check.{with_row, insert_row_ok, Succeeds-insert_next}
use contrato_core.Repo.ModelVersions
use contrato_core.Repo.ModelVersions.{create, next, pinned, default_to}
use contrato_core.Repo.Graph.{
  nodes, edges, put_node, put_edge, next_node, next_edge, filled_node, filled_edge,
}
use contrato_core.Repo.Properties.{properties, put_property, next_property, filled_property}
use contrato_core.Repo.Contracts.{
  contracts, put_contract, append_contract, next_contract, filled_contract,
}
use contrato_core.Repo.Registries.{create_type, create_status}
use contrato_core.Bundle
use contrato_core.Bundle.{Bundle}
use contrato_core.Bundle.Import.{
  node_record, edge_record, property_record, contract_record, import_status, import_type,
  import_node, import_edge, import_property, import_contract,
}

-- The tenant, and the model version, that the records refer to.
abbrev pub HasModel : Tenant → ModelVersion → Db → Type 0
HasModel t mv d = (has_tenant d t.id ≡ true) × (has_model d t.id mv.model_id mv.version ≡ true)

pub unnamed : (s : String) → s ≢ "" → (s == "") ≡ false
unnamed s h = ground (arith, eq_iff s "")

pinned-named : (t m : String) (v : ℕ) → m ≢ "" → v ≢ 0 → pinned t m v ≡ pure (m, v)
unfolding pinned
pinned-named t m v named numbered = rw (unnamed m named, zero_ne v numbered) refl
  where
    zero_ne : (n : ℕ) → n ≢ 0 → (n == 0) ≡ false
    zero_ne n h = ground arith

module _ (marshal : Map → String) (t : Tenant) (mv : ModelVersion) (named : t.id ≢ "")
    (model_named : mv.model_id ≢ "") (numbered : mv.version ≢ 0) where
  pub import_node-Succeeds :
      (n : Bundle.Node)
      → (n.id ≢ "") × (n.type ≢ "")
      → Succeeds (HasModel t mv) (import_node marshal t mv n)
  unfolding import_node put_node check_expected has_tenant has_model ◌>>=◌ pure
  import_node-Succeeds n (id, type) = Succeeds-wrap "put node" _ (
      Succeeds-bind _ _ (Succeeds-reject_if _ _ (unnamed t.id named)) λ _.
        Succeeds-bind _ _ (Succeeds-reject_if _ _ (unnamed n.type type)) λ _.
          rw (pinned-named t.id mv.model_id mv.version model_named numbered, unnamed n.id id)
            (Succeeds-insert_next nodes
              (next_node (filled_node (node_record marshal t mv n) (mv.model_id, mv.version)))
              (λ w. refl) (λ w (tenant, model) free. rw (tenant, model, free) refl) (λ d rs h. h)))

  pub import_edge-Succeeds :
      (x : Bundle.Edge)
      → (x.from_id ≢ "") × (x.to_id ≢ "") × (x.type ≢ "")
      → Succeeds (HasModel t mv) (import_edge marshal t mv x)
  unfolding import_edge put_edge check_expected has_tenant has_model ◌>>=◌ pure
  import_edge-Succeeds x (from_id, to_id, type) = Succeeds-wrap "put edge" _ (
      Succeeds-bind _ _ (Succeeds-reject_if _ _ (unnamed t.id named)) λ _.
        Succeeds-bind _ _ (Succeeds-reject_if _ _ (unnamed x.type type)) λ _.
          Succeeds-bind _ _
            (Succeeds-reject_if _ _ (rw (unnamed x.from_id from_id, unnamed x.to_id to_id) refl))
            λ _. rw (pinned-named t.id mv.model_id mv.version model_named numbered) (
              Succeeds-insert_next edges
                (next_edge (filled_edge (edge_record marshal t mv x) (mv.model_id, mv.version)))
                (λ w. refl) (λ w (tenant, model) free. rw (tenant, model, free) refl)
                (λ d rs h. h)))

  pub import_property-Succeeds :
      (p : Bundle.Property)
      → (p.owner_type ≢ "") × (p.owner_id ≢ "") × (p.key ≢ "")
      → Succeeds (HasModel t mv) (import_property marshal t mv p)
  unfolding import_property put_property check_expected has_tenant has_model ◌>>=◌ pure
  import_property-Succeeds p (owner_type, owner_id, key) = Succeeds-wrap "put property" _ (
      Succeeds-bind _ _
        (Succeeds-reject_if _ _ (
          rw
            (
              unnamed t.id named,
              unnamed p.owner_type owner_type,
              unnamed p.owner_id owner_id,
              unnamed p.key key,
            )
            refl))
        λ _. rw (pinned-named t.id mv.model_id mv.version model_named numbered) (
          Succeeds-insert_next properties
            (next_property
              (filled_property (property_record marshal t mv p) (mv.model_id, mv.version)))
            (λ w. refl) (λ w (tenant, model) free. rw (tenant, model, free) refl) (λ d rs h. h)))

  pub import_contract-Succeeds :
      (c : Bundle.Contract)
      → (c.id ≢ "") × (c.type ≢ "") × (c.status ≢ "")
      → Succeeds (HasModel t mv) (import_contract marshal t mv c)
  unfolding import_contract put_contract append_contract check_expected has_tenant has_model ◌>>=◌
      pure
  import_contract-Succeeds c (id, type, status) = Succeeds-wrap "put contract" _ (
      Succeeds-bind _ _
        (Succeeds-bind _ _ (Succeeds-reject_if _ _ (unnamed t.id named)) λ _.
          Succeeds-bind _ _ (Succeeds-reject_if _ _ (unnamed c.type type)) λ _.
            Succeeds-bind _ _ (Succeeds-reject_if _ _ (unnamed c.status status)) λ _.
              rw (pinned-named t.id mv.model_id mv.version model_named numbered, unnamed c.id id)
                (Succeeds-insert_next contracts
                  (next_contract
                    (filled_contract (contract_record marshal t mv c) (mv.model_id, mv.version)))
                  (λ w. refl) (λ w (tenant, model) free. rw (tenant, model, free) refl)
                  (λ d rs h. h)))
        λ r. Succeeds-pure _)

abbrev pub HasTenant : Tenant → Db → Type 0
HasTenant t d = has_tenant d t.id ≡ true

pub import_status-Succeeds :
    (t : Tenant) (s : Bundle.Status) → Succeeds (HasTenant t) (import_status t s)
unfolding import_status create_status has_tenant
import_status-Succeeds t s = Succeeds-wrap _ _ (Succeeds-insert _ _ (λ w h. h) (λ w h. h))

pub import_type-Succeeds : (t : Tenant) (k : Bundle.Kind) → Succeeds (HasTenant t) (import_type t k)
unfolding import_type create_type has_tenant
import_type-Succeeds t k = Succeeds-wrap _ _ (Succeeds-insert _ _ (λ w h. h) (λ w h. h))

-- A new version of a named model, and what it leaves.
pub create_live :
    (given : ModelVersion) (w : World)
    → given.tenant_id ≢ ""
    → given.model_id ≢ ""
    → Quiet w
    → has_tenant w.db given.tenant_id ≡ true
    → (mv : ModelVersion) × (v : World) × (create given w ≡ (ok mv, v))
      × Quiet v
      × (mv.model_id ≢ "")
      × (mv.version ≢ 0)
      × (has_tenant v.db given.tenant_id ≡ true)
      × (has_model v.db given.tenant_id mv.model_id mv.version ≡ true)
unfolding create has_tenant has_model ◌>>=◌ pure reject_if
create_live given w named model_named q h =
    let new : World → ModelVersion =
      next (record given { status = default_to "draft" given.status }) in
    let free : any
          (has_version ModelVersions.key ModelVersions.version (ModelVersions.key (new w))
            (new w).version)
          w.db.model_versions
        ≡ false =
      any-row_at_above ModelVersions.key ModelVersions.version (ModelVersions.key (new w))
        (new w).version w.db.model_versions (omega arith) in
    (
      new w,
      with_row ModelVersions.table new w,
      rw (unnamed given.tenant_id named, unnamed given.model_id model_named)
          (insert_row_ok ModelVersions.table new w (q w.ran) (rw (h, free) refl)),
      q,
      model_named,
      (λ z. absurd (omega arith)),
      h,
      ground (arith, eq_iff given.tenant_id given.tenant_id, eq_iff given.model_id given.model_id),
    )

pub has_tenant_found :
    (name : String) (t : Tenant) (ts : List Tenant)
    → find (λ r. r.name == name) ts ≡ some t
    → any (λ r. r.id == t.id) ts ≡ true
has_tenant_found name t [] s = absurd (ground arith)
has_tenant_found name t (r ∷ ts) s = elim (Bool-cases (r.name == name)) [
  | inl b ↦ let same : r ≡ t = ground arith in rw same (ground (arith, eq_iff t.id t.id))
  | inr b ↦ ground (arith, has_tenant_found name t ts)
]
