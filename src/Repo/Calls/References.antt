-- ===== src/Repo/Calls/References.antt =====
-- The references of every record to its tenant and its model version, under any writes.
use contrato_core.Base.{
  ℕ, ◌≡◌, String, true, not, any, Option, none, some, List, ◌∷◌, pair_eq, string_eq, nat_eq, ◌==◌,
  All, All-mono, All-select, arith, Bool-cases, inl, inr,
}
use contrato_core.Storage.{Tenant, Kind, Status, ModelVersion, Node, Edge, Property}
use contrato_core.Storage.Server.{Db, World, ContractRow, ObjectRow, has_tenant, has_model}
use contrato_core.Storage.Statements.{insert_keeps, statement_keeps}
use contrato_core.Repo.Appending.{
  create-Appends, put_node-Appends, put_edge-Appends, put_property-Appends, append_contract-Appends,
  append_object-Appends,
}
use contrato_core.Repo.ModelVersions
use contrato_core.Repo.ModelVersions.{create}
use contrato_core.Repo.Graph.{nodes, edges, put_node, put_edge}
use contrato_core.Repo.Properties.{properties, put_property}
use contrato_core.Repo.Contracts.{contracts, append_contract}
use contrato_core.Repo.Objects.{objects, append_object, delete_by_node_id, object_key}
use contrato_core.Repo.Registries.{
  tenant_of, upsert_tenant, create_tenant, create_type, create_status, add_kind, add_status,
  is_kind, is_status,
}
use contrato_core.Repo.Calls.{
  Call, new_tenant, new_type, new_status, new_model_version, write_node, write_edge, write_property,
  write_contract, write_object, delete_objects, perform,
}
use contrato_core.Repo.Calls.WellFormed.{
  IsWellFormed, Appended_elim, put_contract-world, put_object-world,
}

abbrev pub Owned : Db → String → Type 0
Owned d t = has_tenant d t ≡ true

abbrev pub Pinned : Db → String → String → ℕ → Type 0
Pinned d t m v = Owned d t × (has_model d t m v ≡ true)

pub record IsLinked (d : Db) : Type 0 where
  pub types : All (λ r. Owned d r.tenant_id) d.types
  pub statuses : All (λ r. Owned d r.tenant_id) d.statuses
  pub model_versions : All (λ r. Owned d r.tenant_id) d.model_versions
  pub nodes : All (λ r. Pinned d r.tenant_id r.model_id r.model_version) d.nodes
  pub edges : All (λ r. Pinned d r.tenant_id r.model_id r.model_version) d.edges
  pub properties : All (λ r. Pinned d r.tenant_id r.model_id r.model_version) d.properties
  pub contracts : All (λ r. Pinned d r.tenant_id r.model_id r.model_version) d.contracts
  pub objects : All (λ r. Owned d r.tenant_id) d.objects

model_version-Owned :
    (d : Db) (r : ModelVersion) → ModelVersions.table.admits d r ≡ true → Owned d r.tenant_id
model_version-Owned d r h = ground arith

node-Pinned :
    (d : Db) (r : Node) → nodes.admits d r ≡ true → Pinned d r.tenant_id r.model_id r.model_version
node-Pinned d r h = ground arith

edge-Pinned :
    (d : Db) (r : Edge) → edges.admits d r ≡ true → Pinned d r.tenant_id r.model_id r.model_version
edge-Pinned d r h = ground arith

property-Pinned :
    (d : Db) (r : Property)
    → properties.admits d r ≡ true
    → Pinned d r.tenant_id r.model_id r.model_version
property-Pinned d r h = ground arith

contract-Pinned :
    (d : Db) (r : ContractRow)
    → contracts.admits d r ≡ true
    → Pinned d r.tenant_id r.model_id r.model_version
contract-Pinned d r h = ground arith

object-Owned : (d : Db) (r : ObjectRow) → objects.admits d r ≡ true → Owned d r.tenant_id
object-Owned d r h = ground arith

-- A database with one more tenant or one more model version has the references of the old one.
module _ (d : Db) (t : Tenant) where
  abbrev with_tenant : Db
  with_tenant = record d { tenants = t ∷ d.tenants }

  Owned-tenant : (s : String) → Owned d s → Owned with_tenant s
  unfolding has_tenant
  Owned-tenant s h = ground arith

  Pinned-tenant : (s m : String) (v : ℕ) → Pinned d s m v → Pinned with_tenant s m v
  unfolding has_model
  Pinned-tenant s m v (o, h) = (Owned-tenant s o, h)

  IsLinked-tenant : IsLinked d → IsLinked with_tenant
  IsLinked-tenant h = record {
    types = All-mono (λ r. Owned-tenant r.tenant_id) _ h.types;
    statuses = All-mono (λ r. Owned-tenant r.tenant_id) _ h.statuses;
    model_versions = All-mono (λ r. Owned-tenant r.tenant_id) _ h.model_versions;
    nodes = All-mono (λ r. Pinned-tenant r.tenant_id r.model_id r.model_version) _ h.nodes;
    edges = All-mono (λ r. Pinned-tenant r.tenant_id r.model_id r.model_version) _ h.edges;
    properties =
        All-mono (λ r. Pinned-tenant r.tenant_id r.model_id r.model_version) _ h.properties;
    contracts = All-mono (λ r. Pinned-tenant r.tenant_id r.model_id r.model_version) _ h.contracts;
    objects = All-mono (λ r. Owned-tenant r.tenant_id) _ h.objects;
  }

module _ (d : Db) (mv : ModelVersion) where
  abbrev with_model : Db
  with_model = record d { model_versions = mv ∷ d.model_versions }

  Pinned-model : (s m : String) (v : ℕ) → Pinned d s m v → Pinned with_model s m v
  unfolding has_tenant has_model
  Pinned-model s m v (o, h) = (o, ground (arith, h))

  IsLinked-model : Owned d mv.tenant_id → IsLinked d → IsLinked with_model
  unfolding has_tenant
  IsLinked-model o h = record {
    types = h.types;
    statuses = h.statuses;
    model_versions = (o, h.model_versions);
    nodes = All-mono (λ r. Pinned-model r.tenant_id r.model_id r.model_version) _ h.nodes;
    edges = All-mono (λ r. Pinned-model r.tenant_id r.model_id r.model_version) _ h.edges;
    properties = All-mono (λ r. Pinned-model r.tenant_id r.model_id r.model_version) _ h.properties;
    contracts = All-mono (λ r. Pinned-model r.tenant_id r.model_id r.model_version) _ h.contracts;
    objects = h.objects;
  }

upsert_tenant-IsLinked :
    (name : String) (w : World) (o : Option Tenant)
    → IsLinked w.db
    → IsLinked (upsert_tenant name w o).1
upsert_tenant-IsLinked name w none h = IsLinked-tenant w.db _ h
upsert_tenant-IsLinked name w (some t) h = h

add_kind-All :
    (P : Kind → Type 0) (k : Kind) (rs : List Kind) → P k → All P rs → All P (add_kind k rs)
add_kind-All P k rs p h = elim (Bool-cases (any (is_kind k) rs)) [
  | inl e ↦ rw e h
  | inr e ↦ rw e (p, h)
]

add_status-All :
    (P : Status → Type 0) (s : Status) (rs : List Status) → P s → All P rs → All P (add_status s rs)
add_status-All P s rs p h = elim (Bool-cases (any (is_status s) rs)) [
  | inl e ↦ rw e h
  | inr e ↦ rw e (p, h)
]

module _ (etag_of : String → String) where
  -- Each call, on success and on failure, keeps the references of every record.
  pub perform-IsLinked :
      (c : Call) (w : World) → IsWellFormed w.db → IsLinked w.db → IsLinked (perform etag_of c w).db
  unfolding perform create_type create_status create_tenant delete_by_node_id has_tenant has_model
  perform-IsLinked (new_tenant name) w n h =
      insert_keeps IsLinked _ _ w h (λ _. upsert_tenant-IsLinked name w (tenant_of name w) h)
  perform-IsLinked (new_type k) w n h =
      insert_keeps IsLinked _ _ w h
        (λ ad. assumption (add_kind-All (λ r. Owned w.db r.tenant_id) k w.db.types ad h.types))
  perform-IsLinked (new_status s) w n h = insert_keeps IsLinked _ _ w h (λ ad.
      assumption (add_status-All (λ r. Owned w.db r.tenant_id) s w.db.statuses ad h.statuses))
  perform-IsLinked (new_model_version mv) w n h =
      Appended_elim ModelVersions.table IsLinked w.db (create mv w) h
        (λ r _ ad. IsLinked-model w.db r (model_version-Owned w.db r ad) h)
        ((create-Appends mv).at w n.model_versions)
  perform-IsLinked (write_node x opts) w n h =
      Appended_elim nodes IsLinked w.db (put_node x opts w) h
        (λ r _ ad. assumption (node-Pinned w.db r ad)) ((put_node-Appends x opts).at w n.nodes)
  perform-IsLinked (write_edge x opts) w n h =
      Appended_elim edges IsLinked w.db (put_edge x opts w) h
        (λ r _ ad. assumption (edge-Pinned w.db r ad)) ((put_edge-Appends x opts).at w n.edges)
  perform-IsLinked (write_property p opts) w n h =
      Appended_elim properties IsLinked w.db (put_property p opts w) h
        (λ r _ ad. assumption (property-Pinned w.db r ad))
        ((put_property-Appends p opts).at w n.properties)
  perform-IsLinked (write_contract rec opts) w n h = rw (put_contract-world rec opts w) (
      Appended_elim contracts IsLinked w.db (append_contract rec opts w) h
        (λ r _ ad. assumption (contract-Pinned w.db r ad))
        ((append_contract-Appends rec opts).at w n.contracts))
  perform-IsLinked (write_object o opts) w n h = rw (put_object-world etag_of o opts w) (
      Appended_elim objects IsLinked w.db (append_object etag_of o opts w) h
        (λ r _ ad. assumption (object-Owned w.db r ad))
        ((append_object-Appends etag_of o opts).at w n.objects))
  perform-IsLinked (delete_objects tenant_id node_id) w n h = statement_keeps IsLinked _ w h (
      assumption (
        All-select (λ r. Owned w.db r.tenant_id) (λ r. not (object_key r == (tenant_id, node_id)))
          w.db.objects h.objects))
