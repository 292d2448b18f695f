-- ===== src/Repo/Calls/WellFormed.antt =====
-- The numbering of the versions in every table, under any sequence of writes.
use contrato_core.Base.{
  ◌+◌, ◌≡◌, sym, subst, String, true, Option, none, some, List, [], ◌∷◌, Eq, pair_eq, string_eq,
}
use contrato_core.Table.History.{IsHistory, last_version, without-IsHistory}
use contrato_core.Storage.{
  Tenant, Result, ok, err, ContractRecord, PutOptions, Object, ObjectPutOptions,
}
use contrato_core.Storage.Server.{Db, World}
use contrato_core.Storage.Statements.{insert_keeps, statement_keeps, world-scan}
use contrato_core.Repo.Versioned.{Versioned}
use contrato_core.Repo.Versioned.Appends.{Appended}
use contrato_core.Repo.Appending.{
  create-Appends, put_node-Appends, put_edge-Appends, put_property-Appends, append_contract-Appends,
  append_object-Appends,
}
use contrato_core.Repo.ModelVersions
use contrato_core.Repo.ModelVersions.{create}
use contrato_core.Repo.Graph.{nodes, edges, put_node, put_edge}
use contrato_core.Repo.Properties.{properties, put_property}
use contrato_core.Repo.Contracts.{contracts, put_contract, append_contract, scan_contract}
use contrato_core.Repo.Objects.{
  objects, put_object, append_object, scan_object, delete_by_node_id, object_key, object_version,
}
use contrato_core.Repo.Registries.{
  tenant_of, upsert_tenant, create_tenant, create_type, create_status,
}
use contrato_core.Repo.Calls.{
  Call, new_tenant, new_type, new_status, new_model_version, write_node, write_edge, write_property,
  write_contract, write_object, delete_objects, perform, perform_all,
}

abbrev pub Numbered : {R K : Type 0} ⦃e : Eq K⦄ → Versioned R K → Db → Type 0
Numbered t d = IsHistory t.key t.version (t.rows d)

pub record IsWellFormed (d : Db) : Type 0 where
  pub model_versions : Numbered ModelVersions.table d
  pub nodes : Numbered nodes d
  pub edges : Numbered edges d
  pub properties : Numbered properties d
  pub contracts : Numbered contracts d
  pub objects : Numbered objects d

-- To prove a property of the database that a write leaves: it holds with one more row.
module _ {R K : Type 0} ⦃e : Eq K⦄ (t : Versioned R K) (P : Db → Type 0) where
  pub Appended_elim :
      (d : Db) (o : Result R × World)
      → P d
      → ((r : R)
          → t.version r ≡ last_version t.key t.version (t.key r) (t.rows d) + 1
          → t.admits d r ≡ true
          → P (t.put (r ∷ t.rows d) d))
      → Appended t d o
      → P o.1.db
  Appended_elim d (ok r, w) h grow (s, next, ad) = subst P (sym s) (grow r next ad)
  Appended_elim d (err x, w) h grow s = subst P (sym s) h

pub put_contract-world :
    (rec : ContractRecord) (opts : PutOptions) (w : World)
    → (put_contract rec opts w).1 ≡ (append_contract rec opts w).1
put_contract-world rec opts w =
    unfold put_contract in world-scan scan_contract (append_contract rec opts) w

pub put_object-world :
    (etag_of : String → String) (o : Object) (opts : ObjectPutOptions) (w : World)
    → (put_object etag_of o opts w).1 ≡ (append_object etag_of o opts w).1
put_object-world etag_of o opts w =
    unfold put_object in world-scan scan_object (append_object etag_of o opts) w

upsert_tenant-IsWellFormed :
    (name : String) (w : World) (o : Option Tenant)
    → IsWellFormed w.db
    → IsWellFormed (upsert_tenant name w o).1
upsert_tenant-IsWellFormed name w none h = assumption
upsert_tenant-IsWellFormed name w (some t) h = h

module _ (etag_of : String → String) where
  -- Each call, on success and on failure, keeps the numbering of every table.
  pub perform-IsWellFormed :
      (c : Call) (w : World) → IsWellFormed w.db → IsWellFormed (perform etag_of c w).db
  unfolding perform create_type create_status create_tenant delete_by_node_id
  perform-IsWellFormed (new_tenant name) w h =
      insert_keeps IsWellFormed _ _ w h
        (λ _. upsert_tenant-IsWellFormed name w (tenant_of name w) h)
  perform-IsWellFormed (new_type k) w h = insert_keeps IsWellFormed _ _ w h (λ _. assumption)
  perform-IsWellFormed (new_status s) w h = insert_keeps IsWellFormed _ _ w h (λ _. assumption)
  perform-IsWellFormed (new_model_version mv) w h =
      Appended_elim ModelVersions.table IsWellFormed w.db (create mv w) h (λ r next ad. assumption)
        ((create-Appends mv).at w h.model_versions)
  perform-IsWellFormed (write_node n opts) w h =
      Appended_elim nodes IsWellFormed w.db (put_node n opts w) h (λ r next ad. assumption)
        ((put_node-Appends n opts).at w h.nodes)
  perform-IsWellFormed (write_edge x opts) w h =
      Appended_elim edges IsWellFormed w.db (put_edge x opts w) h (λ r next ad. assumption)
        ((put_edge-Appends x opts).at w h.edges)
  perform-IsWellFormed (write_property p opts) w h =
      Appended_elim properties IsWellFormed w.db (put_property p opts w) h (λ r next ad. assumption)
        ((put_property-Appends p opts).at w h.properties)
  perform-IsWellFormed (write_contract rec opts) w h = rw (put_contract-world rec opts w) (
      Appended_elim contracts IsWellFormed w.db (append_contract rec opts w) h
        (λ r next ad. assumption) ((append_contract-Appends rec opts).at w h.contracts))
  perform-IsWellFormed (write_object o opts) w h = rw (put_object-world etag_of o opts w) (
      Appended_elim objects IsWellFormed w.db (append_object etag_of o opts w) h
        (λ r next ad. assumption) ((append_object-Appends etag_of o opts).at w h.objects))
  perform-IsWellFormed (delete_objects tenant_id node_id) w h = statement_keeps IsWellFormed _ w h (
      assumption
        (without-IsHistory object_key object_version (tenant_id, node_id) w.db.objects h.objects))

  -- If the versions of every key in every table are 1, 2, … in the order of insertion, they are so
  -- after any sequence of writes, whichever of them fail.
  pub perform_all-IsWellFormed :
      (cs : List Call) (w : World) → IsWellFormed w.db → IsWellFormed (perform_all etag_of cs w).db
  unfolding perform_all
  perform_all-IsWellFormed [] w h = h
  perform_all-IsWellFormed (c ∷ cs) w h =
      perform_all-IsWellFormed cs (perform etag_of c w) (perform-IsWellFormed c w h)
