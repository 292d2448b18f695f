-- ===== src/Http/ModelVersions/Disable.antt =====
-- `SetStatus` of internal/api/httpapi/handlers/model_versions.go and the enabled model version.
use contrato_core.Base.{
  ℕ, ◌≡◌, ◌≢◌, refl, sym, ap, subst, ◌∙◌, String, none, List, ◌∷◌, arith, eq_iff, ◌==◌, string_eq,
  pair_eq,
}
use contrato_core.Table.{newest}
use contrato_core.Storage.{Result, ok, err, ModelVersion}
use contrato_core.Storage.Server.{Db, World}
use contrato_core.Storage.Exec.{continue, ◌>>=◌}
use contrato_core.Storage.Statements.{OnSuccess, query_row_same}
use contrato_core.Repo.Versioned.Appends.{Appended, Reads-query_row}
use contrato_core.Repo.Versioned.Returns.{Returns, Returns-bind, Returns-if, Returns-insert_row}
use contrato_core.Repo.Appending.{create-Appends}
use contrato_core.Repo.ModelVersions
use contrato_core.Repo.ModelVersions.{
  created, is_enabled, default_to, first, next, get_latest_enabled,
}
use contrato_core.Repo.Calls.WellFormed.{Numbered}
use contrato_core.Http.ModelVersions.{StatusBody, change_status}

get_world :
    (tenant_id model_id : String) (v : ℕ) (w : World)
    → (ModelVersions.get tenant_id model_id v w).1.db ≡ w.db
unfolding ModelVersions.get
get_world tenant_id model_id v w = (Reads-query_row _).at w

create-Returns :
    (mv : ModelVersion)
    → Returns (λ v. v.status ≡ default_to "draft" mv.status) (ModelVersions.create mv)
unfolding ModelVersions.create
create-Returns mv = Returns-bind _ _ λ _.
    Returns-if (mv.model_id == "") _ _ (λ _. Returns-insert_row ModelVersions.table _ (λ w. refl))
      (λ _. Returns-insert_row ModelVersions.table _ (λ w. refl))

-- A row that is not enabled is passed over.
newest-cons_disabled :
    (t : String) (v : ModelVersion) (rs : List ModelVersion)
    → v.status ≢ "enabled"
    → newest created (is_enabled t) (v ∷ rs) ≡ newest created (is_enabled t) rs
unfolding newest
newest-cons_disabled t v rs h = ground (arith, eq_iff v.status "enabled")

not_enabled : (s : String) → s ≢ "enabled" → default_to "draft" s ≢ "enabled"
not_enabled s h e = ground (arith, eq_iff s "", eq_iff "draft" "enabled")

-- The latest enabled version of any tenant, in the world that a creation leaves.
create_disabled :
    (mv : ModelVersion) (w w₀ : World) (t : String)
    → w.db ≡ w₀.db
    → Numbered ModelVersions.table w₀.db
    → mv.status ≢ "enabled"
    → newest created (is_enabled t) (ModelVersions.create mv w).1.db.model_versions
      ≡ newest created (is_enabled t) w₀.db.model_versions
create_disabled mv w w₀ t s h off =
    go (ModelVersions.create mv w)
      ((create-Appends mv).at w (subst (Numbered ModelVersions.table) (sym s) h))
      ((create-Returns mv).at w)
  where
    go :
        (o : Result ModelVersion × World)
        → Appended ModelVersions.table w.db o
        → OnSuccess (λ v. v.status ≡ default_to "draft" mv.status) o.0
        → newest created (is_enabled t) o.1.db.model_versions
          ≡ newest created (is_enabled t) w₀.db.model_versions
    go (ok v, w') (grown, _, _) st =
        ap (λ (d : Db). newest created (is_enabled t) d.model_versions) grown
        ∙ newest-cons_disabled t v w.db.model_versions (λ e. not_enabled mv.status off (sym st ∙ e))
        ∙ ap (λ (d : Db). newest created (is_enabled t) d.model_versions) s
    go (err x, w') same _ =
        ap (λ (d : Db). newest created (is_enabled t) d.model_versions) (same ∙ s)

change_status_keeps :
    (b : StatusBody) (w : World) (t : String)
    → Numbered ModelVersions.table w.db
    → b.status ≢ "enabled"
    → newest created (is_enabled t) (change_status b w).1.db.model_versions
      ≡ newest created (is_enabled t) w.db.model_versions
unfolding change_status ◌>>=◌
change_status_keeps b w t h off =
    go (ModelVersions.get b.tenant_id b.model_id b.version w)
      (get_world b.tenant_id b.model_id b.version w)
  where
    go :
        (o : Result ModelVersion × World)
        → o.1.db ≡ w.db
        → newest created
            (is_enabled t)
            (continue o
              (λ mv. ModelVersions.create (record mv { status = b.status }))).1.db.model_versions
          ≡ newest created (is_enabled t) w.db.model_versions
    go (ok mv, w') s = create_disabled (record mv { status = b.status }) w' w t s h off
    go (err x, w') s = ap (λ (d : Db). newest created (is_enabled t) d.model_versions) s

-- Whatever the outcome of a status change to another status than `enabled`, the latest enabled
-- model version that is found for any tenant stays the same, if the server refuses neither read.
pub get_latest_enabled-change_status :
    (b : StatusBody) (w : World) (t : String)
    → Numbered ModelVersions.table w.db
    → b.status ≢ "enabled"
    → w.server.refuses w.ran ≡ none
    → (let w' = (change_status b w).1 in w'.server.refuses w'.ran ≡ none)
    → (get_latest_enabled t (change_status b w).1).0 ≡ (get_latest_enabled t w).0
unfolding get_latest_enabled
get_latest_enabled-change_status b w t h off quiet quiet' =
    query_row_same _ w (change_status b w).1 quiet quiet' (change_status_keeps b w t h off)
