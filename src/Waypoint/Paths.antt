-- ===== src/Waypoint/Paths.antt =====
-- The handler `Paths` of internal/api/httpapi/handlers/waypoint/analysis.go.
pub mod Found
use contrato_core.Base.{ℕ, String, Option, none, some, List, [], map, ◌||◌, ◌==◌, string_eq}
use contrato_core.Storage.{Result, ok, err, Edge, ModelVersion}
use contrato_core.Storage.Server.{World}
use contrato_core.Storage.Exec.{Exec, pure, query, lift, ◌>>=◌}
use contrato_core.Snapshot.{model_nodes, model_edges}
use contrato_core.Repo.ModelVersions.{get_latest_enabled}
use contrato_core.Http.{Handler, Response, respond_ok, refuse_if, reply_internal, storage_error}
use contrato_core.Digraph.{Library, Arc, try_vertices, add_edges}

pub record PathsResponse : Type 0 where
  pub tenant_id : String
  pub model_id : String
  pub model_version : ℕ
  pub from_id : String
  pub to_id : String
  pub paths : List (List String)

-- `func(s string) string { return s }`
abbrev pub same_id : String → String
same_id s = s

abbrev pub plain_arc : Edge → Arc
plain_arc x = record { from_id = x.from_id; to_id = x.to_id; attributes = [] }

-- An error, or nil, becomes an empty list.
abbrev pub or_no_paths : Option (List (List String)) → List (List String)
or_no_paths none = []
or_no_paths (some ps) = ps

module _ {G : Type 0} (lib : Library String G) where
  unfoldable pub find_paths : String → ModelVersion → String → String → Exec (List (List String))
  find_paths t mv from_id to_id = do
    ids ← query (λ w. map (λ n. n.id) (model_nodes t mv w))
    arcs ← query (λ w. map plain_arc (model_edges t mv w))
    g ← lift (add_edges lib arcs (try_vertices lib ids (lib.new same_id)))
    pure (or_no_paths (lib.all_paths g from_id to_id))

  abbrev pub paths_response :
      String → ModelVersion → String → String → List (List String) → Response PathsResponse
  paths_response t mv from_id to_id found = respond_ok (record {
    tenant_id = t;
    model_id = mv.model_id;
    model_version = mv.version;
    from_id = from_id;
    to_id = to_id;
    paths = found;
  })

  abbrev pub with_version :
      String → String → String → Result ModelVersion × World → Response PathsResponse × World
  with_version t from_id to_id (ok mv, w) =
      reply_internal (paths_response t mv from_id to_id) (find_paths t mv from_id to_id) w
  with_version t from_id to_id (err e, w) = (storage_error e, w)

  unfoldable pub paths : String → String → String → Handler PathsResponse
  paths t from_id to_id =
      refuse_if (t == "" || (from_id == "" || to_id == "")) "tenant_id, from, and to required"
        (λ w. with_version t from_id to_id (get_latest_enabled t w))
