-- ===== src/Waypoint/Guarded.antt =====
-- What the gaps and the paths leave of the tables.
use contrato_core.Base.{String, Option, ◌==◌, string_eq}
use contrato_core.Json.{Json}
use contrato_core.Storage.{Result, ok, err, ModelVersion}
use contrato_core.Storage.Server.{Db, World}
use contrato_core.Repo.Versioned.Appends.{Reads, write_rules}
use contrato_core.Repo.ModelVersions.{get_latest_enabled}
use contrato_core.Http.Guards.{Guards, Keeps-of_Reads, Guards-reply_internal, Guards-refuse_if}
use contrato_core.Http.Reading.{get_latest_enabled-Reads}
use contrato_core.Frontier.Guarded.{Reads-lift}
use contrato_core.Digraph.{Library}
use contrato_core.Waypoint.{gaps, detect_gaps, with_model, gaps_response}
use contrato_core.Waypoint.Paths.{paths, find_paths, paths_response}
use contrato_core.Waypoint.Paths

module _ (P : Db → Type 0) where
  latest_keeps : (t : String) (w : World) → P w.db → P (get_latest_enabled t w).1.db
  latest_keeps t w h = (Keeps-of_Reads P (get_latest_enabled t) (get_latest_enabled-Reads t)).at w h

  detect_gaps-Reads :
      (unmarshal : String → Option Json) (t : String) (mv : ModelVersion)
      → Reads (detect_gaps unmarshal t mv)
  unfolding detect_gaps
  detect_gaps-Reads unmarshal t mv = search write_rules depth 8

  pub gaps-Guards : (unmarshal : String → Option Json) (t : String) → Guards P (gaps unmarshal t)
  unfolding gaps with_model
  gaps-Guards unmarshal t =
      Guards-refuse_if (t == "") "tenant_id required" _
        (record { at = λ w h. go (get_latest_enabled t w) (latest_keeps t w h) })
    where
      go : (o : Result ModelVersion × World) → P o.1.db → P (with_model unmarshal t o).1.db
      go (ok mv, w) h =
          (Guards-reply_internal (gaps_response t mv) (detect_gaps unmarshal t mv)
              (Keeps-of_Reads P (detect_gaps unmarshal t mv) (detect_gaps-Reads unmarshal t mv))).at
            w h
      go (err x, w) h = h

  module _ {G : Type 0} (lib : Library String G) where
    find_paths-Reads :
        (t : String) (mv : ModelVersion) (from to : String) → Reads (find_paths lib t mv from to)
    unfolding find_paths
    find_paths-Reads t mv from to = search (write_rules, Reads-lift) depth 8

    pub paths-Guards : (t from to : String) → Guards P (paths lib t from to)
    unfolding paths
    paths-Guards t from to =
        Guards-refuse_if _ "tenant_id, from, and to required" _
          (record { at = λ w h. go (get_latest_enabled t w) (latest_keeps t w h) })
      where
        go :
            (o : Result ModelVersion × World)
            → P o.1.db
            → P (Paths.with_version lib t from to o).1.db
        go (ok mv, w) h =
            (Guards-reply_internal (paths_response lib t mv from to) (find_paths lib t mv from to)
                (Keeps-of_Reads P (find_paths lib t mv from to) (find_paths-Reads t mv from to))).at
              w h
        go (err x, w) h = h
