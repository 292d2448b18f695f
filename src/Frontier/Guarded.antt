-- ===== src/Frontier/Guarded.antt =====
-- What the analyses leave of the tables.
use contrato_core.Base.{refl, String, Option, List, ◌==◌, string_eq}
use contrato_core.Json.{Map}
use contrato_core.Storage.{Result, ok, err, ModelVersion}
use contrato_core.Storage.Server.{Db, World}
use contrato_core.Storage.Exec.{lift}
use contrato_core.Repo.Versioned.Appends.{Reads, write_rules}
use contrato_core.Repo.ModelVersions.{get_latest_enabled}
use contrato_core.Http.{Response}
use contrato_core.Http.Guards.{Guards, Keeps-of_Reads, Guards-reply_internal, Guards-refuse_if}
use contrato_core.Http.Reading.{get_latest_enabled-Reads}
use contrato_core.Digraph.{Library}
use contrato_core.Frontier.{
  GraphNode, GraphEdge, load_graph, load_and_build, with_version, analysis,
}
use contrato_core.Frontier.Holes.{holes}
use contrato_core.Frontier.Boundary.{boundary}
use contrato_core.Frontier.Implied.{implied_edges}

pub Reads-lift : {A : Type 0} (r : Result A) → Reads (lift r)
Reads-lift r = record { at = λ w. refl }

module _ (P : Db → Type 0) {G : Type 0} (lib : Library GraphNode G)
    (unmarshal : String → Option Map) where
  load_and_build-Reads :
      (t : String) (mv : ModelVersion) → Reads (load_and_build lib unmarshal t mv)
  unfolding load_and_build load_graph
  load_and_build-Reads t mv = search (write_rules, Reads-lift) depth 8

  analysis-Guards :
      {A : Type 0} (t : String)
      (answer : ModelVersion → List GraphNode → List GraphEdge → G → Response A)
      → Guards P (analysis lib unmarshal t answer)
  unfolding analysis
  analysis-Guards {A} t answer = Guards-refuse_if (t == "") "tenant_id required" _ (record {
    at = λ w h.
        go (get_latest_enabled t w)
          ((Keeps-of_Reads P (get_latest_enabled t) (get_latest_enabled-Reads t)).at w h);
  })
    where
      go :
          (o : Result ModelVersion × World)
          → P o.1.db
          → P (with_version lib unmarshal t answer o).1.db
      go (ok mv, w) h =
          (Guards-reply_internal (λ loaded. answer mv loaded.0 loaded.1 loaded.2)
              (load_and_build lib unmarshal t mv)
              (Keeps-of_Reads P (load_and_build lib unmarshal t mv) (load_and_build-Reads t mv))).at
            w h
      go (err x, w) h = h

  pub holes-Guards : (t : String) → Guards P (holes lib unmarshal t)
  unfolding holes
  holes-Guards t = analysis-Guards t _

  pub boundary-Guards : (t : String) → Guards P (boundary lib unmarshal t)
  unfolding boundary
  boundary-Guards t = analysis-Guards t _

  pub implied_edges-Guards :
      (range delegates_range : List String → List String) (t : String)
      → Guards P (implied_edges lib range delegates_range unmarshal t)
  unfolding implied_edges
  implied_edges-Guards range delegates_range t = analysis-Guards t _
