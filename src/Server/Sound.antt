-- ===== src/Server/Sound.antt =====
-- The tables under any requests to the server.
pub mod Reading
use contrato_core.Base.{
  ◌≡◌, refl, String, Bool, true, false, not, Bool-cases, inl, inr, Option, none, some, List, [],
  ◌∷◌, ◌==◌, string_eq, if◌then◌else◌,
}
use contrato_core.Storage.{Result, ok, err}
use contrato_core.Storage.Server.{Db, World}
use contrato_core.Storage.Host.{signal}
use contrato_core.Storage.Exec.{query}
use contrato_core.Repo.Versioned.Appends.{Reads-query}
use contrato_core.Bundle.Import.Sound.{IsSound}
use contrato_core.Http.{Handler, Response}
use contrato_core.Http.Guards.{Guards, Guards-answer, Keeps-of_Reads}
use contrato_core.Http.Reading.{
  list_model_versions-Guards, get_model_version-Guards, get_node-Guards, list_edges-Guards,
  get_property-Guards, list_contracts-Guards, get_contract-Guards,
}
use contrato_core.Http.Writing.{
  create_model_version-Guards, set_version-Guards, create_node-Guards, update_node-Guards,
  create_edge-Guards, update_edge-Guards, put_property-Guards, create_contract-Guards,
  set_contract-Guards,
}
use contrato_core.Http.Graph.Guarded.{list_nodes-Guards}
use contrato_core.Frontier.Guarded.{holes-Guards, boundary-Guards, implied_edges-Guards}
use contrato_core.Waypoint.Guarded.{gaps-Guards, paths-Guards}
use contrato_core.Access.{Request, Provider, Engine, Features}
use contrato_core.Access.Guarded.{with_auth-Guards}
use contrato_core.Routes.{Route}
use contrato_core.Routes
use contrato_core.Server.{
  Payload, Incoming, Libraries, sends, sent_as, pinged, health, handle, routed, route_request,
  serve, serve_all,
}

module _ {P : Db → Type 0} where
  pub Guards-sends :
      {A : Type 0} (wrap : A → Payload) (h : Handler A) → Guards P h → Guards P (sends wrap h)
  unfolding sends
  Guards-sends {A} wrap h g = record { at = λ w p. go (h w) (g.at w p) }
    where
      go : (o : Response A × World) → P o.1.db → P (sent_as wrap o).1.db
      go (r, w) p = p

  pub health-Guards : Guards P health
  unfolding health
  health-Guards = record {
    at = λ w p. go (signal w) ((Keeps-of_Reads P signal (Reads-query λ v. tt)).at w p);
  }
    where
      go : (o : Result (Unit {0}) × World) → P o.1.db → P (pinged o).1.db
      go (ok _, w) p = p
      go (err x, w) p = p

module _ {G H : Type 0} (libs : Libraries G H) where
  -- Every route keeps the invariants of the tables.
  handle-Guards :
      (e : Routes.Endpoint) (q p : String → String) (b : String)
      → Guards IsSound (handle libs e q p b)
  unfolding handle
  handle-Guards Routes.health q p b = health-Guards
  handle-Guards Routes.list_model_versions q p b =
      Guards-sends _ _ (list_model_versions-Guards IsSound _ _)
  handle-Guards Routes.create_model_version q p b = Guards-sends _ _ (create_model_version-Guards _)
  handle-Guards Routes.get_model_version q p b =
      Guards-sends _ _ (get_model_version-Guards IsSound _ _)
  handle-Guards Routes.set_model_version_status q p b = Guards-sends _ _ (set_version-Guards _)
  handle-Guards Routes.list_nodes q p b = Guards-sends _ _ (list_nodes-Guards IsSound _ _ _)
  handle-Guards Routes.create_node q p b = Guards-sends _ _ (create_node-Guards _)
  handle-Guards Routes.get_node q p b = Guards-sends _ _ (get_node-Guards IsSound _ _)
  handle-Guards Routes.update_node q p b = Guards-sends _ _ (update_node-Guards _ _ _ _)
  handle-Guards Routes.list_edges q p b = Guards-sends _ _ (list_edges-Guards IsSound _ _ _ _)
  handle-Guards Routes.create_edge q p b = Guards-sends _ _ (create_edge-Guards _)
  handle-Guards Routes.update_edge q p b = Guards-sends _ _ (update_edge-Guards _ _ _ _)
  handle-Guards Routes.get_property q p b = Guards-sends _ _ (get_property-Guards IsSound _ _ _ _)
  handle-Guards Routes.put_property q p b = Guards-sends _ _ (put_property-Guards _ _ _ _ _ _)
  handle-Guards Routes.list_contracts q p b = Guards-sends _ _ (list_contracts-Guards IsSound _ _ _)
  handle-Guards Routes.create_contract q p b = Guards-sends _ _ (create_contract-Guards _)
  handle-Guards Routes.get_contract q p b = Guards-sends _ _ (get_contract-Guards IsSound _ _)
  handle-Guards Routes.set_contract_status q p b = Guards-sends _ _ (set_contract-Guards _ _)
  handle-Guards Routes.find_holes q p b = Guards-sends _ _ (holes-Guards IsSound _ _ _)
  handle-Guards Routes.find_boundary q p b = Guards-sends _ _ (boundary-Guards IsSound _ _ _)
  handle-Guards Routes.find_implied_edges q p b =
      Guards-sends _ _ (implied_edges-Guards IsSound _ _ _ _ _)
  handle-Guards Routes.find_gaps q p b = Guards-sends _ _ (gaps-Guards IsSound _ _)
  handle-Guards Routes.find_paths q p b = Guards-sends _ _ (paths-Guards IsSound _ _ _ _)
  handle-Guards Routes.resolve q p b = Guards-answer _
  handle-Guards Routes.simulate q p b = Guards-answer _

  routed-Guards : (i : Incoming) (r : Option Route) → Guards IsSound (routed libs i r)
  routed-Guards i none = Guards-answer _
  routed-Guards i (some r) = handle-Guards r.endpoint _ _ _

  serve-Guards :
      (an : Provider) (az : Engine) (f : Features) (i : Incoming)
      → Guards IsSound (serve libs an az f i)
  unfolding serve route_request
  serve-Guards an az f i = with_auth-Guards IsSound an az _ i.request λ ac. routed-Guards i _

  -- Where the rows of every key are numbered 1, 2, …, and every record belongs to a tenant and is
  -- pinned to a model version that exist, both hold after any sequence of HTTP requests, whatever
  -- their methods, paths and bodies are, whoever sends them, and whichever statements fail.
  pub serve_all-IsSound :
      (an : Provider) (az : Engine) (f : Features) (is : List Incoming) (w : World)
      → IsSound w.db
      → IsSound (serve_all libs an az f is w).db
  unfolding serve_all
  serve_all-IsSound an az f [] w h = h
  serve_all-IsSound an az f (i ∷ is) w h =
      serve_all-IsSound an az f is (serve libs an az f i w).1 ((serve-Guards an az f i).at w h)
