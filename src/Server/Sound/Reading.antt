-- ===== src/Server/Sound/Reading.antt =====
-- The requests that only read.
use contrato_core.Base.{
  ◌≡◌, refl, sym, ◌∙◌, ap, String, Bool, true, false, ◌&&◌, inl, inr, Option, none, some, List, [],
  ◌∷◌, any, Exists, ◌==◌, string_eq, arith,
}
use contrato_core.Storage.Server.{Db, World}
use contrato_core.Http.Guards.{Guards, Guards-answer}
use contrato_core.Http.Reading.{
  list_model_versions-Guards, get_model_version-Guards, get_node-Guards, list_edges-Guards,
  get_property-Guards, list_contracts-Guards, get_contract-Guards,
}
use contrato_core.Http.Graph.Guarded.{list_nodes-Guards}
use contrato_core.Frontier.Guarded.{holes-Guards, boundary-Guards, implied_edges-Guards}
use contrato_core.Waypoint.Guarded.{gaps-Guards, paths-Guards}
use contrato_core.Access.{Provider, Engine, Features}
use contrato_core.Access.Guarded.{with_auth-Guards}
use contrato_core.Routes.{Route, routes, routes_with}
use contrato_core.Routes
use contrato_core.Routes.Unambiguous.{accepts}
use contrato_core.Server.{Incoming, Libraries, handle, routed, route_request, serve}
use contrato_core.Server.Sound.{Guards-sends, health-Guards}

-- The router chooses one of the routes that it is given, and one that fits the request.
pub record IsRouter {G H : Type 0} (libs : Libraries G H) : Type 0 where
  pub member :
      (rs : List Route) (method : String) (path : List String) (r : Route)
      → libs.choose rs method path ≡ some r
      → Exists (λ (s : Route). s ≡ r) rs
  pub fitting :
      (rs : List Route) (method : String) (path : List String) (r : Route)
      → libs.choose rs method path ≡ some r
      → accepts method path r ≡ true

abbrev writes : Routes.Endpoint → Bool
writes Routes.create_model_version = true
writes Routes.set_model_version_status = true
writes Routes.create_node = true
writes Routes.update_node = true
writes Routes.create_edge = true
writes Routes.update_edge = true
writes Routes.put_property = true
writes Routes.create_contract = true
writes Routes.set_contract_status = true
writes _ = false

module _ {G H : Type 0} (libs : Libraries G H) where
  handle_reading :
      (P : Db → Type 0) (e : Routes.Endpoint) (q p : String → String) (b : String)
      → writes e ≡ false
      → Guards P (handle libs e q p b)
  unfolding handle
  handle_reading P Routes.health q p b r = health-Guards
  handle_reading P Routes.list_model_versions q p b r =
      Guards-sends _ _ (list_model_versions-Guards P _ _)
  handle_reading P Routes.get_model_version q p b r =
      Guards-sends _ _ (get_model_version-Guards P _ _)
  handle_reading P Routes.list_nodes q p b r = Guards-sends _ _ (list_nodes-Guards P _ _ _)
  handle_reading P Routes.get_node q p b r = Guards-sends _ _ (get_node-Guards P _ _)
  handle_reading P Routes.list_edges q p b r = Guards-sends _ _ (list_edges-Guards P _ _ _ _)
  handle_reading P Routes.get_property q p b r = Guards-sends _ _ (get_property-Guards P _ _ _ _)
  handle_reading P Routes.list_contracts q p b r = Guards-sends _ _ (list_contracts-Guards P _ _ _)
  handle_reading P Routes.get_contract q p b r = Guards-sends _ _ (get_contract-Guards P _ _)
  handle_reading P Routes.find_holes q p b r = Guards-sends _ _ (holes-Guards P _ _ _)
  handle_reading P Routes.find_boundary q p b r = Guards-sends _ _ (boundary-Guards P _ _ _)
  handle_reading P Routes.find_implied_edges q p b r =
      Guards-sends _ _ (implied_edges-Guards P _ _ _ _ _)
  handle_reading P Routes.find_gaps q p b r = Guards-sends _ _ (gaps-Guards P _ _)
  handle_reading P Routes.find_paths q p b r = Guards-sends _ _ (paths-Guards P _ _ _ _)
  handle_reading P Routes.resolve q p b r = Guards-answer _
  handle_reading P Routes.simulate q p b r = Guards-answer _
  handle_reading P Routes.create_model_version q p b r = absurd (ground arith)
  handle_reading P Routes.set_model_version_status q p b r = absurd (ground arith)
  handle_reading P Routes.create_node q p b r = absurd (ground arith)
  handle_reading P Routes.update_node q p b r = absurd (ground arith)
  handle_reading P Routes.create_edge q p b r = absurd (ground arith)
  handle_reading P Routes.update_edge q p b r = absurd (ground arith)
  handle_reading P Routes.put_property q p b r = absurd (ground arith)
  handle_reading P Routes.create_contract q p b r = absurd (ground arith)
  handle_reading P Routes.set_contract_status q p b r = absurd (ground arith)

abbrev writes_on_get : Route → Bool
writes_on_get r = r.method == "GET" && writes r.endpoint

no_write_on_get : (a b c : Bool) → any writes_on_get (routes_with a b c) ≡ false
no_write_on_get true true true = refl
no_write_on_get true true false = refl
no_write_on_get true false true = refl
no_write_on_get true false false = refl
no_write_on_get false true true = refl
no_write_on_get false true false = refl
no_write_on_get false false true = refl
no_write_on_get false false false = refl

member_of_none :
    (rs : List Route) (r : Route)
    → any writes_on_get rs ≡ false
    → Exists (λ (s : Route). s ≡ r) rs
    → writes_on_get r ≡ false
member_of_none [] r h e = elim e [ ]
member_of_none (x ∷ rs) r h (inl s) = sym (ap writes_on_get s) ∙ ground arith
member_of_none (x ∷ rs) r h (inr e) = member_of_none rs r (ground arith) e

reading_get :
    (r : Route) (path : List String)
    → writes_on_get r ≡ false
    → accepts "GET" path r ≡ true
    → writes r.endpoint ≡ false
reading_get r path h a = ground arith

module _ {G H : Type 0} (libs : Libraries G H) (router : IsRouter libs) where
  routed_reading :
      (P : Db → Type 0) (f : Features) (i : Incoming) (o : Option Route)
      → i.request.method ≡ "GET"
      → libs.choose (routes f true) i.request.method (libs.segments i.request.path) ≡ o
      → Guards P (routed libs i o)
  routed_reading P f i none get e = Guards-answer _
  routed_reading P f i (some r) get e = handle_reading libs P r.endpoint _ _ _ (
      reading_get r (libs.segments i.request.path)
        (member_of_none (routes f true) r (no_write_on_get _ _ _)
          (router.member (routes f true) i.request.method (libs.segments i.request.path) r e))
        (ap (λ m. accepts m (libs.segments i.request.path) r) (sym get)
          ∙ router.fitting (routes f true) i.request.method (libs.segments i.request.path) r e))

  -- Where the router chooses a route that it has been given and that fits the request, a GET request
  -- changes no table, whoever sends it and whatever features are enabled.
  pub serve-get :
      (an : Provider) (az : Engine) (f : Features) (i : Incoming) (w : World)
      → i.request.method ≡ "GET"
      → (serve libs an az f i w).1.db ≡ w.db
  unfolding serve route_request
  serve-get an az f i w get =
      (with_auth-Guards (λ d. d ≡ w.db) an az _ i.request
          λ ac. routed_reading (λ d. d ≡ w.db) f i _ get refl).at
        w refl
