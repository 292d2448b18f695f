-- ===== src/Frontier/Built.antt =====
-- The graph that `loadGraph` and `buildGraph` make of a model version.
use contrato_core.Base.{
  ℕ, ◌≡◌, ◌≢◌, refl, ap, ◌∙◌, String, Bool, true, false, ◌&&◌, ◌||◌, not, Option, none, List, [],
  ◌∷◌, map, any, any-map, any-cong, select, length, find, All, All-mono, All-of_select, arith,
  eq_iff, ◌==◌, string_eq, pair_eq, nat_eq,
}
use contrato_core.Json.{Map}
use contrato_core.Table.History.{has_key}
use contrato_core.Table.Distinct
use contrato_core.Table.Distinct.{distinct_on, distinct_on-AreApart, distinct_on-All}
use contrato_core.Storage.{Result, ok, err, Err, Node, ModelVersion}
use contrato_core.Storage.Server.{World}
use contrato_core.Storage.Exec.{tick, pure, ◌>>=◌}
use contrato_core.Storage.Statements.{query_ok}
use contrato_core.Snapshot.{model_nodes, model_edges, node_before, in_version}
use contrato_core.Repo.Graph.{node_key, node_version}
use contrato_core.Repo.ModelVersions.{get_latest_enabled}
use contrato_core.Http.{Response, refuse_if, reply_internal}
use contrato_core.Digraph.{Library}
use contrato_core.Digraph.Laws.{IsDirected, has_vertex}
use contrato_core.Digraph.Filled.{
  AreApart, ends, dangles, merged, any-merged, add_vertices-AreApart, add_edges-merged,
  add_edges-dangling,
}
use contrato_core.Frontier.{
  GraphNode, GraphEdge, scan_node, scan_edge, node_id, arc_of, load_graph, build_graph,
  load_and_build, analysis,
}

-- The edge has an end that is the id of no node.
abbrev pub is_loose : List GraphNode → GraphEdge → Bool
is_loose ns x = not (any (λ n. n.id == x.from_id) ns && any (λ n. n.id == x.to_id) ns)

select_zero :
    {A : Type 0} (p : A → Bool) (xs : List A) → (length (select p xs) == 0) ≡ not (any p xs)
select_zero p [] = refl
select_zero p (x ∷ xs) = ground (arith, select_zero p xs)

arcs_at :
    (p : String × String → Bool) (xs : List GraphEdge) (arcs : List (String × String))
    → arcs ≡ merged (map arc_of xs) []
    → any p arcs ≡ any (λ x. p (x.from_id, x.to_id)) xs
arcs_at p xs arcs s =
    ap (any p) s
    ∙ any-merged p (map arc_of xs) []
    ∙ ground (arith, any-map (λ x. p (ends x)) arc_of xs)

module _ (unmarshal : String → Option Map) where
  other_id :
      (t : String) (n : Node) (ns : List Node)
      → n.tenant_id ≡ t
      → All (λ m. m.tenant_id ≡ t) ns
      → find (has_key node_key (node_key n)) ns ≡ none
      → any (λ m. m.id == n.id) (map (scan_node unmarshal) ns) ≡ false
  other_id t n [] own h s = refl
  other_id t n (m ∷ ns) own (same, h) s =
      ground (arith, eq_iff m.tenant_id n.tenant_id, other_id t n ns own h)

  scanned-AreApart :
      (t : String) (before : String × String → String × String → Bool) (ns : List Node)
      → All (λ m. m.tenant_id ≡ t) ns
      → Distinct.AreApart node_key node_version before ns
      → AreApart node_id (map (scan_node unmarshal) ns)
  scanned-AreApart t before [] h apart = tt
  scanned-AreApart t before (n ∷ ns) (own, h) (first, apart) =
      (other_id t n ns own h first, scanned-AreApart t before ns h apart)

  -- The ids of a model version's nodes are different.
  nodes-AreApart :
      (t : String) (mv : ModelVersion) (w : World)
      → AreApart node_id (map (scan_node unmarshal) (model_nodes t mv w))
  unfolding model_nodes
  nodes-AreApart t mv w =
      let chosen : List Node =
        select (λ n. in_version mv t n.tenant_id n.model_id n.model_version) w.db.nodes in
      scanned-AreApart t (node_before w.server.before)
        (distinct_on node_key node_version (node_before w.server.before) chosen)
        (distinct_on-All node_key node_version (node_before w.server.before) (λ m. m.tenant_id ≡ t)
          chosen (All-mono (λ m h. tenant m h) chosen (All-of_select _ w.db.nodes)))
        (distinct_on-AreApart node_key node_version (node_before w.server.before) chosen)
    where
      tenant :
          (m : Node)
          → in_version mv t m.tenant_id m.model_id m.model_version ≡ true
          → m.tenant_id ≡ t
      tenant m h = ground (arith, eq_iff m.tenant_id t)

module _ {G : Type 0} (lib : Library GraphNode G) (laws : IsDirected lib node_id) where
  -- The arcs of the graph are the ends of the edges, each once.
  abbrev pub IsBuilt : List GraphNode → List GraphEdge → Result G → Type 0
  IsBuilt ns xs r =
      (any (is_loose ns) xs ≡ false
        → (g : G) × (r ≡ ok g) × (laws.arcs g ≡ merged (map arc_of xs) []))
      × (any (is_loose ns) xs ≡ true → (e : Err) × (r ≡ err e))

  none_there :
      (ns : List GraphNode)
      → any (λ n. has_vertex (laws.vertices (lib.new node_id)) n.id) ns ≡ false
  none_there [] = refl
  none_there (n ∷ ns) = rw (laws.new_vertices, none_there ns) refl

  pub build_graph-IsBuilt :
      (ns : List GraphNode) (xs : List GraphEdge)
      → AreApart node_id ns
      → IsBuilt ns xs (build_graph lib ns xs)
  unfolding build_graph
  build_graph-IsBuilt ns xs apart =
      let (g, s, same, present) =
        add_vertices-AreApart lib node_id laws ns (lib.new node_id) apart (none_there ns) in
      let known : (u : String) → has_vertex (laws.vertices g) u ≡ any (λ n. n.id == u) ns = λ u.
        present u
        ∙ ap (λ l. any (λ n. n.id == u) ns || has_vertex l u) laws.new_vertices
        ∙ ground arith in
      let loose : any (dangles (laws.vertices g)) (map arc_of xs) ≡ any (is_loose ns) xs =
        any-map (dangles (laws.vertices g)) arc_of xs
        ∙ any-cong (λ x. ap not (rw (known x.from_id, known x.to_id) refl)) xs in
      rw s (
        λ fine.
            let (h, built, _, arcs) =
              add_edges-merged lib node_id laws (map arc_of xs) g (loose ∙ fine) in
            (h, built, arcs ∙ ap (merged (map arc_of xs)) (same ∙ laws.new_arcs)),
        λ bad. add_edges-dangling lib node_id laws (map arc_of xs) g (loose ∙ bad),
      )

  -- The number of arcs at a node is 0 exactly if no edge has it at that end.
  pub successors-zero :
      (xs : List GraphEdge) (g : G) (id : String)
      → laws.arcs g ≡ merged (map arc_of xs) []
      → (lib.successors g id == 0) ≡ not (any (λ x. x.from_id == id) xs)
  successors-zero xs g id s =
      rw (laws.successors_count g id)
        (select_zero _ (laws.arcs g) ∙ ap not (arcs_at (λ a. a.0 == id) xs (laws.arcs g) s))

  pub predecessors-zero :
      (xs : List GraphEdge) (g : G) (id : String)
      → laws.arcs g ≡ merged (map arc_of xs) []
      → (lib.predecessors g id == 0) ≡ not (any (λ x. x.to_id == id) xs)
  predecessors-zero xs g id s =
      rw (laws.predecessors_count g id)
        (select_zero _ (laws.arcs g) ∙ ap not (arcs_at (λ a. a.1 == id) xs (laws.arcs g) s))

  module _ (unmarshal : String → Option Map) where
    -- The nodes and the edges that the queries return.
    abbrev pub seen_nodes : String → ModelVersion → World → List GraphNode
    seen_nodes t mv w = map (scan_node unmarshal) (model_nodes t mv w)

    abbrev pub seen_edges : String → ModelVersion → World → List GraphEdge
    seen_edges t mv w = map scan_edge (model_edges t mv w)

    load_and_build-loose :
        (t : String) (mv : ModelVersion) (w : World)
        → ((n : ℕ) → w.server.refuses n ≡ none)
        → (any (is_loose (seen_nodes t mv w)) (seen_edges t mv w) ≡ false
            → (g : G) × (load_and_build lib unmarshal t mv w
                ≡ (ok (seen_nodes t mv w, seen_edges t mv w, g), tick (tick w)))
              × (laws.arcs g ≡ merged (map arc_of (seen_edges t mv w)) []))
          × (any (is_loose (seen_nodes t mv w)) (seen_edges t mv w) ≡ true
              → (e : Err) × (load_and_build lib unmarshal t mv w ≡ (err e, tick (tick w))))
    unfolding load_and_build load_graph model_nodes model_edges ◌>>=◌ pure
    load_and_build-loose t mv w quiet =
        let (fine, bad) =
          build_graph-IsBuilt (seen_nodes t mv w) (seen_edges t mv w)
            (nodes-AreApart unmarshal t mv w) in
        rw
          (
            query_ok (model_nodes t mv) w (quiet w.ran),
            query_ok (model_edges t mv) (tick w) (quiet _),
          )
          (
            λ h. let (g, s, arcs) = fine h in (g, rw s refl, arcs),
            λ h. let (e, s) = bad h in (e, rw s refl),
          )

    -- If the latest enabled version of the tenant is read, and the server refuses none of the next two
    -- queries, an analysis answers from the graph that has the ends of each edge as an arc, once, if both
    -- ends of every edge are nodes of the version, and with status 500 if some end is not.
    pub analysis-loose :
        {A : Type 0} (t : String) (mv : ModelVersion) (w v : World)
        (answer : ModelVersion → List GraphNode → List GraphEdge → G → Response A)
        → t ≢ ""
        → get_latest_enabled t w ≡ (ok mv, v)
        → ((n : ℕ) → v.server.refuses n ≡ none)
        → (any (is_loose (seen_nodes t mv v)) (seen_edges t mv v) ≡ false
            → (g : G) × (analysis lib unmarshal t answer w
                ≡ (answer mv (seen_nodes t mv v) (seen_edges t mv v) g, tick (tick v)))
              × (laws.arcs g ≡ merged (map arc_of (seen_edges t mv v)) []))
          × (any (is_loose (seen_nodes t mv v)) (seen_edges t mv v) ≡ true
              → (analysis lib unmarshal t answer w).0.status ≡ 500)
    unfolding analysis refuse_if reply_internal
    analysis-loose t mv w v answer named read quiet =
        let given : (t == "") ≡ false = ground (arith, eq_iff t "") in
        let (fine, bad) = load_and_build-loose t mv v quiet in
        rw (given, read)
          (
            λ h. let (g, s, arcs) = fine h in (g, rw s refl, arcs),
            λ h. let (e, s) = bad h in rw s refl,
          )
