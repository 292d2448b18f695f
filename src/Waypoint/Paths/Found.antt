-- ===== src/Waypoint/Paths/Found.antt =====
-- The answers of `Paths`.
use contrato_core.Base.{
  ℕ, ◌≡◌, ◌≢◌, refl, ap, ◌∙◌, String, Bool, true, false, ◌&&◌, ◌||◌, not, none, [], map, any,
  any-map, any-cong, arith, eq_iff, ◌==◌, string_eq,
}
use contrato_core.Storage.{ok, err, Err, Edge, ModelVersion}
use contrato_core.Storage.Server.{World}
use contrato_core.Storage.Exec.{tick, pure, ◌>>=◌}
use contrato_core.Storage.Statements.{query_ok}
use contrato_core.Snapshot.{model_nodes, model_edges}
use contrato_core.Repo.ModelVersions.{get_latest_enabled}
use contrato_core.Http.{respond_ok, refuse_if, reply_internal}
use contrato_core.Digraph.{Library, try_vertices}
use contrato_core.Digraph.Laws.{IsDirected, has_vertex}
use contrato_core.Digraph.Filled.{
  dangles, merged, try_vertices-present, add_edges-merged, add_edges-dangling,
}
use contrato_core.Waypoint.Paths.{same_id, plain_arc, or_no_paths, find_paths, paths}

-- The edge has an end that is the id of no node.
abbrev pub is_loose : String → ModelVersion → World → Edge → Bool
is_loose t mv w x = not (
    any (λ n. n.id == x.from_id) (model_nodes t mv w)
    && any (λ n. n.id == x.to_id) (model_nodes t mv w))

module _ {G : Type 0} (lib : Library String G) (laws : IsDirected lib same_id) where
  find_paths-loose :
      (t : String) (mv : ModelVersion) (from_id to_id : String) (w : World)
      → ((n : ℕ) → w.server.refuses n ≡ none)
      → (any (is_loose t mv w) (model_edges t mv w) ≡ false
          → (g : G) × (find_paths lib t mv from_id to_id w
              ≡ (ok (or_no_paths (lib.all_paths g from_id to_id)), tick (tick w)))
            × (laws.arcs g ≡ merged (map plain_arc (model_edges t mv w)) []))
        × (any (is_loose t mv w) (model_edges t mv w) ≡ true
            → (e : Err) × (find_paths lib t mv from_id to_id w ≡ (err e, tick (tick w))))
  unfolding find_paths model_nodes model_edges ◌>>=◌ pure
  find_paths-loose t mv from_id to_id w quiet =
      let ids = map (λ n. n.id) (model_nodes t mv w) in
      let arcs = map plain_arc (model_edges t mv w) in
      let g = try_vertices lib ids (lib.new same_id) in
      let (same, present) = try_vertices-present lib same_id laws ids (lib.new same_id) in
      let known : (u : String)
          → has_vertex (laws.vertices g) u ≡ any (λ n. n.id == u) (model_nodes t mv w) =
        λ u.
          present u
          ∙ ap (λ l. any (λ i. i == u) ids || has_vertex l u) laws.new_vertices
          ∙ ground (arith, any-map (λ i. i == u) (λ n. n.id) (model_nodes t mv w)) in
      let loose : any (dangles (laws.vertices g)) arcs
          ≡ any (is_loose t mv w) (model_edges t mv w) =
        any-map (dangles (laws.vertices g)) plain_arc (model_edges t mv w)
        ∙ any-cong (λ x. ap not (rw (known x.from_id, known x.to_id) refl)) (model_edges t mv w) in
      rw (query_ok _ w (quiet w.ran), query_ok _ (tick w) (quiet _))
        (
          λ fine.
              let (h, built, _, grown) = add_edges-merged lib same_id laws arcs g (loose ∙ fine) in
              (h, rw built refl, grown ∙ ap (merged arcs) (same ∙ laws.new_arcs)),
          λ bad.
              let (e, s) = add_edges-dangling lib same_id laws arcs g (loose ∙ bad) in
              (e, rw s refl),
        )

  -- If the three parameters are given, the latest enabled version of the tenant is read, and the server
  -- refuses none of the next two queries: the answer has what the library finds between the two ids, or
  -- an empty list, in the graph that has the ends of each edge as an arc, once, if both ends of every
  -- edge are nodes of the version; and status 500 if some end is not.
  pub paths-loose :
      (t : String) (mv : ModelVersion) (from_id to_id : String) (w v : World)
      → t ≢ ""
      → from_id ≢ ""
      → to_id ≢ ""
      → get_latest_enabled t w ≡ (ok mv, v)
      → ((n : ℕ) → v.server.refuses n ≡ none)
      → (any (is_loose t mv v) (model_edges t mv v) ≡ false
          → (g : G) × (paths lib t from_id to_id w ≡ (
            respond_ok (record {
              tenant_id = t;
              model_id = mv.model_id;
              model_version = mv.version;
              from_id = from_id;
              to_id = to_id;
              paths = or_no_paths (lib.all_paths g from_id to_id);
            }),
            tick (tick v),
          ))
            × (laws.arcs g ≡ merged (map plain_arc (model_edges t mv v)) []))
        × (any (is_loose t mv v) (model_edges t mv v) ≡ true
            → (paths lib t from_id to_id w).0.status ≡ 500)
  unfolding paths refuse_if reply_internal
  paths-loose t mv from_id to_id w v named from_named to_named read quiet =
      let given : (t == "" || (from_id == "" || to_id == "")) ≡ false =
        ground (arith, eq_iff t "", eq_iff from_id "", eq_iff to_id "") in
      let (fine, bad) = find_paths-loose t mv from_id to_id v quiet in
      rw (given, read)
        (
          λ h. let (g, s, arcs) = fine h in (g, rw s refl, arcs),
          λ h. let (e, s) = bad h in rw s refl,
        )
