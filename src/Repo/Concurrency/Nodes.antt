-- ===== src/Repo/Concurrency/Nodes.antt =====
-- `PutNode` as a writer, and two clients that update one node.
use contrato_core.Base.{
  ℕ, ◌+◌, ◌≡◌, refl, Bool, true, false, ◌||◌, none, some, List, [], ◌∷◌, pos, arith, ap, sym, subst,
  ◌∙◌, pair_eq, string_eq, nat_eq, ◌==◌,
}
use contrato_core.Table.History.{last_version, any-row_at_above}
use contrato_core.Storage.{ok, err, conflict, Node, PutOptions}
use contrato_core.Storage.Server.{World, has_tenant, has_model}
use contrato_core.Storage.Exec.{reject_if, tick, ◌>>=◌}
use contrato_core.Repo.Lawful.{nodes-IsLawful}
use contrato_core.Repo.Versioned.{max_version}
use contrato_core.Repo.ModelVersions.{pinned}
use contrato_core.Repo.Graph.{nodes, node_key, node_version, next_node, filled_node, put_node}
use contrato_core.Repo.Concurrency.{Phase, finished, Writer, State, run, start}
use contrato_core.Repo.Concurrency.Alone.{alone, alone-steps}
use contrato_core.Repo.Concurrency.Race.{IsNext, serial, race}

-- A node that `PutNode` neither refuses nor completes: with an id and a model.
pub record IsReady (n : Node) : Type 0 where
  pub tenant : (n.tenant_id == "") ≡ false
  pub typed : (n.type == "") ≡ false
  pub pinned : (n.model_id == "" || n.model_version == 0) ≡ false
  pub named : (n.id == "") ≡ false

-- `PutNode` from its check of the version on, for a node that is ready: the checks before it pass, and
-- the branch for a node without an id is not taken.
abbrev pub node_writer : Node → PutOptions → Writer nodes
node_writer n opts = record {
  key = node_key n;
  expected = opts.expected_version;
  new = next_node (filled_node n (n.model_id, n.model_version));
}

-- For a node with a tenant, a type, an id and a model, the two steps of a writer that nobody
-- interrupts answer what `PutNode` answers, and leave the world that it leaves.
pub put_node-alone :
    (n : Node) (opts : PutOptions) (w : World)
    → IsReady n
    → alone nodes (node_writer n opts) w ≡ (finished (put_node n opts w).0, (put_node n opts w).1)
put_node-alone n opts w r =
    alone-steps nodes (node_writer n opts) w _ refl
    ∙ (unfold put_node pinned ◌>>=◌ reject_if in rw (r.tenant, r.typed, r.pinned, r.named) refl)

pub node_writer-IsNext :
    (n : Node) (opts : PutOptions) → IsNext nodes nodes-IsLawful (node_writer n opts)
unfolding put_node
node_writer-IsNext n opts = record { keyed = λ w. refl; numbered = λ w. refl }

-- The next version of a key is never taken.
admits-next_node :
    (n : Node) (opts : PutOptions) (v : World)
    → has_tenant v.db n.tenant_id ≡ true
    → has_model v.db n.tenant_id n.model_id n.model_version ≡ true
    → nodes.admits v.db ((node_writer n opts).new v) ≡ true
unfolding put_node
admits-next_node n opts v tenant model =
    rw (tenant, model)
      (rw
        (any-row_at_above node_key node_version (node_key n) (max_version nodes (node_key n) v + 1)
          v.db.nodes (omega arith))
        refl)

abbrev pub expecting : ℕ → PutOptions
expecting m = record { expected_version = some (pos m) }

-- Two `PutNode` calls that expect version `m`, under a schedule of their statements.
abbrev pub both : Node → Node → ℕ → World → List Bool → State nodes
both a b m w turns =
    run nodes (node_writer a (expecting m)) (node_writer b (expecting m)) turns (start nodes w)

abbrev pub IsWrittenAt : ℕ → Phase Node → Type 0
IsWrittenAt k (finished (ok v)) = v.version ≡ k
IsWrittenAt k _ = ⊥

module _ (a b : Node) (m : ℕ) (w : World) (same : node_key b ≡ node_key a)
    (current : max_version nodes (node_key a) w ≡ m) (tenant : has_tenant w.db a.tenant_id ≡ true)
    (model : has_model w.db a.tenant_id a.model_id a.model_version ≡ true)
    (quiet : (n : ℕ) → w.server.refuses n ≡ none) where
  abbrev p : Writer nodes
  p = node_writer a (expecting m)

  written_at : (v : World) → v.db ≡ w.db → IsWrittenAt (m + 1) (finished (ok (p.new v)))
  unfolding put_node
  written_at v s =
      ap (λ d. last_version node_key node_version (node_key a) d.nodes + 1) s
      ∙ ap (λ n. n + 1) current

  -- Two clients update one node and both expect its current version `m`, and the server refuses
  -- nothing. If the second checks after the first has inserted, the first writes version `m + 1` and
  -- the second is answered a conflict.
  pub update_serial :
      let s = both a b m w (true ∷ true ∷ false ∷ []) in
      IsWrittenAt (m + 1) s.left × (s.right ≡ finished (err conflict))
  update_serial =
      let (l, r) =
        serial nodes nodes-IsLawful p (node_writer b (expecting m)) m w same refl refl
          (node_writer-IsNext a (expecting m)) (node_writer-IsNext b (expecting m)) current quiet
          (admits-next_node a (expecting m) (tick w) tenant model) in
      (subst (IsWrittenAt (m + 1)) (sym l) (written_at (tick w) refl), r)

  -- Two clients update one node, both expect its current version `m`, and the server refuses
  -- nothing. If the second checks between the check and the insert of the first, both succeed, the
  -- first with version `m + 1` and the second with `m + 2`.
  pub update_race :
      has_tenant w.db b.tenant_id ≡ true
      → has_model w.db b.tenant_id b.model_id b.model_version ≡ true
      → let s = both a b m w (true ∷ false ∷ true ∷ false ∷ []) in
        IsWrittenAt (m + 1) s.left × IsWrittenAt (m + 2) s.right
  unfolding has_tenant has_model
  update_race tenant' model' =
      let (l, r, v) =
        race nodes nodes-IsLawful p (node_writer b (expecting m)) m w same refl refl
          (node_writer-IsNext a (expecting m)) (node_writer-IsNext b (expecting m)) current quiet
          (admits-next_node a (expecting m) (tick (tick w)) tenant model)
          (admits-next_node b (expecting m) _ tenant' model') in
      (
        subst (IsWrittenAt (m + 1)) (sym l) (written_at (tick (tick w)) refl),
        subst (IsWrittenAt (m + 2)) (sym r) v,
      )
