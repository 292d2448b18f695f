-- ===== src/Repo/Pinning/Puts.antt =====
-- `Put` of the repositories, and the model version of the row that it writes.
use contrato_core.Base.{◌≡◌, refl, ◌==◌, string_eq, pair_eq}
use contrato_core.Storage.{PutOptions, Node, Edge, Property, ContractRecord}
use contrato_core.Storage.Server.{World}
use contrato_core.Storage.Exec.{◌>>◌}
use contrato_core.Storage.Statements.{OnSuccess}
use contrato_core.Repo.Versioned.{check_expected, insert_row}
use contrato_core.Repo.Versioned.Returns.{
  Returns-bind, Returns-if, Returns-insert_row, Returns-pure,
}
use contrato_core.Repo.Graph.{
  nodes, node_key, edges, filled_node, first_node, next_node, put_node, put_edge,
}
use contrato_core.Repo.Properties.{properties, put_property}
use contrato_core.Repo.Contracts.{
  filled_contract, first_contract, next_contract, contracts, append_contract, put_contract,
  scan_contract,
}
use contrato_core.Repo.Pinning.{IsPin, pinned-IsPin, after_check, with_pin}

module _ (opts : PutOptions) (w : World) where
  -- A row of the tenant, pinned as the record asks for.
  abbrev pub NodePinned : Node → Node → Type 0
  NodePinned n r =
      (r.tenant_id ≡ n.tenant_id)
      × IsPin w n.tenant_id n.model_id n.model_version (r.model_id, r.model_version)

  abbrev pub EdgePinned : Edge → Edge → Type 0
  EdgePinned x r =
      (r.tenant_id ≡ x.tenant_id)
      × IsPin w x.tenant_id x.model_id x.model_version (r.model_id, r.model_version)

  abbrev pub PropertyPinned : Property → Property → Type 0
  PropertyPinned p r =
      (r.tenant_id ≡ p.tenant_id)
      × IsPin w p.tenant_id p.model_id p.model_version (r.model_id, r.model_version)

  abbrev pub ContractPinned : ContractRecord → ContractRecord → Type 0
  ContractPinned c r =
      (r.tenant_id ≡ c.tenant_id)
      × IsPin w c.tenant_id c.model_id c.model_version (r.model_id, r.model_version)

  put_node-IsPin : (n : Node) → OnSuccess (NodePinned n) (put_node n opts w).0
  unfolding put_node
  put_node-IsPin n = after_check _ w _ _ _ (
      after_check _ w _ _ _ (
        with_pin _ w (IsPin w n.tenant_id n.model_id n.model_version) _ _
          (pinned-IsPin w n.tenant_id n.model_id n.model_version)
          λ m pin.
            let r = filled_node n m in
            Returns-if (n.id == "") (insert_row nodes (first_node r))
              (check_expected nodes opts.expected_version (node_key n)
                >> insert_row nodes (next_node r))
              (λ _. Returns-insert_row nodes (first_node r) (λ _. (refl, pin)))
              (λ _.
                Returns-bind (check_expected nodes opts.expected_version (node_key n)) _
                  λ _. Returns-insert_row nodes (next_node r) (λ _. (refl, pin)))))

  put_edge-IsPin : (x : Edge) → OnSuccess (EdgePinned x) (put_edge x opts w).0
  unfolding put_edge
  put_edge-IsPin x = after_check _ w _ _ _ (
      after_check _ w _ _ _ (
        after_check _ w _ _ _ (
          with_pin _ w (IsPin w x.tenant_id x.model_id x.model_version) _ _
            (pinned-IsPin w x.tenant_id x.model_id x.model_version)
            λ m pin. Returns-bind _ _ λ _. Returns-insert_row edges _ (λ _. (refl, pin)))))

  put_property-IsPin : (p : Property) → OnSuccess (PropertyPinned p) (put_property p opts w).0
  unfolding put_property
  put_property-IsPin p = after_check _ w _ _ _ (
      with_pin _ w (IsPin w p.tenant_id p.model_id p.model_version) _ _
        (pinned-IsPin w p.tenant_id p.model_id p.model_version)
        λ m pin. Returns-bind _ _ λ _. Returns-insert_row properties _ (λ _. (refl, pin)))

  append_contract-IsPin :
      (c : ContractRecord)
      → OnSuccess (λ r. ContractPinned c (scan_contract r)) (append_contract c opts w).0
  unfolding append_contract scan_contract
  append_contract-IsPin c = after_check _ w _ _ _ (
      after_check _ w _ _ _ (
        after_check _ w _ _ _ (
          with_pin _ w (IsPin w c.tenant_id c.model_id c.model_version) _ _
            (pinned-IsPin w c.tenant_id c.model_id c.model_version)
            λ m pin.
              let r = filled_contract c m in
              Returns-if (c.id == "") (insert_row contracts (first_contract r))
                (check_expected contracts opts.expected_version (c.tenant_id, c.id)
                  >> insert_row contracts (next_contract r))
                (λ _. Returns-insert_row contracts (first_contract r) (λ _. (refl, pin)))
                (λ _.
                  Returns-bind (check_expected contracts opts.expected_version (c.tenant_id, c.id))
                    _ λ _. Returns-insert_row contracts (next_contract r) (λ _. (refl, pin))))))

  put_contract-IsPin : (c : ContractRecord) → OnSuccess (ContractPinned c) (put_contract c opts w).0
  unfolding put_contract
  put_contract-IsPin c =
      with_pin _ w (λ r. ContractPinned c (scan_contract r)) (append_contract c opts) _
        (append_contract-IsPin c) (λ r h. Returns-pure (scan_contract r) h)

-- Where `PutNode`, `PutEdge` and the `Put` of a property or a contract succeed, the row that they return
-- belongs to the tenant of the record and is pinned to the model version that the record names, if it
-- names an id and a version, and otherwise to an enabled model version of the tenant, which stood in
-- the database before the call and than which no enabled one of the tenant was created later.
pub puts-IsPin :
    (opts : PutOptions) (n : Node) (x : Edge) (p : Property) (c : ContractRecord) (w : World)
    → OnSuccess (NodePinned opts w n) (put_node n opts w).0
      × OnSuccess (EdgePinned opts w x) (put_edge x opts w).0
      × OnSuccess (PropertyPinned opts w p) (put_property p opts w).0
      × OnSuccess (ContractPinned opts w c) (put_contract c opts w).0
puts-IsPin opts n x p c w = (
  put_node-IsPin opts w n,
  put_edge-IsPin opts w x,
  put_property-IsPin opts w p,
  put_contract-IsPin opts w c,
)
