-- ===== src/Repo/ReadBack.antt =====
-- Reads of internal/storage/sqlstore after a write.
use contrato_core.Base.{ℕ, ◌≤◌, ◌≡◌, ◌≢◌, subst, String, none, pair_eq, string_eq}
use contrato_core.Storage.{ok, Node, Property, PutOptions, ModelVersion, ContractRecord}
use contrato_core.Storage.Server.{World, ContractRow}
use contrato_core.Storage.Exec.{tick}
use contrato_core.Storage.Statements.{query_row_ok, query_row_same, scanned, scan_ok, scan_same}
use contrato_core.Repo.Lawful.{
  nodes-IsLawful, properties-IsLawful, contracts-IsLawful, model_versions-IsLawful,
}
use contrato_core.Repo.Versioned.{max_version}
use contrato_core.Repo.Versioned.Appends.{Appended}
use contrato_core.Repo.Versioned.Effects.{latest-Appended, latest-Appended_ne, row_at-Appended}
use contrato_core.Repo.Appending.{
  create-Appends, put_node-Appends, put_property-Appends, append_contract-Appends,
}
use contrato_core.Repo.ModelVersions
use contrato_core.Repo.ModelVersions.{create, get}
use contrato_core.Repo.Graph.{nodes, put_node, get_node}
use contrato_core.Repo.Properties.{properties, put_property, get_property}
use contrato_core.Repo.Contracts.{
  contracts, scan_contract, append_contract, put_contract, get_contract, get_contract_version,
}
use contrato_core.Repo.Calls.WellFormed.{Numbered}

module _ (n : Node) (opts : PutOptions) (w w' : World) (v : Node) (h : Numbered nodes w.db)
    (written : put_node n opts w ≡ (ok v, w')) where
  node_appended : Appended nodes w.db (ok v, w')
  node_appended = subst (Appended nodes w.db) written ((put_node-Appends n opts).at w h)

  -- Where the rows of every node are numbered 1, 2, …, a node that `PutNode` returned is what
  -- `GetNode` finds for its id, if the server does not refuse the read.
  pub get_node-put_node :
      w'.server.refuses w'.ran ≡ none → get_node v.tenant_id v.id w' ≡ (ok v, tick w')
  unfolding get_node
  get_node-put_node quiet =
      query_row_ok _ w' v quiet (latest-Appended nodes nodes-IsLawful w.db v w' node_appended)

  -- Where the rows of every node are numbered 1, 2, …, a `PutNode` that succeeds leaves what
  -- `GetNode` answers for any other tenant or id, if the server refuses neither read.
  pub get_node-put_node_ne :
      (tenant_id id : String)
      → w.server.refuses w.ran ≡ none
      → w'.server.refuses w'.ran ≡ none
      → nodes.key v ≢ (tenant_id, id)
      → (get_node tenant_id id w').0 ≡ (get_node tenant_id id w).0
  unfolding get_node
  get_node-put_node_ne tenant_id id quiet quiet' other =
      query_row_same _ w w' quiet quiet'
        (latest-Appended_ne nodes nodes-IsLawful w.db v w' (tenant_id, id) node_appended other)

-- Where the rows of every property are numbered 1, 2, …, a property that `Put` returned is what
-- `Get` finds for its owner and key, if the server does not refuse the read.
pub get_property-put_property :
    (p : Property) (opts : PutOptions) (w w' : World) (v : Property)
    → Numbered properties w.db
    → put_property p opts w ≡ (ok v, w')
    → w'.server.refuses w'.ran ≡ none
    → get_property v.tenant_id v.owner_type v.owner_id v.key w' ≡ (ok v, tick w')
unfolding get_property
get_property-put_property p opts w w' v h written quiet = query_row_ok _ w' v quiet (
    latest-Appended properties properties-IsLawful w.db v w'
      (subst (Appended properties w.db) written ((put_property-Appends p opts).at w h)))

module _ (rec : ContractRecord) (opts : PutOptions) (w w' : World) (v : ContractRecord)
    (h : Numbered contracts w.db) (written : put_contract rec opts w ≡ (ok v, w')) where
  contract_row_of :
      (r : ContractRow) × (append_contract rec opts w ≡ (ok r, w')) × (v ≡ scan_contract r)
  contract_row_of =
      unfold put_contract in scanned scan_contract (append_contract rec opts) w written

  contract_appended : (r : ContractRow) × Appended contracts w.db (ok r, w') × (v ≡ scan_contract r)
  contract_appended =
      let (r, s, e) = contract_row_of in
      (r, subst (Appended contracts w.db) s ((append_contract-Appends rec opts).at w h), e)

  -- Where the rows of every contract are numbered 1, 2, …, a contract that `Put` returned is what
  -- `Get` finds for its id, if the server does not refuse the read.
  pub get_contract-put_contract :
      w'.server.refuses w'.ran ≡ none → get_contract v.tenant_id v.id w' ≡ (ok v, tick w')
  get_contract-put_contract quiet =
      let (r, a, e) = contract_appended in
      rw e (
        unfold get_contract scan_contract in
        scan_ok scan_contract _ w' (tick w') r
          (query_row_ok _ w' r quiet (latest-Appended contracts contracts-IsLawful w.db r w' a)))

  -- Where the rows of every contract are numbered 1, 2, …, a `Put` that succeeds leaves what
  -- `GetVersion` answers for any contract and any version up to the last one that it had, if the
  -- server refuses neither read.
  pub get_contract_version-put_contract :
      (tenant_id id : String) (k : ℕ)
      → w.server.refuses w.ran ≡ none
      → w'.server.refuses w'.ran ≡ none
      → k ≤ max_version contracts (tenant_id, id) w
      → (get_contract_version tenant_id id k w').0 ≡ (get_contract_version tenant_id id k w).0
  get_contract_version-put_contract tenant_id id k quiet quiet' old =
      let (r, a, e) = contract_appended in
      unfold get_contract_version in
      scan_same scan_contract _ w w' (
        query_row_same _ w w' quiet quiet'
          (row_at-Appended contracts contracts-IsLawful w.db r w' (tenant_id, id) k a old))

module _ (mv : ModelVersion) (w w' : World) (v : ModelVersion)
    (h : Numbered ModelVersions.table w.db) (made : create mv w ≡ (ok v, w')) where
  model_version_appended : Appended ModelVersions.table w.db (ok v, w')
  model_version_appended =
      subst (Appended ModelVersions.table w.db) made ((create-Appends mv).at w h)

  -- Where the rows of every model are numbered 1, 2, …, a `Create` that succeeds leaves what `Get`
  -- answers for any model and any version up to its last one, if the server refuses neither read.
  pub get-create :
      (tenant_id model_id : String) (k : ℕ)
      → w.server.refuses w.ran ≡ none
      → w'.server.refuses w'.ran ≡ none
      → k ≤ max_version ModelVersions.table (tenant_id, model_id) w
      → (get tenant_id model_id k w').0 ≡ (get tenant_id model_id k w).0
  unfolding get
  get-create tenant_id model_id k quiet quiet' old = query_row_same _ w w' quiet quiet' (
      row_at-Appended ModelVersions.table model_versions-IsLawful w.db v w' (tenant_id, model_id) k
        model_version_appended old)
