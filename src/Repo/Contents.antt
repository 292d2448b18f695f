-- ===== src/Repo/Contents.antt =====
-- What the written rows hold: the fields that were given, with the defaults of the source.
use contrato_core.Base.{
  ℕ, ◌≡◌, ◌≢◌, refl, String, true, arith, pair_eq, string_eq, ◌==◌, ◌||◌, nat_eq, eq_iff,
}
use contrato_core.Storage.{ok, Node, Edge, Property, PutOptions, ContractRecord}
use contrato_core.Storage.Server.{World}
use contrato_core.Repo.Versioned.Returns.{
  Returns, Returns-insert_row, Returns-bind, Returns-bind_on, Returns-or_else, Returns-pure,
  Returns-if, of_returned,
}
use contrato_core.Repo.ModelVersions.{default_to, pinned}
use contrato_core.Repo.Graph.{nodes, edges, put_node, put_edge}
use contrato_core.Repo.Properties.{properties, put_property}
use contrato_core.Repo.Contracts.{
  contracts, nullable_string, or_empty, scan_contract, append_contract, put_contract,
}

-- The id of the caller is kept if it is not empty.
abbrev KeepsId : String → String → Type 0
KeepsId given id = given ≢ "" → id ≡ given

-- The model of the caller is kept if it names a version.
abbrev KeepsModel : String × ℕ → String × ℕ → Type 0
KeepsModel given m = given.0 ≢ "" → given.1 ≢ 0 → m ≡ given

abbrev pub HoldsNode : Node → Node → Type 0
HoldsNode n v =
    (v.tenant_id ≡ n.tenant_id)
    × (v.type ≡ n.type)
    × (v.domain ≡ default_to "node" n.domain)
    × (v.blob ≡ default_to "{}" n.blob)
    × KeepsId n.id v.id
    × KeepsModel (n.model_id, n.model_version) (v.model_id, v.model_version)

kept : (given id : String) → (given == "") ≡ true → KeepsId given id
kept given id empty full = absurd (full ((eq_iff given "").0 empty))

unpinned :
    (model_id : String) (v : ℕ) (m : String × ℕ)
    → (model_id == "" || v == 0) ≡ true
    → KeepsModel (model_id, v) m
unpinned model_id v m absent full pos = absurd (ground (arith, eq_iff model_id ""))

pinned-Returns :
    (tenant_id model_id : String) (v : ℕ)
    → Returns (KeepsModel (model_id, v)) (pinned tenant_id model_id v)
unfolding pinned
pinned-Returns tenant_id model_id v =
    Returns-if (model_id == "" || v == 0) _ _
      (λ b. Returns-or_else _ _ _ (λ mv. Returns-pure _ (unpinned model_id v _ b)))
      (λ _. Returns-pure _ (λ _ _. refl))

pub put_node-Returns : (n : Node) (opts : PutOptions) → Returns (HoldsNode n) (put_node n opts)
unfolding put_node
put_node-Returns n opts = Returns-bind _ _ λ _. Returns-bind _ _ λ _.
    Returns-bind_on _ _ (pinned-Returns _ _ _) λ m q.
      Returns-if (n.id == "") _ _
        (λ b. Returns-insert_row nodes _ (λ w. (refl, refl, refl, refl, kept n.id _ b, q)))
        (λ _.
          Returns-bind _ _
            (λ _. Returns-insert_row nodes _ (λ w. (refl, refl, refl, refl, λ _. refl, q))))

abbrev pub HoldsEdge : Edge → Edge → Type 0
HoldsEdge x v =
    (v.tenant_id ≡ x.tenant_id)
    × (v.from_id ≡ x.from_id)
    × (v.to_id ≡ x.to_id)
    × (v.type ≡ x.type)
    × (v.domain ≡ default_to "edge" x.domain)
    × (v.blob ≡ default_to "{}" x.blob)
    × KeepsModel (x.model_id, x.model_version) (v.model_id, v.model_version)

pub put_edge-Returns : (x : Edge) (opts : PutOptions) → Returns (HoldsEdge x) (put_edge x opts)
unfolding put_edge
put_edge-Returns x opts = Returns-bind _ _ λ _. Returns-bind _ _ λ _. Returns-bind _ _ λ _.
    Returns-bind_on _ _ (pinned-Returns _ _ _) λ m q.
      Returns-bind _ _
        (λ _. Returns-insert_row edges _ (λ w. (refl, refl, refl, refl, refl, refl, q)))

abbrev pub HoldsProperty : Property → Property → Type 0
HoldsProperty p v =
    (v.tenant_id ≡ p.tenant_id)
    × (v.owner_type ≡ p.owner_type)
    × (v.owner_id ≡ p.owner_id)
    × (v.key ≡ p.key)
    × (v.value_json ≡ default_to "{}" p.value_json)
    × KeepsModel (p.model_id, p.model_version) (v.model_id, v.model_version)

pub put_property-Returns :
    (p : Property) (opts : PutOptions) → Returns (HoldsProperty p) (put_property p opts)
unfolding put_property
put_property-Returns p opts = Returns-bind _ _ λ _.
    Returns-bind_on _ _ (pinned-Returns _ _ _) λ m q.
      Returns-bind _ _
        (λ _. Returns-insert_row properties _ (λ w. (refl, refl, refl, refl, refl, q)))

abbrev pub HoldsContract : ContractRecord → ContractRecord → Type 0
HoldsContract rec v =
    (v.tenant_id ≡ rec.tenant_id)
    × (v.type ≡ rec.type)
    × (v.status ≡ rec.status)
    × (v.action ≡ rec.action)
    × (v.domain ≡ default_to "contract" rec.domain)
    × (v.blob ≡ default_to "{}" rec.blob)
    × KeepsId rec.id v.id
    × KeepsModel (rec.model_id, rec.model_version) (v.model_id, v.model_version)

-- A nullable column reads back as the text that was written.
pub or_empty-nullable_string : (s : String) → or_empty (nullable_string s) ≡ s
unfolding nullable_string
or_empty-nullable_string s = ground (arith, eq_iff s "")

append_contract-Returns :
    (rec : ContractRecord) (opts : PutOptions)
    → Returns (λ r. HoldsContract rec (scan_contract r)) (append_contract rec opts)
unfolding append_contract scan_contract
append_contract-Returns rec opts = Returns-bind _ _ λ _. Returns-bind _ _ λ _. Returns-bind _ _ λ _.
    Returns-bind_on _ _ (pinned-Returns _ _ _) λ m q.
      Returns-if (rec.id == "") _ _
        (λ b. Returns-insert_row contracts _ (λ w.
          (refl, refl, refl, or_empty-nullable_string rec.action, refl, refl, kept rec.id _ b, q)))
        (λ _. Returns-bind _ _ (λ _.
          Returns-insert_row contracts _ (λ w.
            (refl, refl, refl, or_empty-nullable_string rec.action, refl, refl, λ _. refl, q))))

pub put_contract-Returns :
    (rec : ContractRecord) (opts : PutOptions) → Returns (HoldsContract rec) (put_contract rec opts)
unfolding put_contract
put_contract-Returns rec opts =
    Returns-bind_on _ _ (append_contract-Returns rec opts) λ r h. Returns-pure _ h

-- A node that `PutNode` returns has the caller's tenant, type, domain (`node` if empty) and blob
-- (`{}` if empty), the caller's id if there is one, and the caller's model if it names a version.
pub put_node-HoldsNode :
    (n : Node) (opts : PutOptions) (w w' : World) (v : Node)
    → put_node n opts w ≡ (ok v, w')
    → HoldsNode n v
put_node-HoldsNode n opts w w' v = of_returned (put_node n opts) w w' v (put_node-Returns n opts)

-- A contract that `Put` returns has the caller's tenant, type, status, action, domain (`contract`
-- if empty) and blob (`{}` if empty), the id if there is one, and the model if it names a version.
pub put_contract-HoldsContract :
    (rec : ContractRecord) (opts : PutOptions) (w w' : World) (v : ContractRecord)
    → put_contract rec opts w ≡ (ok v, w')
    → HoldsContract rec v
put_contract-HoldsContract rec opts w w' v =
    of_returned (put_contract rec opts) w w' v (put_contract-Returns rec opts)
