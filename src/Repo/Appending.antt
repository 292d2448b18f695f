-- ===== src/Repo/Appending.antt =====
-- The writes of internal/storage/sqlstore, by the rules of Repo/Versioned/Appends.
use contrato_core.Base.{
  ℕ, ◌≡◌, refl, String, Bool, true, false, Option, none, some, ◌&&◌, ◌==◌, not, select, arith,
  nat_eq, string_eq, int_eq, pair_eq,
}
use contrato_core.Storage.{
  Result, ok, err, PutOptions, ObjectPutOptions, ModelVersion, Node, Edge, Property, ContractRecord,
  Object,
}
use contrato_core.Storage.Server.{Db, World}
use contrato_core.Storage.Exec.{statement, answer}
use contrato_core.Repo.Versioned.{insert_row}
use contrato_core.Repo.Versioned.Appends.{
  Reads, Appends, Appends-insert_next, Appends-insert_first, write_rules,
}
use contrato_core.Repo.ModelVersions
use contrato_core.Repo.ModelVersions.{get_latest_enabled, pinned, create, first, next}
use contrato_core.Repo.Graph.{nodes, edges, first_node, next_node, next_edge, put_node, put_edge}
use contrato_core.Repo.Properties.{properties, next_property, put_property}
use contrato_core.Repo.Contracts.{contracts, first_contract, next_contract, append_contract}
use contrato_core.Repo.Objects.{objects, next_object, append_object, delete_by_node_id}

last : (a b c : Bool) → (a && (b && not c)) ≡ true → c ≡ false
last a b c h = ground arith

last_of_two : (a c : Bool) → (a && not c) ≡ true → c ≡ false
last_of_two a c h = ground arith

get_latest_enabled-Reads : (tenant_id : String) → Reads (get_latest_enabled tenant_id)
unfolding get_latest_enabled
get_latest_enabled-Reads tenant_id = search write_rules

pinned-Reads : (tenant_id model_id : String) (v : ℕ) → Reads (pinned tenant_id model_id v)
unfolding pinned
pinned-Reads tenant_id model_id v = search (write_rules, get_latest_enabled-Reads)

first-Appends :
    (mv : ModelVersion) → Appends ModelVersions.table (insert_row ModelVersions.table (first mv))
unfolding create
first-Appends mv =
    Appends-insert_first ModelVersions.table (first mv) (λ w. refl) (λ w h. last_of_two _ _ h)

next-Appends :
    (mv : ModelVersion) → Appends ModelVersions.table (insert_row ModelVersions.table (next mv))
unfolding create
next-Appends mv = Appends-insert_next ModelVersions.table (next mv) (λ w. refl)

pub create-Appends : (mv : ModelVersion) → Appends ModelVersions.table (create mv)
unfolding create
create-Appends mv = search (write_rules, first-Appends, next-Appends)

first_node-Appends : (n : Node) → Appends nodes (insert_row nodes (first_node n))
unfolding put_node
first_node-Appends n = Appends-insert_first nodes (first_node n) (λ w. refl) (λ w h. last _ _ _ h)

next_node-Appends : (n : Node) → Appends nodes (insert_row nodes (next_node n))
unfolding put_node
next_node-Appends n = Appends-insert_next nodes (next_node n) (λ w. refl)

pub put_node-Appends : (n : Node) (opts : PutOptions) → Appends nodes (put_node n opts)
unfolding put_node
put_node-Appends n opts =
    search (write_rules, pinned-Reads, first_node-Appends, next_node-Appends) depth 8

next_edge-Appends : (x : Edge) → Appends edges (insert_row edges (next_edge x))
unfolding put_edge
next_edge-Appends x = Appends-insert_next edges (next_edge x) (λ w. refl)

pub put_edge-Appends : (x : Edge) (opts : PutOptions) → Appends edges (put_edge x opts)
unfolding put_edge
put_edge-Appends x opts = search (write_rules, pinned-Reads, next_edge-Appends) depth 8

next_property-Appends :
    (p : Property) → Appends properties (insert_row properties (next_property p))
unfolding put_property
next_property-Appends p = Appends-insert_next properties (next_property p) (λ w. refl)

pub put_property-Appends :
    (p : Property) (opts : PutOptions) → Appends properties (put_property p opts)
unfolding put_property
put_property-Appends p opts = search (write_rules, pinned-Reads, next_property-Appends) depth 8

first_contract-Appends :
    (rec : ContractRecord) → Appends contracts (insert_row contracts (first_contract rec))
unfolding append_contract
first_contract-Appends rec =
    Appends-insert_first contracts (first_contract rec) (λ w. refl) (λ w h. last _ _ _ h)

next_contract-Appends :
    (rec : ContractRecord) → Appends contracts (insert_row contracts (next_contract rec))
unfolding append_contract
next_contract-Appends rec = Appends-insert_next contracts (next_contract rec) (λ w. refl)

pub append_contract-Appends :
    (rec : ContractRecord) (opts : PutOptions) → Appends contracts (append_contract rec opts)
unfolding append_contract
append_contract-Appends rec opts =
    search (write_rules, pinned-Reads, first_contract-Appends, next_contract-Appends) depth 9

module _ (etag_of : String → String) where
  next_object-Appends :
      (o : Object) (t : Option ℕ) → Appends objects (insert_row objects (next_object etag_of o t))
  unfolding append_object
  next_object-Appends o t = Appends-insert_next objects (next_object etag_of o t) (λ w. refl)

  pub append_object-Appends :
      (o : Object) (opts : ObjectPutOptions) → Appends objects (append_object etag_of o opts)
  unfolding append_object
  append_object-Appends o opts = search (write_rules, next_object-Appends) depth 9

-- The rows of one object are gone, and nothing else; or nothing is.
abbrev pub Removes : String → String → Db → Result (Unit {0}) × World → Type 0
Removes t n d (ok u, w) =
    w.db ≡ record d { objects = select (λ r. not (r.tenant_id == t && r.node_id == n)) d.objects }
Removes t n d (err x, w) = w.db ≡ d

delete_by_node_id-Removes : (t n : String) (w : World) → Removes t n w.db (delete_by_node_id t n w)
unfolding delete_by_node_id statement
delete_by_node_id-Removes t n w = go (w.server.refuses w.ran)
  where
    go :
        (refusal : Option String)
        → Removes t n w.db (
            answer w
              (ok (
                tt,
                record w.db {
                  objects = select (λ r. not (r.tenant_id == t && r.node_id == n)) w.db.objects;
                },
              ))
              refusal)
    go none = refl
    go (some x) = refl

-- `Create` of a model version, `PutNode`, `PutEdge` and the `Put` of a property, a contract and an
-- object are append-only: where the rows of every key are numbered 1, 2, …, a failure leaves the tables
-- as they are, and a success adds to one table a row that the constraints of the schema admit, with
-- the next version of its key, and changes nothing else. `DeleteByNodeID` removes, if it succeeds, all
-- rows of one object and changes nothing else, and if it fails, it changes nothing.
pub writes-Appends :
    (etag_of : String → String) (opts : PutOptions) (object_opts : ObjectPutOptions)
    → ((mv : ModelVersion) → Appends ModelVersions.table (create mv))
      × ((n : Node) → Appends nodes (put_node n opts))
      × ((x : Edge) → Appends edges (put_edge x opts))
      × ((p : Property) → Appends properties (put_property p opts))
      × ((rec : ContractRecord) → Appends contracts (append_contract rec opts))
      × ((o : Object) → Appends objects (append_object etag_of o object_opts))
      × ((t n : String) (w : World) → Removes t n w.db (delete_by_node_id t n w))
writes-Appends etag_of opts object_opts = (
  create-Appends,
  λ n. put_node-Appends n opts,
  λ x. put_edge-Appends x opts,
  λ p. put_property-Appends p opts,
  λ rec. append_contract-Appends rec opts,
  λ o. append_object-Appends etag_of o object_opts,
  delete_by_node_id-Removes,
)
