-- ===== src/Repo/Graph.antt =====
-- internal/storage/sqlstore/graph_repo.go
use contrato_core.Base.{
  ℕ, ◌+◌, String, Bool, List, ◌&&◌, ◌||◌, not, any, select, take, ltb, leb, pos, negsuc,
  if◌then◌else◌, ◌==◌, nat_eq, string_eq, pair_eq,
}
use contrato_core.Table.Distinct.{distinct_on}
use contrato_core.Table.History.{latest, has_version}
use contrato_core.Storage.{message, Page, PutOptions, Node, Edge}
use contrato_core.Storage.Server.{World, has_tenant, has_model}
use contrato_core.Repo.Versioned.{Versioned, max_version, check_expected, insert_row}
use contrato_core.Repo.ModelVersions.{default_to, pinned}
use contrato_core.Storage.Exec.{Exec, query, query_row, reject_if, ◌>>=◌, ◌>>◌}

-- The columns (tenant_id, id) of a node.
abbrev pub node_key : Node → String × String
node_key n = (n.tenant_id, n.id)

abbrev pub node_version : Node → ℕ
node_version n = n.version

-- `graph_nodes`, with its primary key and its two foreign keys.
abbrev pub nodes : Versioned Node (String × String)
nodes = record {
  key = node_key;
  version = node_version;
  rows = λ d. d.nodes;
  put = λ rs d. record d { nodes = rs };
  admits = λ d n.
      has_tenant d n.tenant_id
      && (has_model d n.tenant_id n.model_id n.model_version
          && not (any (has_version node_key node_version (node_key n) n.version) d.nodes));
}

unfoldable pub get_node : String → String → Exec Node
get_node tenant_id id = query_row λ w. latest node_key node_version (tenant_id, id) w.db.nodes

node_row : Node → String → ℕ → World → Node
node_row n id v w = record n {
  id = id;
  version = v;
  created_at = w.server.now w.ran;
  updated_at = 0;
}

pub first_node : Node → World → Node
first_node n w = node_row n (w.server.uuid w.ran) 1 w

pub next_node : Node → World → Node
next_node n w = node_row n n.id (max_version nodes (node_key n) w + 1) w

-- The record that is written, once its model is known.
abbrev pub filled_node : Node → String × ℕ → Node
filled_node n m = record n {
  domain = default_to "node" n.domain;
  model_id = m.0;
  model_version = m.1;
  blob = default_to "{}" n.blob;
}

unfoldable pub put_node : Node → PutOptions → Exec Node
unfolding node_row first_node next_node
put_node n opts = do
  reject_if (n.tenant_id == "") (message "tenant_id required")
  reject_if (n.type == "") (message "type required")
  m ← pinned n.tenant_id n.model_id n.model_version
  let n' = filled_node n m
  if n.id == "" then insert_row nodes (first_node n') else do
    check_expected nodes opts.expected_version (node_key n)
    insert_row nodes (next_node n')

-- The columns (tenant_id, from_id, to_id, domain, type) of an edge.
abbrev pub EdgeKey : Type 0
EdgeKey = String × (String × (String × (String × String)))

abbrev pub edge_key : Edge → EdgeKey
edge_key x = (x.tenant_id, (x.from_id, (x.to_id, (x.domain, x.type))))

abbrev pub edge_version : Edge → ℕ
edge_version x = x.version

-- `graph_edges`
abbrev pub edges : Versioned Edge EdgeKey
edges = record {
  key = edge_key;
  version = edge_version;
  rows = λ d. d.edges;
  put = λ rs d. record d { edges = rs };
  admits = λ d x.
      has_tenant d x.tenant_id
      && (has_model d x.tenant_id x.model_id x.model_version
          && not (any (has_version edge_key edge_version (edge_key x) x.version) d.edges));
}

pub next_edge : Edge → World → Edge
next_edge x w = record x {
  version = max_version edges (edge_key x) w + 1;
  created_at = w.server.now w.ran;
  updated_at = 0;
}

abbrev pub filled_edge : Edge → String × ℕ → Edge
filled_edge x m = record x {
  domain = default_to "edge" x.domain;
  model_id = m.0;
  model_version = m.1;
  blob = default_to "{}" x.blob;
}

unfoldable pub put_edge : Edge → PutOptions → Exec Edge
unfolding next_edge
put_edge x opts = do
  reject_if (x.tenant_id == "") (message "tenant_id required")
  reject_if (x.type == "") (message "type required")
  reject_if (x.from_id == "" || x.to_id == "") (message "from_id and to_id required")
  m ← pinned x.tenant_id x.model_id x.model_version
  let x' = filled_edge x m
  check_expected edges opts.expected_version (edge_key x')
  insert_row edges (next_edge x')

-- `limit <= 0 || limit > 500` gives 100.
abbrev pub edge_limit : Page → ℕ
edge_limit page = elim page.limit [
  | pos n ↦ if leb n 0 || ltb 500 n then 100 else n
  | negsuc n ↦ 100
]

abbrev pub leaves : String → String → String → String → Edge → Bool
leaves tenant_id from_id domain type x =
    x.tenant_id == tenant_id && (x.from_id == from_id && (x.domain == domain && x.type == type))

-- `ORDER BY` over the columns of the key; the tenant and the source are the same in all rows.
abbrev pub edge_before : (String → String → Bool) → EdgeKey → EdgeKey → Bool
edge_before before (_, (_, (to, _))) (_, (_, (to', _))) = before to to'

unfoldable pub out_edges : String → String → String → String → Page → Exec (List Edge)
out_edges tenant_id from_id domain type page = query λ w. take (edge_limit page) (
    distinct_on edge_key edge_version (edge_before w.server.before)
      (select (leaves tenant_id from_id (default_to "edge" domain) type) w.db.edges))
