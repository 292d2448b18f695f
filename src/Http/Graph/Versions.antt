-- ===== src/Http/Graph/Versions.antt =====
-- The expected version of `PUT /v0/graph/nodes/{id}`.
use contrato_core.Base.{
  ◌≡◌, ◌≢◌, refl, String, false, Option, none, some, ℤ, pos, ◌==◌, string_eq, pair_eq, Bool-cases,
  inl, inr,
}
use contrato_core.Storage.{Node, err, conflict}
use contrato_core.Storage.Server.{World}
use contrato_core.Storage.Exec.{tick, reject_if, ◌>>=◌}
use contrato_core.Repo.Versioned.{max_version}
use contrato_core.Repo.Versioned.Check.{check_expected_conflict}
use contrato_core.Repo.ModelVersions.{pinned}
use contrato_core.Repo.Graph.{nodes, node_key, put_node}
use contrato_core.Repo.Concurrency.Nodes.{IsReady}
use contrato_core.Http.{Decoded, decoded, malformed, respond_error, reply, with_body}
use contrato_core.Http.Graph.{update_node}

put_node-conflict :
    (n : Node) (v : ℤ) (w : World)
    → IsReady n
    → w.server.refuses w.ran ≡ none
    → pos (max_version nodes (node_key n) w) ≢ v
    → put_node n (record { expected_version = some v }) w ≡ (err conflict, tick w)
put_node-conflict n v w r quiet stale =
    unfold put_node pinned ◌>>=◌ reject_if in
    rw (r.tenant, r.typed, r.pinned, r.named)
      (rw (check_expected_conflict nodes v (node_key n) w quiet stale) refl)

module _ (parse_int : String → Option ℤ) where
  -- An update of a node with a tenant, a type, an id and a model, whose query gives an integer that is
  -- not the node's current version, is answered 409, and changes no table.
  pub update_node-conflict :
      (id expected : String) (n : Node) (v : ℤ) (w : World)
      → IsReady (record n { id = id })
      → (expected == "") ≡ false
      → parse_int expected ≡ some v
      → w.server.refuses w.ran ≡ none
      → pos (max_version nodes (n.tenant_id, id) w) ≢ v
      → update_node parse_int id expected (decoded n) w
        ≡ (respond_error 409 "version conflict", tick w)
  unfolding update_node with_body reply
  update_node-conflict id expected n v w r given parsed quiet stale =
      rw (given, parsed) (rw (put_node-conflict (record n { id = id }) v w r quiet stale) refl)

  -- An update whose `expected_version` is no integer is handled as one that has none.
  pub update_node-malformed :
      (id expected : String) (body : Decoded Node) (w : World)
      → parse_int expected ≡ none
      → update_node parse_int id expected body w ≡ update_node parse_int id "" body w
  unfolding update_node with_body
  update_node-malformed id expected (malformed msg) w h = refl
  update_node-malformed id expected (decoded n) w h = elim (Bool-cases (expected == "")) [
    | inl b ↦ rw b refl
    | inr b ↦ rw (b, h) refl
  ]
