-- ===== src/Http/Graph.antt =====
-- internal/api/httpapi/handlers/graph.go
pub mod Versions
pub mod Transaction
pub mod Guarded
use contrato_core.Base.{
  ℕ, String, Bool, true, false, ◌||◌, not, Option, none, List, ℤ, pos, ◌==◌, string_eq,
  if◌then◌else◌,
}
use contrato_core.Storage.{Node, Edge, Page, PutOptions, Result, ok, err}
use contrato_core.Storage.Server.{World}
use contrato_core.Storage.Exec.{Exec, query, ◌>>=◌}
use contrato_core.Repo.Graph.{put_node, get_node, put_edge, out_edges}
use contrato_core.Http.{
  Handler, Response, Decoded, respond_ok, respond_created, respond_error, internal_error,
  bad_request, refuse_if, reply, with_body, put_options,
}

abbrev no_options : PutOptions
no_options = record { expected_version = none }

-- `BEGIN` and `ROLLBACK` are statements that touch no table.
begin_tx : Exec (Unit {0})
begin_tx = query λ _. tt

rollback : Exec (Unit {0})
rollback = query λ _. tt

-- `defer tx.Rollback(…)`, its error ignored.
rolled_back : Response Node × World → Response Node × World
rolled_back (r, w) = (r, (rollback w).1)

in_tx : Handler Node → Result (Unit {0}) × World → Response Node × World
unfolding rolled_back
in_tx h (ok _, w) = rolled_back (h w)
in_tx h (err e, w) = (internal_error e, w)

list_one : String → String → Handler Node
list_one tenant_id id w = if not (id == "") then reply respond_ok (get_node tenant_id id) w else (
  respond_error 501 "list all nodes requires model_id cursor paging (not yet implemented)",
  w,
)

unfoldable pub list_nodes : String → String → String → Handler Node
unfolding begin_tx rollback in_tx list_one
list_nodes tenant_id model_id id =
    refuse_if (tenant_id == "" || model_id == "") "tenant_id and model_id required"
      (λ w. in_tx (list_one tenant_id id) (begin_tx w))

unfoldable pub create_node : Decoded Node → Handler Node
create_node body = with_body body λ n. reply respond_created (put_node n no_options)

unfoldable pub get_node_by_id : String → String → Handler Node
get_node_by_id tenant_id id =
    refuse_if (tenant_id == "") "tenant_id required" (reply respond_ok (get_node tenant_id id))

unfoldable pub list_edges : String → String → String → String → Handler (List Edge)
list_edges tenant_id from_id domain type =
    refuse_if (tenant_id == "" || from_id == "") "tenant_id and from required" (
      reply respond_ok
        (out_edges tenant_id from_id domain type (record { cursor = ""; limit = pos 100 })))

unfoldable pub create_edge : Decoded Edge → Handler Edge
create_edge body = with_body body λ x. reply respond_created (put_edge x no_options)

unfoldable pub update_edge : String → String → String → Decoded Edge → Handler Edge
update_edge from to type body = with_body body λ x.
    reply respond_ok (put_edge (record x { from_id = from; to_id = to; type = type }) no_options)

-- `parse_int` is `json.Unmarshal` into an `int`.
module _ (parse_int : String → Option ℤ) where
  unfoldable pub update_node : String → String → Decoded Node → Handler Node
  unfolding put_options
  update_node id expected body =
      with_body body
        λ n. reply respond_ok (put_node (record n { id = id }) (put_options parse_int expected))
