-- ===== src/Store/Requests/Borrows.antt =====
-- What the calls of the repositories' methods open and close.
use contrato_core.Base.{String}
use contrato_core.Storage.{Result, ok, err}
use contrato_core.Storage.Exec.{Exec}
use contrato_core.Storage.Host.{Host, Querier, through}
use contrato_core.Storage.Host.Handles.{Same, through-Borrows}
use contrato_core.Store.{repositories}
use contrato_core.Store.Requests.{
  Request, outcome, request, create_tenant, get_tenant, get_tenant_by_name, create_type,
  get_type_by_name, create_status, get_status_by_name, put_property, get_property,
  create_model_version, get_model_version, get_latest_enabled, list_model_versions, get_contract,
  get_contract_version, put_contract, list_contracts, get_object, delete_object, put_object,
  put_node, get_node, put_edge, out_edges,
}

outcome-Same : {A : Type 0} (h : Host) (o : Result A × Host) → Same h o.1 → Same h (outcome o).1
outcome-Same h (ok a, h') s = s
outcome-Same h (err x, h') s = s

through-Same :
    {A : Type 0} (q : Querier) (m : Exec A) (h : Host) → Same h (outcome (through q m h)).1
through-Same q m h = outcome-Same h (through q m h) (through-Borrows q m h)

-- A method opens and closes nothing.
pub request-Same :
    (etag_of : String → String) (q : Querier) (r : Request) (h : Host)
    → Same h (request (repositories etag_of q) r h).1
unfolding request repositories
request-Same etag_of q (create_tenant name) h = through-Same q _ h
request-Same etag_of q (get_tenant id) h = through-Same q _ h
request-Same etag_of q (get_tenant_by_name name) h = through-Same q _ h
request-Same etag_of q (create_type k) h = through-Same q _ h
request-Same etag_of q (get_type_by_name t d n) h = through-Same q _ h
request-Same etag_of q (create_status s) h = through-Same q _ h
request-Same etag_of q (get_status_by_name t d n) h = through-Same q _ h
request-Same etag_of q (put_property p opts) h = through-Same q _ h
request-Same etag_of q (get_property t o i k) h = through-Same q _ h
request-Same etag_of q (create_model_version mv) h = through-Same q _ h
request-Same etag_of q (get_model_version t m v) h = through-Same q _ h
request-Same etag_of q (get_latest_enabled t) h = through-Same q _ h
request-Same etag_of q (list_model_versions t m page) h = through-Same q _ h
request-Same etag_of q (get_contract t i) h = through-Same q _ h
request-Same etag_of q (get_contract_version t i v) h = through-Same q _ h
request-Same etag_of q (put_contract c opts) h = through-Same q _ h
request-Same etag_of q (list_contracts t d k page) h = through-Same q _ h
request-Same etag_of q (get_object t n) h = through-Same q _ h
request-Same etag_of q (delete_object t n) h = through-Same q _ h
request-Same etag_of q (put_object o opts) h = through-Same q _ h
request-Same etag_of q (put_node n opts) h = through-Same q _ h
request-Same etag_of q (get_node t i) h = through-Same q _ h
request-Same etag_of q (put_edge x opts) h = through-Same q _ h
request-Same etag_of q (out_edges t f d k page) h = through-Same q _ h
