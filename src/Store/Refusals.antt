-- ===== src/Store/Refusals.antt =====
-- What a store that is closed, and a transaction that is over, answer.
pub mod Methods
use contrato_core.Base.{ℕ, ◌≡◌, refl, sym, ◌∙◌, ap, String, Bool, true, false, ◌∷◌}
use contrato_core.Storage.{Result, ok, err}
use contrato_core.Storage.Server.{World}
use contrato_core.Storage.Exec.{Exec}
use contrato_core.Storage.Host.{
  Host, Querier, landed, deaf, heard_again, cut_off, reaching, is_usable, why_not, through,
}
use contrato_core.Storage.Deaf.{Stops, HasFailed}
use contrato_core.Store.{repositories}
use contrato_core.Store.Requests.{Request, outcome, request}
use contrato_core.Store.Requests.{
  create_tenant, get_tenant, get_tenant_by_name, create_type, get_type_by_name, create_status,
  get_status_by_name, put_property, get_property, create_model_version, get_model_version,
  get_latest_enabled, list_model_versions, get_contract, get_contract_version, put_contract,
  list_contracts, get_object, delete_object, put_object, put_node, get_node, put_edge, out_edges,
}
use Methods.*

-- A call that failed and changed no table.
abbrev pub IsRefused : Host → Bool × Host → Type 0
IsRefused h (succeeded, h') = (succeeded ≡ false) × (h'.world.db ≡ h.world.db)

module _ {A : Type 0} where
  IsRefused-outcome :
      (h : Host) (w : World) (o : Result A × World)
      → HasFailed o.0
      → o.1.db ≡ h.world.db
      → IsRefused h (outcome (landed h (heard_again w o)))
  IsRefused-outcome h w (ok a, v) f e = elim f [ ]
  IsRefused-outcome h w (err x, v) f e = (refl, e)

  through-IsRefused :
      (q : Querier) (m : Exec A) (h : Host)
      → Stops m
      → is_usable q h ≡ false
      → IsRefused h (outcome (through q m h))
  unfolding through cut_off
  through-IsRefused q m h s e = rw e (
      IsRefused-outcome h h.world (m (deaf (why_not q) h.world)) (s.fails _ (why_not q, λ n. refl))
        (s.at (deaf (why_not q) h.world) (why_not q, λ n. refl)).0)

module _ (etag_of : String → String) where
  -- If the database of a store is closed, or the transaction is over, every method of the eight
  -- repositories fails and changes no table.
  pub request-IsRefused :
      (q : Querier) (r : Request) (h : Host)
      → is_usable q h ≡ false
      → IsRefused h (request (repositories etag_of q) r h)
  unfolding request repositories
  request-IsRefused q (create_tenant name) h e =
      through-IsRefused q _ h (create_tenant-Stops name) e
  request-IsRefused q (get_tenant id) h e = through-IsRefused q _ h (get_tenant-Stops id) e
  request-IsRefused q (get_tenant_by_name name) h e =
      through-IsRefused q _ h (get_tenant_by_name-Stops name) e
  request-IsRefused q (create_type k) h e = through-IsRefused q _ h (create_type-Stops k) e
  request-IsRefused q (get_type_by_name t d n) h e =
      through-IsRefused q _ h (get_type_by_name-Stops t d n) e
  request-IsRefused q (create_status s) h e = through-IsRefused q _ h (create_status-Stops s) e
  request-IsRefused q (get_status_by_name t d n) h e =
      through-IsRefused q _ h (get_status_by_name-Stops t d n) e
  request-IsRefused q (put_property p opts) h e =
      through-IsRefused q _ h (put_property-Stops p opts) e
  request-IsRefused q (get_property t o i k) h e =
      through-IsRefused q _ h (get_property-Stops t o i k) e
  request-IsRefused q (create_model_version mv) h e = through-IsRefused q _ h (create-Stops mv) e
  request-IsRefused q (get_model_version t m v) h e =
      through-IsRefused q _ h (get_model_version-Stops t m v) e
  request-IsRefused q (get_latest_enabled t) h e =
      through-IsRefused q _ h (get_latest_enabled-Stops t) e
  request-IsRefused q (list_model_versions t m page) h e =
      through-IsRefused q _ h (list-Stops t m page) e
  request-IsRefused q (get_contract t i) h e = through-IsRefused q _ h (get_contract-Stops t i) e
  request-IsRefused q (get_contract_version t i v) h e =
      through-IsRefused q _ h (get_contract_version-Stops t i v) e
  request-IsRefused q (put_contract c opts) h e =
      through-IsRefused q _ h (put_contract-Stops c opts) e
  request-IsRefused q (list_contracts t d k page) h e =
      through-IsRefused q _ h (list_by_type-Stops t d k page) e
  request-IsRefused q (get_object t n) h e = through-IsRefused q _ h (get_by_node_id-Stops t n) e
  request-IsRefused q (delete_object t n) h e =
      through-IsRefused q _ h (delete_by_node_id-Stops t n) e
  request-IsRefused q (put_object o opts) h e =
      through-IsRefused q _ h (put_object-Stops etag_of o opts) e
  request-IsRefused q (put_node n opts) h e = through-IsRefused q _ h (put_node-Stops n opts) e
  request-IsRefused q (get_node t i) h e = through-IsRefused q _ h (get_node-Stops t i) e
  request-IsRefused q (put_edge x opts) h e = through-IsRefused q _ h (put_edge-Stops x opts) e
  request-IsRefused q (out_edges t f d k page) h e =
      through-IsRefused q _ h (out_edges-Stops t f d k page) e
