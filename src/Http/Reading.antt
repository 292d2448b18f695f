-- ===== src/Http/Reading.antt =====
-- The handlers of the requests that read.
use contrato_core.Base.{String, ℕ, string_eq}
use contrato_core.Storage.{Page}
use contrato_core.Storage.Server.{Db}
use contrato_core.Repo.Versioned.Appends.{Reads, write_rules}
use contrato_core.Repo.ModelVersions
use contrato_core.Repo.ModelVersions.{get_latest_enabled}
use contrato_core.Repo.Graph.{get_node, out_edges}
use contrato_core.Repo.Properties.{get_property}
use contrato_core.Repo.Contracts.{get_contract, list_by_type}
use contrato_core.Http.Guards.{Guards, guard_rules, Keeps-of_Reads}
use contrato_core.Http.ModelVersions as ModelVersionHandlers
use contrato_core.Http.Graph as GraphHandlers
use contrato_core.Http.Contracts as ContractHandlers
use contrato_core.Http.Properties as PropertyHandlers

pub get_node-Reads : (t id : String) → Reads (get_node t id)
unfolding get_node
get_node-Reads t id = search write_rules

out_edges-Reads : (t f d k : String) (page : Page) → Reads (out_edges t f d k page)
unfolding out_edges
out_edges-Reads t f d k page = search write_rules

get_property-Reads : (t o i k : String) → Reads (get_property t o i k)
unfolding get_property
get_property-Reads t o i k = search write_rules

pub get_contract-Reads : (t id : String) → Reads (get_contract t id)
unfolding get_contract
get_contract-Reads t id = search write_rules

list_by_type-Reads : (t d k : String) (page : Page) → Reads (list_by_type t d k page)
unfolding list_by_type
list_by_type-Reads t d k page = search write_rules

list-Reads : (t m : String) (page : Page) → Reads (ModelVersions.list t m page)
unfolding ModelVersions.list
list-Reads t m page = search write_rules

pub get_version-Reads : (t m : String) (v : ℕ) → Reads (ModelVersions.get t m v)
unfolding ModelVersions.get
get_version-Reads t m v = search write_rules

pub get_latest_enabled-Reads : (t : String) → Reads (get_latest_enabled t)
unfolding get_latest_enabled
get_latest_enabled-Reads t = search write_rules

module _ (P : Db → Type 0) where
  pub list_model_versions-Guards : (t m : String) → Guards P (ModelVersionHandlers.list t m)
  unfolding ModelVersionHandlers.list
  list_model_versions-Guards t m = search (guard_rules, Keeps-of_Reads, list-Reads)

  pub get_model_version-Guards : (t m : String) → Guards P (ModelVersionHandlers.get t m)
  unfolding ModelVersionHandlers.get
  get_model_version-Guards t m = search (guard_rules, Keeps-of_Reads, list-Reads)

  pub get_node-Guards : (t id : String) → Guards P (GraphHandlers.get_node_by_id t id)
  unfolding GraphHandlers.get_node_by_id
  get_node-Guards t id = search (guard_rules, Keeps-of_Reads, get_node-Reads)

  pub list_edges-Guards : (t f d k : String) → Guards P (GraphHandlers.list_edges t f d k)
  unfolding GraphHandlers.list_edges
  list_edges-Guards t f d k = search (guard_rules, Keeps-of_Reads, out_edges-Reads)

  pub get_property-Guards : (t o i k : String) → Guards P (PropertyHandlers.get t o i k)
  unfolding PropertyHandlers.get
  get_property-Guards t o i k = search (guard_rules, Keeps-of_Reads, get_property-Reads)

  pub list_contracts-Guards : (t d k : String) → Guards P (ContractHandlers.list t d k)
  unfolding ContractHandlers.list
  list_contracts-Guards t d k = search (guard_rules, Keeps-of_Reads, list_by_type-Reads)

  pub get_contract-Guards : (t id : String) → Guards P (ContractHandlers.get t id)
  unfolding ContractHandlers.get
  get_contract-Guards t id = search (guard_rules, Keeps-of_Reads, get_contract-Reads)
