-- ===== src/Http/Writing.antt =====
-- The handlers of the requests that write, and the invariants of the tables.
use contrato_core.Base.{String, Option, ℤ}
use contrato_core.Storage.{Node, Edge, Property, ContractRecord, ModelVersion}
use contrato_core.Storage.Keeps.{Keeps, Keeps-bind}
use contrato_core.Bundle.Import.Sound.{
  IsSound, create-Keeps, put_node-Keeps, put_edge-Keeps, put_property-Keeps, put_contract-Keeps,
}
use contrato_core.Http.{Decoded}
use contrato_core.Http.Guards.{Guards, guard_rules, Keeps-of_Reads}
use contrato_core.Http.Reading.{get_contract-Reads, get_version-Reads}
use contrato_core.Http.ModelVersions as ModelVersionHandlers
use contrato_core.Http.Graph as GraphHandlers
use contrato_core.Http.Contracts as ContractHandlers
use contrato_core.Http.Properties as PropertyHandlers

pub create_model_version-Guards :
    (body : Decoded ModelVersion) → Guards IsSound (ModelVersionHandlers.create body)
unfolding ModelVersionHandlers.create
create_model_version-Guards body = search (guard_rules, create-Keeps)

change_version-Keeps :
    (b : ModelVersionHandlers.StatusBody) → Keeps IsSound (ModelVersionHandlers.change_status b)
unfolding ModelVersionHandlers.change_status
change_version-Keeps b =
    Keeps-bind _ _ (Keeps-of_Reads IsSound _ (get_version-Reads b.tenant_id b.model_id b.version))
      (λ mv. create-Keeps _)

pub set_version-Guards :
    (body : Decoded ModelVersionHandlers.StatusBody)
    → Guards IsSound (ModelVersionHandlers.set_status body)
unfolding ModelVersionHandlers.set_status
set_version-Guards body = search (guard_rules, change_version-Keeps)

pub create_node-Guards : (body : Decoded Node) → Guards IsSound (GraphHandlers.create_node body)
unfolding GraphHandlers.create_node
create_node-Guards body = search (guard_rules, put_node-Keeps)

pub update_node-Guards :
    (parse_int : String → Option ℤ) (id expected : String) (body : Decoded Node)
    → Guards IsSound (GraphHandlers.update_node parse_int id expected body)
unfolding GraphHandlers.update_node
update_node-Guards parse_int id expected body = search (guard_rules, put_node-Keeps)

pub create_edge-Guards : (body : Decoded Edge) → Guards IsSound (GraphHandlers.create_edge body)
unfolding GraphHandlers.create_edge
create_edge-Guards body = search (guard_rules, put_edge-Keeps)

pub update_edge-Guards :
    (from to type : String) (body : Decoded Edge)
    → Guards IsSound (GraphHandlers.update_edge from to type body)
unfolding GraphHandlers.update_edge
update_edge-Guards from to type body = search (guard_rules, put_edge-Keeps)

pub put_property-Guards :
    (parse_int : String → Option ℤ) (owner_type owner_id key expected : String)
    (body : Decoded Property)
    → Guards IsSound (PropertyHandlers.put parse_int owner_type owner_id key expected body)
unfolding PropertyHandlers.put
put_property-Guards parse_int owner_type owner_id key expected body =
    search (guard_rules, put_property-Keeps)

pub create_contract-Guards :
    (body : Decoded ContractRecord) → Guards IsSound (ContractHandlers.create body)
unfolding ContractHandlers.create
create_contract-Guards body = search (guard_rules, put_contract-Keeps)

change_contract-Keeps :
    (id : String) (b : ContractHandlers.StatusBody)
    → Keeps IsSound (ContractHandlers.change_status id b)
unfolding ContractHandlers.change_status
change_contract-Keeps id b =
    Keeps-bind _ _ (Keeps-of_Reads IsSound _ (get_contract-Reads b.tenant_id id))
      (λ rec. put_contract-Keeps _ _)

pub set_contract-Guards :
    (id : String) (body : Decoded ContractHandlers.StatusBody)
    → Guards IsSound (ContractHandlers.set_status id body)
unfolding ContractHandlers.set_status
set_contract-Guards id body = search (guard_rules, change_contract-Keeps)
