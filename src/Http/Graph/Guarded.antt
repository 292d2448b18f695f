-- ===== src/Http/Graph/Guarded.antt =====
-- What `ListNodes` leaves of the tables.
use contrato_core.Base.{String, Bool-cases, inl, inr, ◌==◌, string_eq}
use contrato_core.Storage.{Node, Result, ok, err}
use contrato_core.Storage.Server.{Db, World}
use contrato_core.Storage.Exec.{query}
use contrato_core.Storage.Keeps.{Keeps}
use contrato_core.Repo.Versioned.Appends.{Reads-query}
use contrato_core.Repo.Graph.{get_node}
use contrato_core.Http.{Handler, Response, respond_ok}
use contrato_core.Http.Guards.{Guards, Keeps-of_Reads, Guards-reply, Guards-refuse_if}
use contrato_core.Http.Reading.{get_node-Reads}
use contrato_core.Http.Graph.{list_nodes, list_one, in_tx, begin_tx, rollback, rolled_back}

module _ (P : Db → Type 0) where
  begin_tx-Keeps : Keeps P begin_tx
  unfolding begin_tx
  begin_tx-Keeps = Keeps-of_Reads P (query λ w. tt) (Reads-query λ w. tt)

  rollback-Keeps : Keeps P rollback
  unfolding rollback
  rollback-Keeps = Keeps-of_Reads P (query λ w. tt) (Reads-query λ w. tt)

  rolled_back-keeps : (o : Response Node × World) → P o.1.db → P (rolled_back o).1.db
  unfolding rolled_back
  rolled_back-keeps (r, w) h = rollback-Keeps.at w h

  list_one-Guards : (t id : String) → Guards P (list_one t id)
  unfolding list_one
  list_one-Guards t id = elim (Bool-cases (id == "")) [
    | inl e ↦ record { at = λ w h. rw e h }
    | inr e ↦ record {
      at = λ w h. rw e (
          (Guards-reply respond_ok (get_node t id)
              (Keeps-of_Reads P (get_node t id) (get_node-Reads t id))).at
            w h);
    }
  ]

  in_tx-keeps :
      (h : Handler Node) (o : Result (Unit {0}) × World)
      → Guards P h
      → P o.1.db
      → P (in_tx h o).1.db
  unfolding in_tx
  in_tx-keeps h (ok _, w) g p = rolled_back-keeps (h w) (g.at w p)
  in_tx-keeps h (err x, w) g p = p

  pub list_nodes-Guards : (t m id : String) → Guards P (list_nodes t m id)
  unfolding list_nodes
  list_nodes-Guards t m id = Guards-refuse_if _ "tenant_id and model_id required" _ (record {
    at = λ w h.
        in_tx-keeps (list_one t id) (begin_tx w) (list_one-Guards t id) (begin_tx-Keeps.at w h);
  })
