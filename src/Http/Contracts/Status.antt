-- ===== src/Http/Contracts/Status.antt =====
-- Setting the status of a contract.
use contrato_core.Base.{◌≡◌, refl, String, arith, pair_eq, string_eq}
use contrato_core.Storage.{Result, ok, err, ContractRecord}
use contrato_core.Storage.Server.{World}
use contrato_core.Storage.Exec.{Exec, continue, ◌>>=◌}
use contrato_core.Repo.Contracts.{get_contract, put_contract}
use contrato_core.Repo.Contents.{HoldsContract, put_contract-HoldsContract}
use contrato_core.Http.Contracts.{StatusBody, change_status}

bind_inversion :
    {A B : Type 0} (o : Result A × World) (f : A → Exec B) (w' : World) (b : B)
    → continue o f ≡ (ok b, w')
    → (a : A) × (o.0 ≡ ok a) × (f a o.1 ≡ (ok b, w'))
bind_inversion (ok a, w) f w' b s = (a, refl, s)
bind_inversion (err x, w) f w' b s = absurd (ground arith)

-- A status change that succeeds has read the latest version of the contract, and returns a record
-- that has its fields with the new status.
pub change_status-HoldsContract :
    (id : String) (body : StatusBody) (w w' : World) (v : ContractRecord)
    → change_status id body w ≡ (ok v, w')
    → (rec : ContractRecord) × ((get_contract body.tenant_id id w).0 ≡ ok rec)
      × HoldsContract (record rec { status = body.status }) v
unfolding change_status ◌>>=◌
change_status-HoldsContract id body w w' v s =
    let (rec, read, written) =
      bind_inversion (get_contract body.tenant_id id w)
        (λ rec.
          put_contract (record rec { status = body.status })
            (record { expected_version = body.expected_version }))
        w' v s in
    (rec, read, put_contract-HoldsContract _ _ (get_contract body.tenant_id id w).1 w' v written)
