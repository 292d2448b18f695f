-- ===== src/Tests/Races.antt =====
-- Two clients that update the node `n1`.
use contrato_core.Base.{◌≡◌, refl, [], ◌∷◌, true, false, pair_eq, string_eq}
use contrato_core.Table.{max_of}
use contrato_core.Storage.{Node, err, conflict}
use contrato_core.Storage.Server.{has_tenant, has_model}
use contrato_core.Repo.Graph.{nodes, node_key}
use contrato_core.Repo.Versioned.{max_version}
use contrato_core.Repo.Concurrency.{finished}
use contrato_core.Repo.Concurrency.Nodes.{both, IsWrittenAt, update_serial, update_race}
use contrato_core.Tests.{world, node}

abbrev ours : Node
ours = node "n1" 0 "ours"

abbrev theirs : Node
theirs = node "n1" 0 "theirs"

at_one : max_version nodes (node_key ours) world ≡ 1
unfolding max_of
at_one = refl

known_tenant : has_tenant world.db "t1" ≡ true
unfolding has_tenant
known_tenant = refl

known_model : has_model world.db "t1" "m1" 1 ≡ true
unfolding has_model
known_model = refl

update_serial_example :
    let s = both ours theirs 1 world (true ∷ true ∷ false ∷ []) in
    IsWrittenAt 2 s.left × (s.right ≡ finished (err conflict))
update_serial_example =
    update_serial ours theirs 1 world refl at_one known_tenant known_model (λ n. refl)

update_race_example :
    let s = both ours theirs 1 world (true ∷ false ∷ true ∷ false ∷ []) in
    IsWrittenAt 2 s.left × IsWrittenAt 3 s.right
update_race_example =
    update_race ours theirs 1 world refl at_one known_tenant known_model (λ n. refl) known_tenant
      known_model
