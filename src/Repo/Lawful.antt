-- ===== src/Repo/Lawful.antt =====
-- The tables of the repositories: what is put into one is what it holds.
use contrato_core.Base.{refl}
use contrato_core.Repo.Versioned.{IsLawful}
use contrato_core.Repo.ModelVersions
use contrato_core.Repo.Graph.{nodes, edges}
use contrato_core.Repo.Properties.{properties}
use contrato_core.Repo.Contracts.{contracts}
use contrato_core.Repo.Objects.{objects}

pub nodes-IsLawful : IsLawful nodes
nodes-IsLawful = record { rows-put = λ rs d. refl }

pub edges-IsLawful : IsLawful edges
edges-IsLawful = record { rows-put = λ rs d. refl }

pub properties-IsLawful : IsLawful properties
properties-IsLawful = record { rows-put = λ rs d. refl }

pub contracts-IsLawful : IsLawful contracts
contracts-IsLawful = record { rows-put = λ rs d. refl }

pub objects-IsLawful : IsLawful objects
objects-IsLawful = record { rows-put = λ rs d. refl }

pub model_versions-IsLawful : IsLawful ModelVersions.table
model_versions-IsLawful = record { rows-put = λ rs d. refl }
