-- ===== src/Bundle/Import/Apart.antt =====
-- The loops of the import: each keeps the invariants and the tables of the others.
use contrato_core.Base.{
  ◌≡◌, refl, ◌∙◌, String, Bool, List, string_eq, pair_eq, nat_eq, Eq, if◌then◌else◌,
}
use contrato_core.Json.{Map}
use contrato_core.Storage.{Result, ok, PutOptions, Tenant, ModelVersion}
use contrato_core.Storage
use contrato_core.Storage.Server.{Db}
use contrato_core.Storage.Exec.{Exec, for_each, pure}
use contrato_core.Storage.Keeps.{
  Keeps, keep_rules, Keeps-for_each, Keeps-wrap, Keeps-if, Keeps-pure,
}
use contrato_core.Repo.Versioned.{Versioned}
use contrato_core.Repo.Versioned.Appends.{Appends}
use contrato_core.Repo.Graph.{nodes, edges}
use contrato_core.Repo.Properties.{properties}
use contrato_core.Repo.Contracts.{contracts, put_contract}
use contrato_core.Repo.Appending.{
  put_node-Appends, put_edge-Appends, put_property-Appends, append_contract-Appends,
}
use contrato_core.Repo.Calls.WellFormed.{Numbered, Appended_elim, put_contract-world}
use contrato_core.Bundle
use contrato_core.Bundle.{Bundle}
use contrato_core.Bundle.Import.{
  no_options, import_status, import_type, import_node, import_edge, import_property,
  import_contract,
}
use contrato_core.Bundle.Import.Sound.{
  IsSound, put_edge-Keeps, put_property-Keeps, put_contract-Keeps, put_node-Keeps,
  create_status-Keeps, create_type-Keeps,
}

-- The invariants, and some tables that stay.
abbrev pub SoundWith : {A : Type 0} → (Db → A) → A → Db → Type 0
SoundWith f a d = IsSound d × (f d ≡ a)

module _ {R K A : Type 0} ⦃e : Eq K⦄ (t : Versioned R K) (f : Db → A) (a : A) where
  apart-Keeps :
      (put : Exec R)
      → Keeps IsSound put
      → Appends t put
      → ((d : Db) → IsSound d → Numbered t d)
      → ((rs : List R) (d : Db) → f (t.put rs d) ≡ f d)
      → Keeps (SoundWith f a) put
  apart-Keeps put keeps appends numbered apart = record {
    at = λ w (h, s). (
      keeps.at w h,
      Appended_elim t (λ d. f d ≡ a) w.db (put w) s (λ r next ad. apart _ w.db ∙ s)
          (appends.at w (numbered w.db h)),
    );
  }

abbrev pub after_nodes : Db → List Storage.Edge × List Storage.Property
after_nodes d = (d.edges, d.properties)

abbrev pub after_edges : Db → List Storage.Node × List Storage.Property
after_edges d = (d.nodes, d.properties)

abbrev pub after_properties : Db → List Storage.Node × List Storage.Edge
after_properties d = (d.nodes, d.edges)

abbrev pub after_contracts : Db → List Storage.Node × (List Storage.Edge × List Storage.Property)
after_contracts d = (d.nodes, (d.edges, d.properties))

contract-Keeps :
    (a : List Storage.Node × (List Storage.Edge × List Storage.Property))
    (c : Storage.ContractRecord) (opts : PutOptions)
    → Keeps (SoundWith after_contracts a) (put_contract c opts)
contract-Keeps a c opts = record {
  at = λ w (h, s). (
    (put_contract-Keeps c opts).at w h,
    rw (put_contract-world c opts w) (
        Appended_elim contracts (λ d. after_contracts d ≡ a) w.db _ s (λ r next ad. s)
          ((append_contract-Appends c opts).at w h.numbered.contracts)),
  );
}

pub statuses-Keeps :
    (t : Tenant) (ss : List Bundle.Status) → Keeps IsSound (for_each (import_status t) ss)
unfolding import_status
statuses-Keeps t ss = search (keep_rules, create_status-Keeps) depth 8

pub types-Keeps : (t : Tenant) (ks : List Bundle.Kind) → Keeps IsSound (for_each (import_type t) ks)
unfolding import_type
types-Keeps t ks = search (keep_rules, create_type-Keeps) depth 8

module _ (marshal : Map → String) (t : Tenant) (mv : ModelVersion) where
  pub nodes-Keeps :
      (a : List Storage.Edge × List Storage.Property) (ns : List Bundle.Node)
      → Keeps (SoundWith after_nodes a) (for_each (import_node marshal t mv) ns)
  unfolding import_node
  nodes-Keeps a ns = Keeps-for_each _ ns λ n. Keeps-wrap _ _ (
      apart-Keeps nodes after_nodes a _ (put_node-Keeps _ no_options)
        (put_node-Appends _ no_options) (λ d h. h.numbered.nodes) (λ rs d. refl))

  pub edges-Keeps :
      (a : List Storage.Node × List Storage.Property) (xs : List Bundle.Edge)
      → Keeps (SoundWith after_edges a) (for_each (import_edge marshal t mv) xs)
  unfolding import_edge
  edges-Keeps a xs = Keeps-for_each _ xs λ x. Keeps-wrap _ _ (
      apart-Keeps edges after_edges a _ (put_edge-Keeps _ no_options)
        (put_edge-Appends _ no_options) (λ d h. h.numbered.edges) (λ rs d. refl))

  pub properties-Keeps :
      (a : List Storage.Node × List Storage.Edge) (ps : List Bundle.Property)
      → Keeps (SoundWith after_properties a) (for_each (import_property marshal t mv) ps)
  unfolding import_property
  properties-Keeps a ps = Keeps-for_each _ ps λ p. Keeps-wrap _ _ (
      apart-Keeps properties after_properties a _ (put_property-Keeps _ no_options)
        (put_property-Appends _ no_options) (λ d h. h.numbered.properties) (λ rs d. refl))

  pub contracts-Keeps :
      (a : List Storage.Node × (List Storage.Edge × List Storage.Property)) (c : Bool)
      (cs : List Bundle.Contract)
      → Keeps
          (SoundWith after_contracts a)
          (if c then for_each (import_contract marshal t mv) cs else pure tt)
  unfolding import_contract
  contracts-Keeps a c cs =
      Keeps-if c _ _ (Keeps-for_each _ cs λ x. Keeps-wrap _ _ (contract-Keeps a _ _))
        (Keeps-pure tt)
