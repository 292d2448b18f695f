-- ===== src/Waypoint.antt =====
-- internal/api/httpapi/handlers/waypoint/analysis.go: the gaps of a model, and the paths
-- between two nodes.
pub mod Clear
pub mod Paths
pub mod Guarded
use contrato_core.Base.{
  ℕ, zero, suc, String, Bool, true, false, ◌&&◌, Option, none, some, List, [], ◌∷◌, ◌++◌, any,
  select, take, length, each, ◌==◌, string_eq, nat_eq, pair_eq, if◌then◌else◌,
}
use contrato_core.Json.{Json, boolean}
use contrato_core.Table.Distinct.{distinct_on}
use contrato_core.Snapshot.{model_nodes, model_edges, property_before, in_version}
use contrato_core.Storage.{Node, Edge, Property, ModelVersion, Result, ok, err}
use contrato_core.Storage.Server.{World}
use contrato_core.Storage.Exec.{Exec, pure, query, ◌>>=◌}
use contrato_core.Repo.ModelVersions.{get_latest_enabled}
use contrato_core.Repo.Graph.{EdgeKey, node_key, node_version, edge_key, edge_version}
use contrato_core.Repo.Properties.{PropertyKey, property_key, property_version}
use contrato_core.Http.{Handler, Response, respond_ok, refuse_if, reply_internal, storage_error}

pub record Gap : Type 0 where
  pub kind : String
  pub capability_id : String
  pub capability_type : String
  pub provider_count : ℕ
  pub description : String

pub record GapsResponse : Type 0 where
  pub tenant_id : String
  pub model_id : String
  pub model_version : ℕ
  pub gaps : List Gap

-- The edges that provide a node: `providerCount`.
pub count_providers : List Edge → String → ℕ
count_providers xs id = length (select (λ x. x.type == "provides" && x.to_id == id) xs)

-- `v.(bool)` holds `false`.
abbrev pub says_false : Option Json → Bool
says_false (some (boolean false)) = true
says_false _ = false

abbrev pub count_gap : Node → ℕ → List Gap
count_gap n zero =
    record {
      kind = "no_provider";
      capability_id = n.id;
      capability_type = n.type;
      provider_count = 0;
      description = "No actor provides this capability";
    }
    ∷ []
count_gap n (suc zero) =
    record {
      kind = "single_provider";
      capability_id = n.id;
      capability_type = n.type;
      provider_count = 1;
      description = "Only one provider — single point of failure";
    }
    ∷ []
count_gap n (suc (suc k)) = []

abbrev unavailable_gap : Node → ℕ → Gap
unavailable_gap n count = record {
  kind = "unavailable";
  capability_id = n.id;
  capability_type = "";
  provider_count = count;
  description = "Capability is marked unavailable";
}

-- The properties of nodes.
pub node_properties : String → ModelVersion → World → List Property
node_properties t mv w =
    distinct_on property_key property_version (property_before w.server.before) (
      select
        (λ p.
          p.tenant_id == t
          && (p.model_id == mv.model_id
              && (p.model_version == mv.version && p.owner_type == "node")))
        w.db.properties)

gaps_response : String → ModelVersion → List Gap → Response GapsResponse
gaps_response t mv found =
    respond_ok
      (record { tenant_id = t; model_id = mv.model_id; model_version = mv.version; gaps = found })

-- The rows that a loop without a look at `rows.Err()` sees.
abbrev pub arrived : {A : Type 0} → Option ℕ → List A → List A
arrived none xs = xs
arrived (some n) xs = take n xs

-- `unmarshal` is `json.Unmarshal` into an `any`; `none` is an error.
module _ (unmarshal : String → Option Json) where
  -- `unavailable[id]`
  pub is_unavailable : List Property → String → Bool
  is_unavailable ps id =
      any
        (λ p. p.key == "availability" && (p.owner_id == id && says_false (unmarshal p.value_json)))
        ps

  pub gaps_of : List Edge → List Property → Node → List Gap
  unfolding count_providers is_unavailable
  gaps_of xs ps n =
      if n.type == "capability"
      then count_gap n (count_providers xs n.id)
        ++ (if is_unavailable ps n.id then unavailable_gap n (count_providers xs n.id) ∷ [] else [])
      else []

  unfoldable pub detect_gaps : String → ModelVersion → Exec (List Gap)
  unfolding gaps_of
  detect_gaps t mv = do
    ns ← query (model_nodes t mv)
    xs ← query (model_edges t mv)
    ps ← query (λ w. arrived (w.server.breaks_off w.ran) (node_properties t mv w))
    pure (each (gaps_of xs ps) ns)

  with_model : String → Result ModelVersion × World → Response GapsResponse × World
  unfolding gaps_response
  with_model t (ok mv, w) = reply_internal (gaps_response t mv) (detect_gaps t mv) w
  with_model t (err x, w) = (storage_error x, w)

  unfoldable pub gaps : String → Handler GapsResponse
  unfolding with_model
  gaps t = refuse_if (t == "") "tenant_id required" (λ w. with_model t (get_latest_enabled t w))
