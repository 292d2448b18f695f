-- ===== src/Tests.antt =====
-- A small database and a server that refuses nothing, for the tests and examples.
mod Repositories
mod Races
mod Calls
mod Gaps
mod Callers
mod Objects
mod Handlers
mod Policies
mod Bundles
mod GraphLibrary
mod Graphs
mod Imports
mod Commands
mod Stores
mod Processes
mod Requests
use contrato_core.Base.{ℕ, String, Option, none, some, List, [], ◌∷◌, Bool, false, pos, refl}
use contrato_core.Table.{max_of}
use contrato_core.Storage.{
  Tenant, ModelVersion, Node, Edge, Property, ContractRecord, Object, PutOptions, ObjectPutOptions,
  Page,
}
use contrato_core.Storage.Server.{Db, Server, World}
use contrato_core.Repo.Calls.WellFormed.{IsWellFormed}

abbrev pub acme : Tenant
acme = record { id = "t1"; name = "acme"; version = 1 }

abbrev pub model : ModelVersion
model = record {
  tenant_id = "t1";
  model_id = "m1";
  version = 1;
  status = "enabled";
  change_note = "";
  created_at = 1;
  updated_at = 0;
}

abbrev pub node : String → ℕ → String → Node
node id version blob = record {
  tenant_id = "t1";
  id = id;
  domain = "node";
  type = "actor";
  model_id = "m1";
  model_version = 1;
  version = version;
  blob = blob;
  created_at = 0;
  updated_at = 0;
}

abbrev pub edge : String → String → Edge
edge from to = record {
  tenant_id = "t1";
  from_id = from;
  to_id = to;
  domain = "edge";
  type = "provides";
  model_id = "m1";
  model_version = 1;
  version = 1;
  blob = "{}";
  created_at = 0;
  updated_at = 0;
}

abbrev pub property : String → ℕ → Property
property value version = record {
  tenant_id = "t1";
  owner_type = "node";
  owner_id = "n1";
  key = "price";
  value_json = value;
  model_id = "m1";
  model_version = 1;
  version = version;
}

abbrev pub contract : String → ℕ → ℕ → ContractRecord
contract status version created_at = record {
  tenant_id = "t1";
  id = "c1";
  domain = "contract";
  type = "lease";
  status = status;
  action = "";
  model_id = "m1";
  model_version = 1;
  version = version;
  blob = "{}";
  created_at = created_at;
  updated_at = 0;
}

abbrev pub object : Object
object = record {
  tenant_id = "t1";
  id = "";
  node_id = "n1";
  bytes = "data";
  ext_url = "";
  etag = "";
  version = 0;
  expires_at = 0;
  created_at = 0;
  updated_at = 0;
}

abbrev pub no_options : PutOptions
no_options = record { expected_version = none }

abbrev pub for_ten : ObjectPutOptions
for_ten = record { if_match_etag = ""; ttl = pos 10; expected_version = some (pos 0) }

abbrev pub any_page : Page
any_page = record { cursor = ""; limit = pos 0 }

abbrev pub etag_of : String → String
etag_of s = s

abbrev server : Server
server = record {
  refuses = λ n. none;
  violation = λ n. "violation";
  breaks_off = λ n. none;
  uuid = λ n. "u1";
  now = λ n. n;
  clock = λ n. n;
  before = λ a b. false;
}

abbrev pub db : Db
db = record {
  tenants = acme ∷ [];
  types = [];
  statuses = [];
  model_versions = model ∷ [];
  nodes = node "n1" 1 "{}" ∷ [];
  edges = edge "n1" "n1" ∷ [];
  properties = property "1" 1 ∷ [];
  contracts = [];
  objects = [];
  contract_reasons = [];
  contract_obligations = [];
}

abbrev pub world : World
world = record { db = db; ran = 0; server = server }

pub world-IsWellFormed : IsWellFormed world.db
unfolding max_of
world-IsWellFormed = record {
  model_versions = (refl, tt);
  nodes = (refl, tt);
  edges = (refl, tt);
  properties = (refl, tt);
  contracts = tt;
  objects = tt;
}
