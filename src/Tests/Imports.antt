-- ===== src/Tests/Imports.antt =====
-- The import of a bundle into the small database.
use contrato_core.Base.{
  ap, ◌≡◌, ◌≢◌, refl, String, true, false, Option, none, some, arith, eq_iff, ◌==◌, string_eq,
  if◌then◌else◌,
}
use contrato_core.Json.{Map, field, text, end}
use contrato_core.Storage.{Result, ok, Tenant, ModelVersion}
use contrato_core.Storage.Server.{World, has_tenant, has_model}
use contrato_core.Storage.Exec.{
  ◌>>=◌, for_each, wrap, pure, fail, reject_if, query_row, query, insert, statement, or_else,
}
use contrato_core.Table.{newest, max_of}
use contrato_core.Bundle.{Bundle}
use contrato_core.Bundle.Import.{
  Options, import_decoded, import_contents, import_node, import_edge, import_property,
  import_contract, import_type, import_status, find_or_create,
}
use contrato_core.Bundle.Import.Sound.{IsSound}
use contrato_core.Bundle.Import.Live.{IsFilled, import_decoded-returns}
use contrato_core.Bundle.Import.Complete.{IsPlain}
use contrato_core.Bundle.Export.RoundTrip.{IsReadBack, IsExported, export-import}
use contrato_core.Repo.ModelVersions.{create, pinned, get_latest_enabled}
use contrato_core.Repo.Graph.{put_node, put_edge}
use contrato_core.Repo.Properties.{put_property}
use contrato_core.Repo.Contracts.{append_contract, put_contract, scan_contract}
use contrato_core.Repo.Registries.{get_tenant_by_name, create_type, create_status, create_tenant}
use contrato_core.Repo.Versioned.{insert_row, check_expected}
use contrato_core.Tests.{acme, world, world-IsWellFormed}
use contrato_core.Tests.Bundles.{with_target}
use contrato_core.Tests.Calls.{world-IsLinked}

abbrev options : Options
options = record {
  with_contracts = true;
  tenant_name = "";
  output_path = "";
  input_path = "model.json";
  enable_imported = true;
  change_note = "";
}

-- A library that reads back the two blobs of the bundle.
abbrev marshal : Map → String
marshal none = "null"
marshal (some fs) = "{}"

abbrev unmarshal : String → Option Map
unmarshal s =
    if s == "null"
    then some none
    else some (some (field "ref" (text "r") (field "job" (text "j") end)))

abbrev read_file : String → Result String
read_file path = ok path

abbrev decode : String → Result Bundle
decode raw = ok (with_target "c")

pub world-IsSound : IsSound world.db
world-IsSound = record { numbered = world-IsWellFormed; linked = world-IsLinked }

abbrev after_import : World
after_import = (import_decoded marshal options (with_target "c") world).1

imported : import_decoded marshal options (with_target "c") world ≡ (ok tt, after_import)
unfolding import_decoded ◌>>=◌ reject_if find_or_create get_tenant_by_name query_row for_each
    import_type wrap create_type insert has_tenant create insert_row max_of import_contents
    import_node put_node import_contract import_edge import_property import_status append_contract
    put_contract scan_contract put_edge get_latest_enabled pinned put_property create_status
    create_tenant check_expected fail or_else pure query statement has_model newest
imported = refl

named : (s : String) → (s == "") ≡ false → s ≢ ""
named s h e = absurd (ground (arith, eq_iff s ""))

differ : (s t : String) → (s == t) ≡ false → s ≢ t
differ s t h e = absurd (ground (arith, eq_iff s t))

plain : IsPlain (with_target "c")
plain = record {
  ids = (named "a" refl, (named "p" refl, (named "c" refl, tt)));
  nodes = ((differ "p" "a" refl, (differ "c" "a" refl, tt)), ((differ "c" "p" refl, tt), (tt, tt)));
  edges = (((λ s. differ "p" "a" refl (ap (λ k. k.0) s)), tt), (tt, tt));
  properties = tt;
}

read_back : IsReadBack marshal unmarshal (with_target "c")
read_back = record {
  nodes = ((named "null" refl, refl), ((named "null" refl, refl), ((named "{}" refl, refl), tt)));
  edges = ((named "null" refl, refl), ((named "null" refl, refl), tt));
  properties = tt;
}

export-import_example :
    (t : Tenant) × (mv : ModelVersion) × (mv.model_id ≡ "m1")
    × IsExported marshal unmarshal (with_target "c") t mv after_import
export-import_example =
    export-import marshal unmarshal options (with_target "c") world after_import world-IsSound
      (named "m1" refl) plain read_back imported

filled : IsFilled (with_target "c")
filled = record {
  nodes = (
    (named "a" refl, named "actor" refl),
    ((named "p" refl, named "policy" refl), ((named "c" refl, named "capability" refl), tt)),
  );
  edges = (
    (named "a" refl, named "c" refl, named "provides" refl),
    ((named "p" refl, named "c" refl, named "governs" refl), tt),
  );
  properties = tt;
  contracts = tt;
}

import_decoded-returns_example :
    (v : World) × (import_decoded marshal options (with_target "c") world ≡ (ok tt, v))
import_decoded-returns_example =
    import_decoded-returns marshal options (with_target "c") acme world (named "acme" refl) refl
      (named "t1" refl) (named "m1" refl) filled (λ n. refl)
