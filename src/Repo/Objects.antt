-- ===== src/Repo/Objects.antt =====
-- internal/storage/sqlstore/objects_repo.go, and `LatestVersion` of versioning.go. The SHA-256 sum
-- in hexadecimal is the parameter `etag_of`.
pub mod Stored
use contrato_core.Base.{
  ℕ, suc, ◌+◌, ◌≤◌, ◌<◌, ◌≡◌, ◌≢◌, refl, String, Bool, true, false, Option, none, some, List, [],
  ◌∷◌, ◌++◌, ◌&&◌, ◌||◌, not, any, select, take, arith, ltb, leb, ℤ, pos, negsuc, if◌then◌else◌, Eq,
  ◌==◌, nat_eq, string_eq, int_eq, pair_eq, find, length, map,
}
use contrato_core.Table.History.{latest, without}
use contrato_core.Storage.{message, not_found, conflict, Object, ObjectPutOptions, ok}
use contrato_core.Storage.Server.{Db, World, Server, ObjectRow, has_tenant}
use contrato_core.Repo.Versioned.{Versioned, max_version, check_expected, insert_row}
use contrato_core.Repo.Contracts.{nullable_string, or_empty}
use contrato_core.Storage.Exec.{
  Exec, pure, fail, gets, statement, query_row, reject_if, ◌>>=◌, ◌>>◌,
}

abbrev pub object_key : ObjectRow → String × String
object_key r = (r.tenant_id, r.node_id)

abbrev pub object_version : ObjectRow → ℕ
object_version r = r.version

abbrev has_content : Option String → Option String → Bool
has_content none none = false
has_content _ _ = true

-- `objects`: the primary key is the id alone, and `chk_objects_content` wants bytes or a URL.
abbrev pub objects : Versioned ObjectRow (String × String)
objects = record {
  key = object_key;
  version = object_version;
  rows = λ d. d.objects;
  put = λ rs d. record d { objects = rs };
  admits = λ d r.
      has_tenant d r.tenant_id
      && (has_content r.bytes r.exturl && not (any (λ s. s.id == r.id) d.objects));
}

abbrev pub or_zero : Option ℕ → ℕ
or_zero none = 0
or_zero (some t) = t

unfoldable pub scan_object : ObjectRow → Object
scan_object r = record {
  tenant_id = r.tenant_id;
  id = r.id;
  node_id = r.node_id;
  bytes = or_empty r.bytes;
  ext_url = or_empty r.exturl;
  etag = r.etag;
  version = r.version;
  expires_at = or_zero r.expires_at;
  created_at = r.created_at;
  updated_at = r.updated_at;
}

-- `!out.ExpiresAt.IsZero() && time.Now().After(out.ExpiresAt)`
abbrev pub is_expired : ℕ → Object → Bool
is_expired now o = not (o.expires_at == 0) && ltb o.expires_at now

unfoldable pub get_by_node_id : String → String → Exec Object
unfolding scan_object
get_by_node_id tenant_id node_id = do
  r ← query_row λ w. latest object_key object_version (tenant_id, node_id) w.db.objects
  now ← gets λ w. w.server.clock w.ran
  if is_expired now (scan_object r) then fail not_found else pure (scan_object r)

-- `sql.NullTime{Time: time.Now().Add(opts.TTL)}` if the TTL is positive.
abbrev pub expiry : ℕ → ℤ → Option ℕ
expiry now (pos n) = if ltb 0 n then some (now + n) else none
expiry now (negsuc n) = none

-- The bytes are hashed, or the URL where there are none.
abbrev pub payload : Object → String
payload o = if o.bytes == "" then o.ext_url else o.bytes

module _ (etag_of : String → String) where
  pub next_object : Object → Option ℕ → World → ObjectRow
  next_object o expires_at w = record {
    tenant_id = o.tenant_id;
    id = w.server.uuid w.ran;
    node_id = o.node_id;
    bytes = nullable_string o.bytes;
    exturl = nullable_string o.ext_url;
    etag = etag_of (payload o);
    version = max_version objects (o.tenant_id, o.node_id) w + 1;
    expires_at = expires_at;
    created_at = w.server.now w.ran;
    updated_at = w.server.now w.ran;
  }

  unfoldable pub append_object : Object → ObjectPutOptions → Exec ObjectRow
  unfolding next_object nullable_string
  append_object o opts = do
    reject_if (o.tenant_id == "" || o.node_id == "") (message "tenant_id and node_id are required")
    reject_if (o.bytes == "" && o.ext_url == "") (message "either bytes or exturl must be provided")
    check_expected objects opts.expected_version (o.tenant_id, o.node_id)
    reject_if (not (opts.if_match_etag == "") && not (opts.if_match_etag == etag_of (payload o)))
        conflict
    now ← gets λ w. w.server.clock w.ran
    insert_row objects (next_object o (expiry now opts.ttl))

  unfoldable pub put_object : Object → ObjectPutOptions → Exec Object
  unfolding append_object scan_object
  put_object o opts = do r ← append_object o opts; pure (scan_object r)

unfoldable pub delete_by_node_id : String → String → Exec (Unit {0})
delete_by_node_id tenant_id node_id = statement λ w. ok (
  tt,
  record w.db { objects = without object_key object_version (tenant_id, node_id) w.db.objects },
)
