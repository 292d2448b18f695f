-- ===== src/Http.antt =====
-- internal/api/httpapi/respond/json.go: the status codes and bodies of the answers.
pub mod ModelVersions
pub mod Graph
pub mod Contracts
pub mod Properties
pub mod Health
pub mod Guards
pub mod Reading
pub mod Writing
use contrato_core.Base.{ℕ, String, Bool, Option, none, some, ℤ, ◌==◌, string_eq, if◌then◌else◌}
use contrato_core.Storage.{
  error_text, Err, unsupported, not_found, conflict, message, refused, Result, ok, err, PutOptions,
}
use contrato_core.Storage.Server.{World}
use contrato_core.Storage.Exec.{Exec}

-- The JSON value that is sent: a record, a list of them, or `{"error": …}`.
pub data Body (A : Type 0) : Type 0 where
  payload : A → Body A
  problem : String → Body A

pub record Response (A : Type 0) : Type 0 where
  pub status : ℕ
  pub body : Body A

module _ {A : Type 0} where
  abbrev pub json : ℕ → Body A → Response A
  json status v = record { status = status; body = v }

  abbrev pub respond_ok : A → Response A
  respond_ok v = json 200 (payload v)

  abbrev pub respond_created : A → Response A
  respond_created v = json 201 (payload v)

  abbrev pub respond_error : ℕ → String → Response A
  respond_error status msg = json status (problem msg)

  abbrev pub bad_request : String → Response A
  bad_request msg = respond_error 400 msg

  abbrev pub respond_not_found : Response A
  respond_not_found = respond_error 404 "not found"

  abbrev pub internal_error : Err → Response A
  internal_error e = respond_error 500 (error_text e)

  unfoldable pub storage_error : Err → Response A
  storage_error not_found = respond_not_found
  storage_error conflict = respond_error 409 "version conflict"
  storage_error e = internal_error e

-- A handler, once the request has been read: it answers, and leaves a world.
abbrev pub Handler : Type 0 → Type 0
Handler A = World → Response A × World

module _ {A B : Type 0} where
  abbrev pub answer_with :
      (Err → Response B) → (A → Response B) → Result A × World → Response B × World
  answer_with failed good (ok a, w) = (good a, w)
  answer_with failed good (err e, w) = (failed e, w)

  -- `if err != nil { respond.StorageError(w, err); return }` and the answer otherwise.
  unfoldable pub reply : (A → Response B) → Exec A → Handler B
  unfolding storage_error
  reply good m w = answer_with storage_error good (m w)

  -- The same with `respond.InternalError`.
  unfoldable pub reply_internal : (A → Response B) → Exec A → Handler B
  reply_internal good m w = answer_with internal_error good (m w)

-- A request that is answered without any statement.
module _ {A : Type 0} where
  unfoldable pub refuse_if : Bool → String → Handler A → Handler A
  refuse_if bad msg h w = if bad then (bad_request msg, w) else h w

-- `json.NewDecoder(r.Body).Decode(…)`: the decoded value, or the text of its error.
pub data Decoded (A : Type 0) : Type 0 where
  decoded : A → Decoded A
  malformed : String → Decoded A

module _ {A B : Type 0} where
  unfoldable pub with_body : Decoded A → (A → Handler B) → Handler B
  with_body (decoded a) h w = h a w
  with_body (malformed msg) h w = (bad_request msg, w)

-- The query parameter `expected_version`, with what `json.Unmarshal` into an `int` makes of it.
unfoldable pub put_options : (String → Option ℤ) → String → PutOptions
put_options parse_int v = record { expected_version = if v == "" then none else parse_int v }
