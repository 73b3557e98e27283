-- ===== src/HttpSync.antt =====
-- core/pkg/sync/http/http_sync.go: a source that polls a URL. The cron calls `poll`; a request that
-- is made at a time is an argument, what the server answers to it.
pub mod Polls
pub mod Answered
pub mod Current
pub mod Lost
pub mod Tests
use Prim.Native.String.{◌++◌ as ◌<>◌}
use flagd.Prelude.{
  ℕ, ltb, leb, eqb, Bool, true, false, not, ◌&&◌, ◌||◌, Option, none, some, List, [], ◌∷◌, String,
  ◌==◌, if◌then◌else◌,
}
use flagd.Convert.{Formats, convert_to_json}
use flagd.Evaluator.Config.{DataSync}

-- What the code reads of a response; a body that cannot be read is `none`.
pub record Response : Type 0 where
  pub status_code : ℕ
  pub e_tag : String
  pub content_type : String
  pub body : Option String

-- What the server answers to a request with an `If-None-Match`, or without one; `none` is an error
-- of the connection.
abbrev pub Server : Type 0
Server = Option String → Option Response

-- `http.NewRequestWithContext` on the URL, the extension of the URL's path and the hash of a body.
pub record Libraries : Type 0 where
  pub formats : Formats
  pub is_url : String → Bool
  pub get_file_extensions : String → String
  pub generate_sha : String → String

pub record Sync : Type 0 where
  pub uri : String
  pub last_body_sha : String
  pub bearer_token : String
  pub auth_header : String
  pub ready : Bool
  pub e_tag : String

-- The header `Authorization`, if it is set.
unfoldable pub authorization : Sync → Option String
authorization hs =
    if not (hs.auth_header == "")
    then some hs.auth_header
    else if not (hs.bearer_token == "")
    then some ("Bearer " <> hs.bearer_token)
    else none

unfoldable pub if_none_match : Sync → Bool → Option String
if_none_match hs fetch_all = if not (hs.e_tag == "") && not fetch_all then some hs.e_tag else none

pub data FetchError : Type 0 where
  no_url bad_url calling_endpoint bad_status reading converting : FetchError

-- What `fetchBody` returns.
pub data Fetched : Type 0 where
  failed : FetchError → Fetched
  fetched : (json : String) (no_change : Bool) → Fetched

module _ (l : Libraries) where
  -- The body is read and converted; its hash is kept unless the result is empty.
  unfoldable pub read_body : Sync → Response → Sync × Fetched
  unfolding convert_to_json
  read_body hs resp = elim resp.body [
    | none ↦ (hs, failed reading)
    | some body ↦
        elim (convert_to_json l.formats body (l.get_file_extensions hs.uri) resp.content_type) [
          | none ↦ (hs, failed converting)
          | some json ↦ (
            if json == "" then hs else record hs { last_body_sha = l.generate_sha body },
            fetched json false,
          )
        ]
  ]

  -- The response's tag is kept before its body is read.
  unfoldable pub read_response : Sync → Response → Sync × Fetched
  unfolding read_body
  read_response hs resp =
      if eqb resp.status_code 304
      then (hs, fetched "" true)
      else if not (leb 200 resp.status_code && ltb resp.status_code 300)
      then (hs, failed bad_status)
      else read_body (if resp.e_tag == "" then hs else record hs { e_tag = resp.e_tag }) resp

  unfoldable pub fetch_body : Sync → Server → Bool → Sync × Fetched
  unfolding read_response if_none_match
  fetch_body hs server fetch_all =
      if hs.uri == ""
      then (hs, failed no_url)
      else if not (l.is_url hs.uri)
      then (hs, failed bad_url)
      else elim (server (if_none_match hs fetch_all)) [
        | none ↦ (hs, failed calling_endpoint)
        | some resp ↦ read_response hs resp
      ]

  abbrev payload : Sync → String → DataSync
  payload hs text = record { flag_data = text; source = hs.uri; selector = "" }

  -- What is sent on the channel of payloads, or the error.
  unfoldable pub re_sync : Sync → Server → Sync × Option DataSync
  unfolding fetch_body
  re_sync hs server =
      let (hs', result) = fetch_body hs server true in
      elim result [
        | failed err ↦ (hs', none)
        | fetched msg no_change ↦ (hs', some (payload hs msg))
      ]

  -- `Sync` up to its wait for the end; an error ends it.
  unfoldable pub sync : Sync → Server → Sync × Option DataSync
  unfolding fetch_body
  sync hs server =
      let (hs', result) = fetch_body hs server true in
      elim result [
        | failed err ↦ (hs', none)
        | fetched fetch no_change ↦ (record hs' { ready = true }, some (payload hs fetch))
      ]

  -- What a poll sends: something when there was nothing before or the hash is another one.
  unfoldable pub changed : (previous_body_sha : String) → Sync → Fetched → Option DataSync
  changed previous_body_sha hs (failed err) = none
  changed previous_body_sha hs (fetched body no_change) =
      if body == "" && not no_change
      then none
      else if previous_body_sha == ""
      then some (payload hs body)
      else if not (previous_body_sha == hs.last_body_sha)
      then some (payload hs body)
      else none

  -- The function that the cron calls.
  unfoldable pub poll : Sync → Server → Sync × Option DataSync
  unfolding fetch_body changed
  poll hs server =
      let (hs', result) = fetch_body hs server false in (hs', changed hs.last_body_sha hs' result)
