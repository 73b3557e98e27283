-- ===== src/RedisSync.antt =====
-- core/pkg/sync/redis/redis_sync.go: a source that polls a key of Redis. The cron calls `poll`; what
-- Redis replies at a time is an argument.
pub mod Changes
pub mod Tests
use flagd.Prelude.{
  ℕ, ltb, Bool, true, false, not, ◌&&◌, ◌||◌, Option, none, some, String, ◌==◌, ◌⊎◌, inl, inr,
  if◌then◌else◌,
}
use flagd.Prelude.Dict.{Dict, lookup}
use flagd.Model.{ℤ, pos}
use flagd.Convert.{Formats, convert_to_json}
use flagd.Evaluator.Config.{DataSync}

-- What is read of the result of `url.Parse`; `password` is that of the user info, and empty if there
-- is none, and `query` has the first value of a parameter.
pub record Url : Type 0 where
  pub scheme : String
  pub host : String
  pub path : String
  pub password : String
  pub query : Dict String

-- `url.Parse`, `strings.TrimPrefix` with a slash, `strconv.Atoi`, the part of a host before its colon
-- and the hash; `none` is an error.
pub record Libraries : Type 0 where
  pub formats : Formats
  pub parse : String → Option Url
  pub trim_slash : String → String
  pub atoi : String → Option ℤ
  pub before_colon : String → String
  pub generate_sha : String → String

-- `redis.Options`; the configuration of TLS has a server's name.
pub record Options : Type 0 where
  pub addr : String
  pub password : String
  pub db : ℤ
  pub tls_config : Option String

pub record Sync : Type 0 where
  pub uri : String
  pub client : Options
  pub key : String
  pub database : ℤ
  pub password : String
  pub tls : Bool
  pub interval : ℕ
  pub last_sha : String
  pub ready : Bool

pub data NewError : Type 0 where
  invalid_uri unsupported_scheme no_key : NewError

abbrev or_empty : Option String → String
or_empty none = ""
or_empty (some text) = text

module _ (l : Libraries) where
  -- A path that is no number is the database 0.
  unfoldable pub database_of : String → ℤ
  database_of path =
      if not (path == "") && not (path == "/")
      then elim (l.atoi (l.trim_slash path)) [ none ↦ pos 0 | some db ↦ db ]
      else pos 0

  unfoldable pub new_redis_sync : String → NewError ⊎ Sync
  unfolding database_of lookup
  new_redis_sync uri = elim (l.parse uri) [
    | none ↦ inl invalid_uri
    | some parsed_uri ↦
        let host = if parsed_uri.host == "" then "localhost:6379" else parsed_uri.host in
        let key = or_empty (lookup "key" parsed_uri.query) in
        let use_tls = parsed_uri.scheme == "rediss" in
        if not (parsed_uri.scheme == "redis") && not (parsed_uri.scheme == "rediss")
        then inl unsupported_scheme
        else if key == ""
        then inl no_key
        else inr (record {
          uri = uri;
          client = record {
            addr = host;
            password = parsed_uri.password;
            db = database_of parsed_uri.path;
            tls_config = if use_tls then some (l.before_colon host) else none;
          };
          key = key;
          database = database_of parsed_uri.path;
          password = parsed_uri.password;
          tls = use_tls;
          interval = 30;
          last_sha = "";
          ready = false;
        })
  ]

  -- With the fields `Interval` and `TLS` of the configuration.
  unfoldable pub new_redis_sync_from_config :
      (uri : String) (interval : ℕ) (tls : Bool) → NewError ⊎ Sync
  unfolding new_redis_sync
  new_redis_sync_from_config uri interval tls = elim (new_redis_sync uri) [
    | inl err ↦ inl err
    | inr rs ↦ inr (record rs {
      interval = if ltb 0 interval then interval else rs.interval;
      tls = if tls then true else rs.tls;
    })
  ]

-- A reply: a text, `redis.Nil`, or another error.
pub data Reply : Type 0 where
  text : String → Reply
  nil_reply error_reply : Reply

-- The replies to `JSON.GET` and to `GET` of the key.
pub record RedisClient : Type 0 where
  pub json_get : Reply
  pub get : Reply

module _ (l : Libraries) where
  -- A text that was found; `none` is an error.
  unfoldable pub take_in : Sync → String → Sync × Option String
  unfolding convert_to_json
  take_in rs json_string =
      if json_string == ""
      then (rs, some "")
      else elim (convert_to_json l.formats json_string ".json" "application/json") [
        | none ↦ (rs, none)
        | some converted_json ↦ (
          if converted_json == ""
              then rs
              else record rs { last_sha = l.generate_sha converted_json },
          some converted_json,
        )
      ]

  unfoldable pub fetch_string : Sync → Reply → Sync × Option String
  unfolding take_in
  fetch_string rs (text json_string) = take_in rs json_string
  fetch_string rs nil_reply = (rs, some "")
  fetch_string rs error_reply = (rs, none)

  unfoldable pub fetch_data : Sync → RedisClient → Sync × Option String
  unfolding take_in fetch_string
  fetch_data rs client = elim client.json_get [
    | text json_string ↦ take_in rs json_string
    | nil_reply ↦ fetch_string rs client.get
    | error_reply ↦ fetch_string rs client.get
  ]

  abbrev pub payload : Sync → String → DataSync
  payload rs data_text = record { flag_data = data_text; source = rs.uri; selector = "" }

  -- What is sent for a fetch, besides an error.
  unfoldable pub unless_empty : Sync → Option String → Option DataSync
  unless_empty rs none = none
  unless_empty rs (some data_text) = if data_text == "" then none else some (payload rs data_text)

  unfoldable pub re_sync : Sync → RedisClient → Sync × Option DataSync
  unfolding fetch_data unless_empty
  re_sync rs client = let (rs', result) = fetch_data rs client in (rs', unless_empty rs' result)

  -- `Sync` up to its wait for the end; an error ends it, and then it is not ready.
  unfoldable pub sync : Sync → RedisClient → Sync × Option DataSync
  unfolding fetch_data unless_empty
  sync rs client =
      let (rs', result) = fetch_data rs client in
      elim result [
        | none ↦ (rs', none)
        | some data_text ↦ (record rs' { ready = true }, unless_empty rs' (some data_text))
      ]

  unfoldable pub changed : (previous_sha : String) → Sync → Option String → Option DataSync
  changed previous_sha rs none = none
  changed previous_sha rs (some data_text) =
      if data_text == ""
      then none
      else if previous_sha == ""
      then some (payload rs data_text)
      else if not (previous_sha == rs.last_sha)
      then some (payload rs data_text)
      else none

  -- The function that the cron calls.
  unfoldable pub poll : Sync → RedisClient → Sync × Option DataSync
  unfolding fetch_data changed
  poll rs client = let (rs', result) = fetch_data rs client in (rs', changed rs.last_sha rs' result)
