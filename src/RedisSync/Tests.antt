-- ===== src/RedisSync/Tests.antt =====
-- A key of a local Redis, and a hash that is the text with a letter in front.
use flagd.Prelude.{
  true, false, none, some, List, [], ◌∷◌, String, ◌==◌, ◌≡◌, inl, inr, refl, if◌then◌else◌,
}
use flagd.Model.{pos}
use flagd.Convert.{convert_to_json}
use flagd.Evaluator.Config.{DataSync}
use flagd.RedisSync.{
  Url, Libraries, Sync, no_key, unsupported_scheme, Options, new_redis_sync,
  new_redis_sync_from_config, sync, poll, re_sync,
}
use flagd.RedisSync.Changes.{
  document, plain, missing, down, client_of, Refresh, polled, resynced, run, run-new_texts,
}
use flagd.HttpSync.Tests.{marked, marked_apart, marked_named}

program : Unit {0}
unfolding run sync poll re_sync new_redis_sync new_redis_sync_from_config convert_to_json
program = tt

abbrev url : Url
url = record {
  scheme = "redis";
  host = "db:6379";
  path = "/2";
  password = "";
  query = ("key", "flags") ∷ [];
}

abbrev libraries : Libraries
libraries = record {
  formats = record { parse_media_type = λ m. some m; unmarshal_yaml = λ y. none };
  parse = λ uri.
      if uri == "http://db"
      then some (record url { scheme = "http" })
      else if uri == "redis://db"
      then some (record url { query = [] })
      else some url;
  trim_slash = λ path. "2";
  atoi = λ digits. some (pos 2);
  before_colon = λ host. "db";
  generate_sha = marked;
}

abbrev options : Options
options = record { addr = "db:6379"; password = ""; db = pos 2; tls_config = none }

abbrev at_start : Sync
at_start = record {
  uri = "redis://db/2?key=flags";
  client = options;
  key = "flags";
  database = pos 2;
  password = "";
  tls = false;
  interval = 30;
  last_sha = "";
  ready = false;
}

abbrev holds : String → DataSync
holds text = record { flag_data = text; source = "redis://db/2?key=flags"; selector = "" }

abbrev refreshes : List Refresh
refreshes =
    polled (document "{}")
    ∷ polled (plain "{}")
    ∷ polled missing
    ∷ resynced (plain "{}")
    ∷ polled down
    ∷ polled (plain "[]")
    ∷ []

-- A source that is asked for TLS by its configuration has a client without it.
runs :
    (new_redis_sync libraries "redis://db/2?key=flags" ≡ inr at_start)
    × (new_redis_sync libraries "http://db" ≡ inl unsupported_scheme)
    × (new_redis_sync libraries "redis://db" ≡ inl no_key)
    × (new_redis_sync_from_config libraries "redis://db/2?key=flags" 5 true
        ≡ inr (record at_start { interval = 5; tls = true }))
    × ((sync libraries at_start (client_of (plain "{}"))).1 ≡ some (holds "{}"))
    × ((sync libraries at_start (client_of missing)).1 ≡ none)
    × ((sync libraries at_start (client_of missing)).0.ready ≡ true)
    × ((sync libraries at_start (client_of down)).0.ready ≡ false)
unfolding program
runs = (refl, refl, refl, refl, refl, refl, refl, refl)

run-new_texts_example : run libraries at_start refreshes ≡ holds "{}" ∷ holds "{}" ∷ holds "[]" ∷ []
unfolding program
run-new_texts_example = run-new_texts libraries marked_apart marked_named at_start "" refreshes refl
