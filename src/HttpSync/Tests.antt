-- ===== src/HttpSync/Tests.antt =====
-- A server of JSON with tags, and a hash that is the body with a letter in front.
use Prim.Native.Char.{char}
use flagd.Prelude.{
  Bool, true, false, none, some, List, [], ◌∷◌, String, ◌≡◌, ◌≢◌, inr, refl, ap, arith, eq_iff,
}
use flagd.Convert.{convert_to_json}
use flagd.Evaluator.Config.{DataSync}
use flagd.HttpSync.{Server, Libraries, Sync, if_none_match, authorization, sync, poll, re_sync}
use flagd.HttpSync.Polls.{Visit, serves, unreachable, refuses, server_at, polls, IsCurrent}
use flagd.HttpSync.Current.{last_body, sync-polls-IsCurrent}
use flagd.HttpSync.Lost.{broken_off, poll_loses}

program : Unit {0}
unfolding sync poll re_sync server_at polls authorization convert_to_json if_none_match
program = tt

abbrev pub marked : String → String
marked body = String.◌∷◌ (char 116 tt) body

abbrev unmarked : String → String
unmarked String.[] = ""
unmarked (String.◌∷◌ c s) = s

pub marked_apart : (a b : String) → marked a ≡ marked b → a ≡ b
marked_apart a b e = ap unmarked e

abbrev starts : String → Bool
starts String.[] = false
starts (String.◌∷◌ c s) = true

pub marked_named : (a : String) → marked a ≢ ""
marked_named a e = absurd (ground (arith, ap starts e))

abbrev libraries : Libraries
libraries = record {
  formats = record { parse_media_type = λ m. some m; unmarshal_yaml = λ y. none };
  is_url = λ u. true;
  get_file_extensions = λ u. "";
  generate_sha = marked;
}

abbrev json : String
json = "application/json"

abbrev at_start : Sync
at_start = record {
  uri = "http://flags";
  last_body_sha = "";
  bearer_token = "b";
  auth_header = "";
  ready = false;
  e_tag = "";
}

abbrev holds : String → DataSync
holds text = record { flag_data = text; source = "http://flags"; selector = "" }

abbrev visits : List Visit
visits = serves "{}" ∷ unreachable ∷ serves "[]" ∷ refuses 500 ∷ []

-- An empty body that is not modified is sent again at each poll.
abbrev emptied : Sync
unfolding program
emptied = (sync libraries at_start (server_at marked json (serves ""))).0

runs :
    ((polls marked json libraries
        (sync libraries at_start (server_at marked json (serves "{}")))
        visits).1
      ≡ some (holds "[]"))
    × (authorization at_start ≡ some "Bearer b")
    × ((sync libraries at_start (server_at marked json (refuses 404))).1 ≡ none)
    × ((poll libraries emptied (server_at marked json (serves ""))).1 ≡ some (holds ""))
    × ((re_sync libraries emptied (server_at marked json (serves "{}"))).1 ≡ some (holds "{}"))
    × (convert_to_json libraries.formats "{}" ".JSON" "" ≡ some "{}")
    × (convert_to_json libraries.formats "{}" ".toml" "" ≡ none)
    × (convert_to_json libraries.formats "" ".yaml" "" ≡ some "")
unfolding program
runs = (refl, refl, refl, refl, refl, refl, refl, refl)

json_named : ◌≢◌ {A = String} "{}" ""
json_named = ground (arith, eq_iff "{}" "")

sync-polls-IsCurrent_example :
    IsCurrent marked json libraries "http://flags" (last_body "{}" visits) (
      polls marked json libraries
        (sync libraries at_start (server_at marked json (serves "{}")))
        visits)
unfolding program
sync-polls-IsCurrent_example =
    sync-polls-IsCurrent marked json libraries "http://flags"
      (ground (arith, eq_iff "http://flags" "")) refl marked_apart marked_named
      (λ a b e named. marked_apart a b e) (inr marked_named) at_start "{}" visits refl refl
      (
        ("{}", refl, json_named),
        (
          ("{}", refl, json_named),
          (tt, (("[]", refl, ground (arith, eq_iff "[]" "")), ((refl, refl), tt))),
        ),
      )

abbrev running : Sync
unfolding program
running = (sync libraries at_start (server_at marked json (serves "{}"))).0

abbrev breaks : Server
breaks given = some (broken_off marked json "[]")

poll_loses_example :
    ((poll libraries running breaks).1 ≡ none)
    × (poll libraries (poll libraries running breaks).0 (server_at marked json (serves "[]"))
        ≡ ((poll libraries running breaks).0, none))
unfolding program
poll_loses_example =
    poll_loses marked json libraries running breaks "[]" (ground (arith, eq_iff "http://flags" ""))
      refl (marked_named "{}") (marked_named "[]") refl
