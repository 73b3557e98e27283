-- ===== src/HttpSync/Polls.antt =====
-- Polls of a server whose tags and hashes tell bodies apart: what was sent last is what the server
-- had at the last poll that it answered.
use flagd.Prelude.{
  ℕ, leb, ltb, eqb, Bool, true, false, ◌&&◌, Option, none, some, List, [], ◌∷◌, String, ◌==◌, ◌≡◌,
  ◌≢◌, inl, inr, refl, ap, ◌∙◌, arith, eq_iff, Bool-cases, if◌then◌else◌,
}
use flagd.Convert.{convert_to_json}
use flagd.Evaluator.Config.{DataSync}
use flagd.HttpSync.{
  Response, Server, Libraries, Sync, Fetched, failed, fetched, bad_status, calling_endpoint,
  if_none_match, read_body, read_response, fetch_body, changed, poll,
}

-- What a poll meets: a server that has a body, none, or one that answers with another status.
pub data Visit : Type 0 where
  serves : String → Visit
  unreachable : Visit
  refuses : ℕ → Visit

module _ (tag : String → String) (content_type : String) where
  abbrev pub not_modified : Response
  not_modified = record { status_code = 304; e_tag = ""; content_type = ""; body = none }

  abbrev pub ok : String → Response
  ok body = record {
    status_code = 200;
    e_tag = tag body;
    content_type = content_type;
    body = some body;
  }

  -- A server answers 304 to the tag of the body that it has.
  unfoldable pub server_at : Visit → Server
  server_at (serves body) none = some (ok body)
  server_at (serves body) (some t) = some (if t == tag body then not_modified else ok body)
  server_at unreachable given = none
  server_at (refuses status) given =
      some (record { status_code = status; e_tag = ""; content_type = ""; body = none })

  module _ (l : Libraries) where
    -- The body converts to a text that is not empty, and a refusal is an error.
    abbrev pub IsPlain : String → Visit → Type 0
    IsPlain uri (serves body) =
        (text : String) × (convert_to_json l.formats body (l.get_file_extensions uri) content_type
          ≡ some text)
        × (text ≢ "")
    IsPlain uri unreachable = Unit
    IsPlain uri (refuses status) =
        (eqb status 304 ≡ false) × ((leb 200 status && ltb status 300) ≡ false)

    -- The source after a poll, with what was sent last.
    abbrev pub Watched : Type 0
    Watched = Sync × Option DataSync

    abbrev pub latest : Option DataSync → Option DataSync → Option DataSync
    latest none last = last
    latest (some payload) last = some payload

    -- Requests to a URL that is one, by what the server answers.
    module _ (hs : Sync) (server : Server) (fetch_all : Bool) (named : (hs.uri == "") ≡ false)
        (valid : l.is_url hs.uri ≡ true) where
      pub fetch_body-response :
          (resp : Response)
          → server (if_none_match hs fetch_all) ≡ some resp
          → fetch_body l hs server fetch_all ≡ read_response l hs resp
      unfolding fetch_body
      fetch_body-response resp h = ground (arith, named, valid, h)

      fetch_body_unanswered :
          server (if_none_match hs fetch_all) ≡ none
          → fetch_body l hs server fetch_all ≡ (hs, failed calling_endpoint)
      unfolding fetch_body
      fetch_body_unanswered h = ground (arith, named, valid, h)

    pub read_response-ok :
        (hs : Sync) (body text : String)
        → convert_to_json l.formats body (l.get_file_extensions hs.uri) content_type ≡ some text
        → text ≢ ""
        → read_response l hs (ok body) ≡ (
          record hs {
            e_tag = if tag body == "" then hs.e_tag else tag body;
            last_body_sha = l.generate_sha body;
          },
          fetched text false,
        )
    unfolding read_response read_body
    read_response-ok hs body text converts nonempty = elim (Bool-cases (tag body == "")) [
      | inl e ↦ ground (arith, e, converts, nonempty, eq_iff text "")
      | inr e ↦ ground (arith, e, converts, nonempty, eq_iff text "")
    ]

    unfoldable pub poll_at : Watched → Visit → Watched
    unfolding poll server_at
    poll_at (hs, last) visit =
        let (hs', sent) = poll l hs (server_at visit) in (hs', latest sent last)

    unfoldable pub polls : Watched → List Visit → Watched
    unfolding poll_at
    polls w [] = w
    polls w (visit ∷ rest) = polls (poll_at w visit) rest

    -- The last text sent is that of the body, and the source knows its hash and tag.
    pub record IsCurrent (uri body : String) (w : Watched) : Type 0 where
      pub at_uri : w.0.uri ≡ uri
      pub hashed : w.0.last_body_sha ≡ l.generate_sha body
      pub tagged : w.0.e_tag ≡ tag body
      pub text : String
      pub converted :
          convert_to_json l.formats body (l.get_file_extensions uri) content_type ≡ some text
      pub sent : w.1 ≡ some (record { flag_data = text; source = uri; selector = "" })

    -- What the next poll makes of a source, by what its request gives.
    pub poll-fetch_body :
        (hs hs' : Sync) (server : Server) (result : Fetched)
        → fetch_body l hs server false ≡ (hs', result)
        → poll l hs server ≡ (hs', changed l hs.last_body_sha hs' result)
    unfolding poll
    poll-fetch_body hs hs' server result h =
        ap (λ (r : Sync × Fetched). (r.0, changed l hs.last_body_sha r.0 r.1)) h

    pub poll_at-poll :
        (w : Watched) (visit : Visit) (hs' : Sync) (sent : Option DataSync)
        → poll l w.0 (server_at visit) ≡ (hs', sent)
        → poll_at w visit ≡ (hs', latest sent w.1)
    unfolding poll_at
    poll_at-poll w visit hs' sent h = ap (λ (r : Sync × Option DataSync). (r.0, latest r.1 w.1)) h

    module _ (uri : String) (named : uri ≢ "") (valid : l.is_url uri ≡ true) where
      pub is_named_at :
          (w : Watched) (body : String) → IsCurrent uri body w → (w.0.uri == "") ≡ false
      is_named_at w body h = ground (arith, named, h.at_uri, eq_iff w.0.uri "")

      pub is_valid_at :
          (w : Watched) (body : String) → IsCurrent uri body w → l.is_url w.0.uri ≡ true
      is_valid_at w body h = ap l.is_url h.at_uri ∙ valid

      -- Without an answer, or with an error, a poll changes nothing.
      pub poll_at-refuses :
          (w : Watched) (before : String) (status : ℕ)
          → IsPlain uri (refuses status)
          → IsCurrent uri before w
          → poll_at w (refuses status) ≡ w
      unfolding server_at read_response changed
      poll_at-refuses w before status (other, bad) h =
          let resp : Response = record {
            status_code = status;
            e_tag = "";
            content_type = "";
            body = none;
          } in
          let refused : read_response l w.0 resp ≡ (w.0, failed bad_status) =
            ground (arith, other, bad) in
          let answered : server_at (refuses status) (if_none_match w.0 false) ≡ some resp = refl in
          poll_at-poll w (refuses status) w.0 none (
            poll-fetch_body w.0 w.0 (server_at (refuses status)) (failed bad_status) (
              fetch_body-response w.0 (server_at (refuses status)) false (is_named_at w before h)
                (is_valid_at w before h) resp answered
              ∙ refused))

      pub poll_at_unreachable :
          (w : Watched) (before : String) → IsCurrent uri before w → poll_at w unreachable ≡ w
      unfolding server_at changed
      poll_at_unreachable w before h = poll_at-poll w unreachable w.0 none (
          poll-fetch_body w.0 w.0 (server_at unreachable) (failed calling_endpoint) (
            fetch_body_unanswered w.0 (server_at unreachable) false (is_named_at w before h)
              (is_valid_at w before h) refl))
