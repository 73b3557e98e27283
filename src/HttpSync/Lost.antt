-- ===== src/HttpSync/Lost.antt =====
-- What a poll loses when the body of a response cannot be read: the tag is kept before the body is.
use flagd.Prelude.{
  true, false, Option, none, some, String, ◌==◌, ◌≡◌, ◌≢◌, ap, ◌∙◌, arith, eq_iff, eq_refl,
}
use flagd.Evaluator.Config.{DataSync}
use flagd.HttpSync.{
  Response, Server, Libraries, Sync, failed, fetched, reading, if_none_match, read_body,
  read_response, changed, poll,
}
use flagd.HttpSync.Polls.{serves, not_modified, server_at, fetch_body-response, poll-fetch_body}

-- A response that is good but breaks off.
abbrev pub broken_off : (tag : String → String) (content_type body : String) → Response
broken_off tag content_type body = record {
  status_code = 200;
  e_tag = tag body;
  content_type = content_type;
  body = none;
}

module _ (tag : String → String) (content_type : String) (l : Libraries) (hs : Sync)
    (server : Server) (body : String) where
  abbrev with_tag : Sync
  with_tag = record hs { e_tag = tag body }

  broken-poll :
      (hs.uri == "") ≡ false
      → l.is_url hs.uri ≡ true
      → (tag body == "") ≡ false
      → server (if_none_match hs false) ≡ some (broken_off tag content_type body)
      → poll l hs server ≡ (with_tag, none)
  unfolding read_response read_body changed
  broken-poll named valid tagged answered =
      let kept : read_response l hs (broken_off tag content_type body)
          ≡ (with_tag, failed reading) =
        ground (arith, tagged) in
      poll-fetch_body tag content_type l hs with_tag server (failed reading) (
        fetch_body-response tag content_type l hs server false named valid
          (broken_off tag content_type body) answered
        ∙ kept)

  -- A source has a valid URL and has sent something before. At a poll, the server has a body with a
  -- tag, but its response breaks off. Then this poll sends nothing, and, as long as the server has that body, so
  -- does each later one, which leaves the source as it is: the body is never sent.
  pub poll_loses :
      hs.uri ≢ ""
      → l.is_url hs.uri ≡ true
      → hs.last_body_sha ≢ ""
      → tag body ≢ ""
      → server (if_none_match hs false) ≡ some (broken_off tag content_type body)
      → ((poll l hs server).1 ≡ none)
        × (poll l (poll l hs server).0 (server_at tag content_type (serves body))
            ≡ ((poll l hs server).0, none))
  unfolding server_at if_none_match changed read_response
  poll_loses named valid before tagged answered =
      let first =
        broken-poll (ground (arith, named, eq_iff hs.uri "")) valid
          (ground (arith, tagged, eq_iff (tag body) "")) answered in
      let again : server_at tag content_type (serves body) (if_none_match with_tag false)
          ≡ some (not_modified tag content_type) =
        ground (arith, tagged, eq_iff (tag body) "", eq_refl (tag body)) in
      let quiet : changed l hs.last_body_sha with_tag (fetched "" true) ≡ none =
        ground (arith, before, eq_iff hs.last_body_sha "", eq_refl hs.last_body_sha) in
      let next =
        poll-fetch_body tag content_type l with_tag with_tag
          (server_at tag content_type (serves body)) (fetched "" true)
          (fetch_body-response tag content_type l with_tag
            (server_at tag content_type (serves body)) false
            (ground (arith, named, eq_iff hs.uri "")) valid (not_modified tag content_type) again)
        ∙ ap (λ (o : Option DataSync). (with_tag, o)) quiet in
      (ap (λ (r : Sync × Option DataSync). r.1) first, rw first next)
