-- ===== src/HttpSync/Current.antt =====
-- A server whose tags and hashes tell bodies apart is followed poll by poll.
use flagd.Prelude.{
  Bool, true, false, some, List, [], ◌∷◌, String, ◌==◌, ◌≡◌, ◌≢◌, ◌⊎◌, inl, inr, refl, sym, ap,
  subst, ◌∙◌, arith, eq_iff, if◌then◌else◌,
}
use flagd.Prelude.Tests.{All}
use flagd.HttpSync.{Server, Libraries, Sync, fetched, if_none_match, fetch_body, sync}
use flagd.HttpSync.Polls.{
  Visit, serves, unreachable, refuses, not_modified, ok, server_at, IsPlain, Watched,
  fetch_body-response, read_response-ok, poll_at, polls, IsCurrent, poll_at-refuses,
  poll_at_unreachable,
}
use flagd.HttpSync.Answered.{answers, unchanged, renewed}

-- The body that the server had when it last answered.
abbrev pub body_after : String → Visit → String
body_after before (serves body) = body
body_after before unreachable = before
body_after before (refuses status) = before

abbrev pub last_body : String → List Visit → String
last_body before [] = before
last_body before (visit ∷ rest) = last_body (body_after before visit) rest

module _ (tag : String → String) (content_type : String) (l : Libraries) (uri : String)
    (named : uri ≢ "") (valid : l.is_url uri ≡ true)
    (hashes_apart : (a b : String) → l.generate_sha a ≡ l.generate_sha b → a ≡ b)
    (hashes_named : (a : String) → l.generate_sha a ≢ "")
    (tags_apart : (a b : String) → tag a ≡ tag b → tag a ≢ "" → a ≡ b)
    (tags_uniform : ((a : String) → tag a ≡ "") ⊎ ((a : String) → tag a ≢ "")) where
  poll_at-IsCurrent :
      (w : Watched tag content_type l) (before : String) (visit : Visit)
      → IsPlain tag content_type l uri visit
      → IsCurrent tag content_type l uri before w
      → IsCurrent tag content_type l uri
          (body_after before visit)
          (poll_at tag content_type l w visit)
  poll_at-IsCurrent w before (serves body) plain h =
      elim (answers tag content_type l uri named valid hashes_apart hashes_named tags_apart
        tags_uniform w.0 before body h.tagged) [
          | inl (answered, same) ↦
              subst
                (λ b. IsCurrent tag content_type l uri b (poll_at tag content_type l w (serves b)))
                same
                (subst
                  (λ (v : Watched tag content_type l). IsCurrent tag content_type l uri before v)
                  (sym (
                    unchanged tag content_type l uri named valid hashes_apart hashes_named
                      tags_apart tags_uniform w before h
                      (subst
                        (λ b.
                          server_at tag content_type (serves b) (if_none_match w.0 false)
                          ≡ some (not_modified tag content_type))
                        (sym same) answered)))
                  h)
          | inr answered ↦
              renewed tag content_type l uri named valid hashes_apart hashes_named tags_apart
                tags_uniform w before body plain h answered
        ]
  poll_at-IsCurrent w before unreachable plain h =
      rw (poll_at_unreachable tag content_type l uri named valid w before h) h
  poll_at-IsCurrent w before (refuses status) plain h =
      rw (poll_at-refuses tag content_type l uri named valid w before status plain h) h

  polls-IsCurrent :
      (w : Watched tag content_type l) (before : String) (visits : List Visit)
      → All (IsPlain tag content_type l uri) visits
      → IsCurrent tag content_type l uri before w
      → IsCurrent tag content_type l uri
          (last_body before visits)
          (polls tag content_type l w visits)
  unfolding polls
  polls-IsCurrent w before [] plain h = h
  polls-IsCurrent w before (visit ∷ rest) (first, later) h =
      polls-IsCurrent (poll_at tag content_type l w visit) (body_after before visit) rest later
        (poll_at-IsCurrent w before visit first h)

  sync-fetch_body :
      (hs hs' : Sync) (server : Server) (text : String) (no_change : Bool)
      → fetch_body l hs server true ≡ (hs', fetched text no_change)
      → sync l hs server ≡ (
        record hs' { ready = true },
        some (record { flag_data = text; source = hs.uri; selector = "" }),
      )
  unfolding sync
  sync-fetch_body hs hs' server text no_change h = ground (arith, h)

  first_answer :
      (hs : Sync) (body : String)
      → server_at tag content_type (serves body) (if_none_match hs true)
        ≡ some (ok tag content_type body)
  unfolding server_at if_none_match
  first_answer hs body = ground arith

  sync-IsCurrent :
      (hs : Sync) (body : String)
      → hs.uri ≡ uri
      → hs.e_tag ≡ ""
      → IsPlain tag content_type l uri (serves body)
      → IsCurrent tag content_type l uri body (sync l hs (server_at tag content_type (serves body)))
  sync-IsCurrent hs body here fresh (text, converts, nonempty) =
      let server = server_at tag content_type (serves body) in
      let hs' : Sync = record hs {
        e_tag = if tag body == "" then hs.e_tag else tag body;
        last_body_sha = l.generate_sha body;
      } in
      let started = sync-fetch_body hs hs' server text false (
        fetch_body-response tag content_type l hs server true
          (ground (arith, named, here, eq_iff hs.uri "")) (ap l.is_url here ∙ valid)
          (ok tag content_type body) (first_answer hs body)
        ∙ read_response-ok tag content_type l hs body text (rw here converts) nonempty) in
      subst (λ (v : Watched tag content_type l). IsCurrent tag content_type l uri body v)
        (sym started)
        (record {
          at_uri = here;
          hashed = refl;
          tagged = ground (arith, fresh, eq_iff (tag body) "");
          text = text;
          converted = converts;
          sent = rw here refl;
        })

  -- The server gives a tag always or never, its tags and the hashes tell bodies apart, and each body
  -- converts to a text that is not empty. A source that has kept no tag starts with a body that it can
  -- read, and then polls. What it sent last is the text of the body that the server had at the last
  -- poll that it answered with a body or with 304, however often the body changes, the server cannot
  -- be reached or refuses by its status. A response that breaks off in its body is not among the
  -- visits.
  pub sync-polls-IsCurrent :
      (hs : Sync) (body : String) (visits : List Visit)
      → hs.uri ≡ uri
      → hs.e_tag ≡ ""
      → All (IsPlain tag content_type l uri) (serves body ∷ visits)
      → IsCurrent tag content_type l uri
          (last_body body visits)
          (polls tag content_type l (sync l hs (server_at tag content_type (serves body))) visits)
  sync-polls-IsCurrent hs body visits here fresh (first, later) =
      polls-IsCurrent (sync l hs (server_at tag content_type (serves body))) body visits later
        (sync-IsCurrent hs body here fresh first)
