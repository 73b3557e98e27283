-- ===== src/HttpSync/Answered.antt =====
-- What a poll makes of the answers of a server whose tags and hashes tell bodies apart.
use flagd.Prelude.{
  true, false, Option, none, some, String, ◌==◌, ◌≡◌, ◌≢◌, ◌⊎◌, inl, inr, refl, sym, ap, subst, ◌∙◌,
  arith, eq_iff, eq_refl, Bool-cases, if◌then◌else◌,
}
use flagd.Convert.{convert_to_json}
use flagd.Evaluator.Config.{DataSync}
use flagd.HttpSync.{Libraries, Sync, fetched, if_none_match, read_response, changed}
use flagd.HttpSync.Polls.{
  serves, not_modified, ok, server_at, IsPlain, Watched, latest, fetch_body-response,
  read_response-ok, poll-fetch_body, poll_at-poll, poll_at, IsCurrent, is_named_at, is_valid_at,
}

module _ (tag : String → String) (content_type : String) (l : Libraries) (uri : String)
    (named : uri ≢ "") (valid : l.is_url uri ≡ true)
    (hashes_apart : (a b : String) → l.generate_sha a ≡ l.generate_sha b → a ≡ b)
    (hashes_named : (a : String) → l.generate_sha a ≢ "")
    (tags_apart : (a b : String) → tag a ≡ tag b → tag a ≢ "" → a ≡ b)
    (tags_uniform : ((a : String) → tag a ≡ "") ⊎ ((a : String) → tag a ≢ "")) where
  -- What a server answers that has the body: that nothing changed, or the body.
  pub answers :
      (hs : Sync) (before body : String)
      → hs.e_tag ≡ tag before
      → ((server_at tag content_type (serves body) (if_none_match hs false)
            ≡ some (not_modified tag content_type))
          × (before ≡ body))
        ⊎ (server_at tag content_type (serves body) (if_none_match hs false)
            ≡ some (ok tag content_type body))
  unfolding server_at if_none_match
  answers hs before body tagged = elim (Bool-cases (hs.e_tag == "")) [
    | inl e ↦ inr (ground (arith, e))
    | inr e ↦ elim (Bool-cases (hs.e_tag == tag body)) [
      | inl same ↦ inl (
        ground (arith, e, same),
        tags_apart before body (sym tagged ∙ (eq_iff hs.e_tag (tag body)).0 same)
            (λ z. absurd (ground (arith, e, z, tagged, eq_iff hs.e_tag ""))),
      )
      | inr other ↦ inr (ground (arith, e, other))
    ]
  ]

  -- The next tag is that of the body.
  next_tag :
      (hs : Sync) (before body : String)
      → hs.e_tag ≡ tag before
      → (if tag body == "" then hs.e_tag else tag body) ≡ tag body
  next_tag hs before body tagged = elim tags_uniform [
    | inl none_given ↦
        ground (arith, tagged, none_given before, none_given body, eq_iff (tag body) "")
    | inr given ↦ ground (arith, given body, eq_iff (tag body) "")
  ]

  pub unchanged :
      (w : Watched tag content_type l) (before : String)
      → IsCurrent tag content_type l uri before w
      → server_at tag content_type (serves before) (if_none_match w.0 false)
        ≡ some (not_modified tag content_type)
      → poll_at tag content_type l w (serves before) ≡ w
  unfolding changed read_response
  unchanged w before h answered =
      let server = server_at tag content_type (serves before) in
      let quiet : changed l w.0.last_body_sha w.0 (fetched "" true) ≡ none = ground (
        arith,
        h.hashed,
        hashes_named before,
        eq_iff w.0.last_body_sha "",
        eq_refl w.0.last_body_sha,
      ) in
      poll_at-poll tag content_type l w (serves before) w.0 none (
        poll-fetch_body tag content_type l w.0 w.0 server (fetched "" true) (
          fetch_body-response tag content_type l w.0 server false
            (is_named_at tag content_type l uri named valid w before h)
            (is_valid_at tag content_type l uri named valid w before h)
            (not_modified tag content_type) answered)
        ∙ ap (λ (o : Option DataSync). (w.0, o)) quiet)

  -- What was sent last after a body that the source has the hash of: its text.
  latest-changed :
      (w : Watched tag content_type l) (before body text : String) (hs' : Sync)
      → IsCurrent tag content_type l uri before w
      → convert_to_json l.formats body (l.get_file_extensions uri) content_type ≡ some text
      → text ≢ ""
      → hs'.uri ≡ uri
      → hs'.last_body_sha ≡ l.generate_sha body
      → latest tag content_type l (changed l w.0.last_body_sha hs' (fetched text false)) w.1
        ≡ some (record { flag_data = text; source = uri; selector = "" })
  unfolding changed
  latest-changed w before body text hs' h converts nonempty here hash =
      let sent = changed l w.0.last_body_sha hs' (fetched text false) in
      let filled : (w.0.last_body_sha == "") ≡ false =
        ground (arith, h.hashed, hashes_named before, eq_iff w.0.last_body_sha "") in
      elim (Bool-cases (w.0.last_body_sha == l.generate_sha body)) [
        | inl same ↦
            let stays : before ≡ body =
              hashes_apart before body
                (sym h.hashed ∙ (eq_iff w.0.last_body_sha (l.generate_sha body)).0 same) in
            let same_text : h.text ≡ text = ground (arith, h.converted, converts, stays) in
            let quiet : sent ≡ none =
              ground (arith, same, nonempty, eq_iff text "", filled, hash) in
            ap (λ (o : Option DataSync). latest tag content_type l o w.1) quiet
            ∙ h.sent
            ∙ ap (λ t. some (record { flag_data = t; source = uri; selector = "" })) same_text
        | inr other ↦
            let news : sent ≡ some (record { flag_data = text; source = uri; selector = "" }) =
              ground (arith, other, nonempty, eq_iff text "", filled, here, hash) in
            ap (λ (o : Option DataSync). latest tag content_type l o w.1) news
      ]

  pub renewed :
      (w : Watched tag content_type l) (before body : String)
      → IsPlain tag content_type l uri (serves body)
      → IsCurrent tag content_type l uri before w
      → server_at tag content_type (serves body) (if_none_match w.0 false)
        ≡ some (ok tag content_type body)
      → IsCurrent tag content_type l uri body (poll_at tag content_type l w (serves body))
  unfolding changed
  renewed w before body plain h answered =
      let (text, converts, nonempty) = plain in
      let server = server_at tag content_type (serves body) in
      let hs' : Sync = record w.0 {
        e_tag = if tag body == "" then w.0.e_tag else tag body;
        last_body_sha = l.generate_sha body;
      } in
      let sent = changed l w.0.last_body_sha hs' (fetched text false) in
      let polled : poll_at tag content_type l w (serves body)
          ≡ (hs', latest tag content_type l sent w.1) =
        poll_at-poll tag content_type l w (serves body) hs' sent (
          poll-fetch_body tag content_type l w.0 hs' server (fetched text false) (
            fetch_body-response tag content_type l w.0 server false
              (is_named_at tag content_type l uri named valid w before h)
              (is_valid_at tag content_type l uri named valid w before h) (ok tag content_type body)
              answered
            ∙ read_response-ok tag content_type l w.0 body text (rw h.at_uri converts) nonempty)) in
      subst (λ (v : Watched tag content_type l). IsCurrent tag content_type l uri body v)
        (sym polled)
        (record {
          at_uri = h.at_uri;
          hashed = refl;
          tagged = next_tag w.0 before body h.tagged;
          text = text;
          converted = converts;
          sent = latest-changed w before body text hs' h converts nonempty h.at_uri refl;
        })
