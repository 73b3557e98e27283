-- ===== src/RedisSync/Changes.antt =====
-- What is sent over a run of polls and resyncs, next to the texts that Redis had.
use flagd.Prelude.{
  true, false, Option, none, some, List, [], ◌∷◌, String, ◌==◌, ◌≡◌, ◌≢◌, ◌⊎◌, inl, inr, refl,
  arith, eq_iff, eq_refl, Bool-cases, if◌then◌else◌,
}
use flagd.Evaluator.Config.{DataSync}
use flagd.Convert.{convert_to_json}
use flagd.RedisSync.{
  Libraries, Sync, text, nil_reply, error_reply, RedisClient, take_in, fetch_string, fetch_data,
  payload, unless_empty, re_sync, changed, poll,
}

-- What Redis has under the key: a document of its JSON module, a text, nothing, or no answer.
pub data Stored : Type 0 where
  document : String → Stored
  plain : String → Stored
  missing down : Stored

-- `JSON.GET` of a text is an error.
abbrev pub client_of : Stored → RedisClient
client_of (document t) = record { json_get = text t; get = error_reply }
client_of (plain t) = record { json_get = error_reply; get = text t }
client_of missing = record { json_get = nil_reply; get = nil_reply }
client_of down = record { json_get = error_reply; get = error_reply }

abbrev pub stored_text : Stored → String
stored_text (document t) = t
stored_text (plain t) = t
stored_text missing = ""
stored_text down = ""

pub data Refresh : Type 0 where
  polled resynced : Stored → Refresh

abbrev sent_then : Option DataSync → List DataSync → List DataSync
sent_then none rest = rest
sent_then (some d) rest = d ∷ rest

-- The payloads that a run sends.
unfoldable pub run : Libraries → Sync → List Refresh → List DataSync
unfolding poll re_sync
run l rs [] = []
run l rs (polled stored ∷ rest) =
    let (rs', sent) = poll l rs (client_of stored) in sent_then sent (run l rs' rest)
run l rs (resynced stored ∷ rest) =
    let (rs', sent) = re_sync l rs (client_of stored) in sent_then sent (run l rs' rest)

-- The texts that a run should send, after the text that was last seen: a poll gives one that is
-- another one, and a resync any.
abbrev pub new_texts : String → List Refresh → List String
new_texts seen [] = []
new_texts seen (polled stored ∷ rest) =
    let same = new_texts seen rest in
    let other = new_texts (stored_text stored) rest in
    if stored_text stored == ""
    then same
    else if stored_text stored == seen
    then same
    else stored_text stored ∷ other
new_texts seen (resynced stored ∷ rest) =
    let same = new_texts seen rest in
    let other = new_texts (stored_text stored) rest in
    if stored_text stored == "" then same else stored_text stored ∷ other

abbrev pub payloads : (uri : String) → List String → List DataSync
payloads uri [] = []
payloads uri (t ∷ rest) = record { flag_data = t; source = uri; selector = "" } ∷ payloads uri rest

module _ (l : Libraries) where
  -- The hash that is kept after a text was seen.
  abbrev pub hash_of : String → String
  hash_of seen = if seen == "" then "" else l.generate_sha seen

  json_kept : (t media_type : String) → convert_to_json l.formats t ".json" media_type ≡ some t
  unfolding convert_to_json
  json_kept t media_type = refl

  take_in-text :
      (rs : Sync) (t : String)
      → (t == "") ≡ false
      → take_in l rs t ≡ (record rs { last_sha = l.generate_sha t }, some t)
  unfolding take_in
  take_in-text rs t h = ground (arith, h, json_kept t "application/json")

  -- A text that Redis has is fetched, and its hash kept.
  fetch_data-text :
      (rs : Sync) (stored : Stored)
      → (stored_text stored == "") ≡ false
      → fetch_data l rs (client_of stored)
        ≡ (record rs { last_sha = l.generate_sha (stored_text stored) }, some (stored_text stored))
  unfolding fetch_data fetch_string
  fetch_data-text rs (document t) h = take_in-text rs t h
  fetch_data-text rs (plain t) h = take_in-text rs t h
  fetch_data-text rs missing h = ground (arith, h)
  fetch_data-text rs down h = ground (arith, h)

  -- Without a text, nothing changes, and the result is empty or an error.
  fetch_data-empty :
      (rs : Sync) (stored : Stored)
      → (stored_text stored == "") ≡ true
      → (fetch_data l rs (client_of stored) ≡ (rs, some ""))
        ⊎ (fetch_data l rs (client_of stored) ≡ (rs, none))
  unfolding fetch_data fetch_string take_in
  fetch_data-empty rs (document t) h = inl (ground (arith, h))
  fetch_data-empty rs (plain t) h = inl (ground (arith, h))
  fetch_data-empty rs missing h = inl refl
  fetch_data-empty rs down h = inr refl

  poll-empty :
      (rs : Sync) (stored : Stored)
      → (stored_text stored == "") ≡ true
      → poll l rs (client_of stored) ≡ (rs, none)
  unfolding poll changed
  poll-empty rs stored h = elim (fetch_data-empty rs stored h) [
    | inl e ↦ ground (arith, e)
    | inr e ↦ ground (arith, e)
  ]

  re_sync-empty :
      (rs : Sync) (stored : Stored)
      → (stored_text stored == "") ≡ true
      → re_sync l rs (client_of stored) ≡ (rs, none)
  unfolding re_sync unless_empty
  re_sync-empty rs stored h = elim (fetch_data-empty rs stored h) [
    | inl e ↦ ground (arith, e)
    | inr e ↦ ground (arith, e)
  ]

  module _ (hashes_apart : (a b : String) → l.generate_sha a ≡ l.generate_sha b → a ≡ b)
      (hashes_named : (a : String) → l.generate_sha a ≢ "") where
    poll-text :
        (rs : Sync) (seen : String) (stored : Stored)
        → rs.last_sha ≡ hash_of seen
        → (stored_text stored == "") ≡ false
        → poll l rs (client_of stored) ≡ (
          record rs { last_sha = l.generate_sha (stored_text stored) },
          if stored_text stored == seen then none else some (payload l rs (stored_text stored)),
        )
    unfolding poll changed
    poll-text rs seen stored k h = ground (
      arith,
      h,
      k,
      fetch_data-text rs stored h,
      hashes_apart seen (stored_text stored),
      hashes_named seen,
      eq_iff seen "",
      eq_iff (l.generate_sha seen) "",
      eq_iff (l.generate_sha seen) (l.generate_sha (stored_text stored)),
      eq_iff (stored_text stored) seen,
      eq_refl (stored_text stored),
      eq_refl (l.generate_sha seen),
    )

    re_sync-text :
        (rs : Sync) (stored : Stored)
        → (stored_text stored == "") ≡ false
        → re_sync l rs (client_of stored) ≡ (
          record rs { last_sha = l.generate_sha (stored_text stored) },
          some (payload l rs (stored_text stored)),
        )
    unfolding re_sync unless_empty
    re_sync-text rs stored h = ground (arith, h, fetch_data-text rs stored h)

    -- Hashes are not empty and tell texts apart. Then a run of polls and resyncs of a source that
    -- last kept the hash of a text, or none, sends exactly the texts that are new: at a poll, the
    -- text that Redis has if it is not the one that was last seen, and at a resync any text; an
    -- empty text, a missing key and a failure send nothing and are not remembered.
    pub run-new_texts :
        (rs : Sync) (seen : String) (refreshes : List Refresh)
        → rs.last_sha ≡ hash_of seen
        → run l rs refreshes ≡ payloads rs.uri (new_texts seen refreshes)
    unfolding run
    run-new_texts rs seen [] k = refl
    run-new_texts rs seen (polled stored ∷ rest) k = elim (Bool-cases (stored_text stored == "")) [
      | inl h ↦ ground (arith, h, poll-empty rs stored h, run-new_texts rs seen rest k)
      | inr h ↦
          let rs' = record rs { last_sha = l.generate_sha (stored_text stored) } in
          let kept : l.generate_sha (stored_text stored) ≡ hash_of (stored_text stored) =
            ground (arith, h) in
          ground (
            arith,
            h,
            poll-text rs seen stored k h,
            run-new_texts rs' (stored_text stored) rest kept,
            eq_iff (stored_text stored) seen,
          )
    ]
    run-new_texts rs seen (resynced stored ∷ rest) k =
        elim (Bool-cases (stored_text stored == "")) [
          | inl h ↦ ground (arith, h, re_sync-empty rs stored h, run-new_texts rs seen rest k)
          | inr h ↦
              let rs' = record rs { last_sha = l.generate_sha (stored_text stored) } in
              let kept : l.generate_sha (stored_text stored) ≡ hash_of (stored_text stored) =
                ground (arith, h) in
              ground (
                arith,
                h,
                re_sync-text rs stored h,
                run-new_texts rs' (stored_text stored) rest kept,
              )
        ]
