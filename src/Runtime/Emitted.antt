-- ===== src/Runtime/Emitted.antt =====
-- What reaches the subscribers of flag configurations when a payload is taken in.
use flagd.Prelude.{ℕ, Option, some, List, String, ◌≡◌, inl, inr, arith, Bool-cases}
use flagd.Prelude.Tests.{In}
use flagd.Prelude.Dict.{Dict}
use flagd.Model.{Flag, Metadata, Notification}
use flagd.Store.{MemDb, Store, update}
use flagd.Evaluator.Config.{DataSync, Parser, config_to_flag_definition, set_state}
use flagd.Evaluator.WellFormed.{Result-cases}
use flagd.FlagSync.{Sent, publish}
use flagd.FlagSync.Startup.{emit}
use flagd.FlagSync.Register.{subscriptions}
use flagd.FlagSync.Publish.{Reach, publish-get_all_flags, publish_sent, publish-refill}
use flagd.FlagSync.Texts.{text_for, text_for-get_all_flags}
use flagd.Runtime.{Runtime, emitted, update_and_emit}

module _ (p : Parser) (marshal : Dict Flag → Metadata → Option String) (m : MemDb)
    (r : Runtime p marshal m) (payload : DataSync) where
  emitted-publish :
      (notified : List (ℕ × Dict Notification)) (sends : List Sent)
      → (update_and_emit p marshal m r payload).2 ≡ emitted notified (some (inr sends))
      → (publish marshal m (update_and_emit p marshal m r payload).0.store r.mux).1 ≡ inr sends
  unfolding update_and_emit set_state emit
  emitted-publish notified sends h =
      elim (Result-cases (config_to_flag_definition p payload.flag_data)) [
        | inl (err, n) ↦ absurd (ground (arith, n, h))
        | inr (d, n) ↦
            elim (Bool-cases
              (update m payload.source payload.selector r.store d.flags d.metadata).2) [
                | inl asked ↦ absurd (ground (arith, n, asked, h))
                | inr quiet ↦ ground (arith, n, quiet, h)
              ]
      ]

  -- In every state of the multiplexer that its operations lead to: if a payload is accepted, no
  -- resync is required and the publication succeeds, then each subscriber of a source, or of all
  -- sources, is sent the text that the store determines for it after the payload was taken in: the
  -- flags of that source with its metadata, or all flags with the merged metadata.
  pub update_and_emit-text_for :
      (s0 : Store m) (sources : List String) (notified : List (ℕ × Dict Notification))
      (sends : List Sent) (k : String) (id c : ℕ)
      → Reach marshal m s0 sources r.mux
      → (update_and_emit p marshal m r payload).2 ≡ emitted notified (some (inr sends))
      → In (id, c) (subscriptions r.mux k)
      → (text : String) × (text_for marshal m
            (update_and_emit p marshal m r payload).0.store
            r.mux.sources
            k
          ≡ some text)
        × In (c, text) sends
  update_and_emit-text_for s0 sources notified sends k id c reach h i =
      let s = (update_and_emit p marshal m r payload).0.store in
      let published = emitted-publish notified sends h in
      let (text, held, sent) =
        publish-get_all_flags marshal m s0 s sources r.mux sends k id c reach published i in
      (
        text,
        text_for-get_all_flags marshal m s r.mux k text
            (publish_sent marshal m s r.mux sends published).0
            (rw (publish-refill marshal m s r.mux) at held),
        sent,
      )
