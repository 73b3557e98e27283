-- ===== src/FlagSync/Channels.antt =====
-- The channels of flagd/pkg/service/flag-sync/handler.go: `SyncFlags` registers a channel with room
-- for one text and reads it until the stream ends. A send to a full channel that no one reads waits
-- for ever, and `Publish` sends under the lock.
use flagd.Prelude.{
  ℕ, eqb, Bool, true, false, not, ◌&&◌, ◌||◌, Option, none, some, List, [], ◌∷◌, String, ◌≡◌, refl,
  inl, inr, arith, Bool-cases, if◌then◌else◌, ap,
}
use flagd.Prelude.Tests.{In}
use flagd.Model.{Flag, Metadata}
use flagd.Prelude.Dict.{Dict}
use flagd.Store.{MemDb, Store}
use flagd.FlagSync.{Multiplexer, Sent, is_known, register, unregister, publish}
use flagd.FlagSync.Register.{subscriptions, register-In}
use flagd.FlagSync.Publish.{
  Reach, next, registered, published, publish-get_all_flags, subscriptions-publish,
}

-- What a stream meets: a text that is sent on, a failure to do so, or the end of its context.
pub data StreamEvent : Type 0 where
  forwarded send_failed context_done : StreamEvent

pub data Ending : Type 0 where
  open_still failed closed : Ending

-- The loop of `SyncFlags`, for the events of one stream.
unfoldable pub sync_flags : Multiplexer → ℕ → String → List StreamEvent → Multiplexer × Ending
unfolding unregister
sync_flags r id selector [] = (r, open_still)
sync_flags r id selector (forwarded ∷ rest) = sync_flags r id selector rest
sync_flags r id selector (send_failed ∷ rest) = (r, failed)
sync_flags r id selector (context_done ∷ rest) = (unregister r id selector, closed)

unfoldable pub is_full : List ℕ → ℕ → Bool
is_full [] channel = false
is_full (c ∷ rest) channel = eqb c channel || is_full rest channel

-- The sends of one publication, for the channels that are still read and those that are full;
-- `none` waits for ever. A channel that is read has room again in the end.
unfoldable pub deliver : (ℕ → Bool) → List ℕ → List Sent → Option (List ℕ)
unfolding is_full
deliver is_read full [] = some full
deliver is_read full ((channel, text) ∷ rest) =
    if not (is_read channel) && is_full full channel
    then none
    else deliver is_read (if is_read channel then full else channel ∷ full) rest

is_full-deliver :
    (is_read : ℕ → Bool) (full after : List ℕ) (sends : List Sent) (c : ℕ)
    → is_full full c ≡ true
    → deliver is_read full sends ≡ some after
    → is_full after c ≡ true
unfolding deliver
is_full-deliver is_read full after [] c h d = ground (arith, h, d)
is_full-deliver is_read full after ((channel, text) ∷ rest) c h d =
    elim (Bool-cases (is_read channel)) [
      | inl e ↦ is_full-deliver is_read full after rest c h (ground (arith, e, d))
      | inr e ↦
          is_full-deliver is_read (channel ∷ full) after rest c (ground (arith, h))
            (ground (arith, e, d))
    ]

-- A channel that no one reads is full after a publication that sends to it.
deliver-is_full :
    (is_read : ℕ → Bool) (full after : List ℕ) (sends : List Sent) (c : ℕ) (text : String)
    → is_read c ≡ false
    → In (c, text) sends
    → deliver is_read full sends ≡ some after
    → is_full after c ≡ true
unfolding deliver
deliver-is_full is_read full after [] c text u i d = absurd i
deliver-is_full is_read full after ((channel, t) ∷ rest) c text u (inl e) d =
    let same : channel ≡ c = ap (λ (p : Sent). p.0) e in
    is_full-deliver is_read (channel ∷ full) after rest c (ground (arith, same))
      (ground (arith, same, u, d))
deliver-is_full is_read full after ((channel, t) ∷ rest) c text u (inr i) d =
    deliver-is_full is_read (if is_read channel then full else channel ∷ full) after rest c text u i
      (ground (arith, d))

-- A full channel that no one reads blocks each publication that sends to it.
deliver_blocks :
    (is_read : ℕ → Bool) (full : List ℕ) (sends : List Sent) (c : ℕ) (text : String)
    → is_read c ≡ false
    → In (c, text) sends
    → is_full full c ≡ true
    → deliver is_read full sends ≡ none
unfolding deliver
deliver_blocks is_read full [] c text u i h = absurd i
deliver_blocks is_read full ((channel, t) ∷ rest) c text u (inl e) h =
    let same : channel ≡ c = ap (λ (p : Sent). p.0) e in rw (same, u, h) refl
deliver_blocks is_read full ((channel, t) ∷ rest) c text u (inr i) h = ground (
  arith,
  deliver_blocks is_read (if is_read channel then full else channel ∷ full) rest c text u i
      (ground (arith, h)),
)

sync_flags-failed :
    (r : Multiplexer) (id : ℕ) (selector : String) (events : List StreamEvent)
    → (sync_flags r id selector events).1 ≡ failed
    → (sync_flags r id selector events).0 ≡ r
unfolding sync_flags
sync_flags-failed r id selector [] h = refl
sync_flags-failed r id selector (forwarded ∷ rest) h = sync_flags-failed r id selector rest h
sync_flags-failed r id selector (send_failed ∷ rest) h = refl
sync_flags-failed r id selector (context_done ∷ rest) h = absurd (ground (arith, h))

module _ (marshal : Dict Flag → Metadata → Option String) (m : MemDb) (s0 s1 s2 : Store m)
    (sources : List String) (r : Multiplexer) (id : ℕ) (source : String) (c : ℕ)
    (events : List StreamEvent) (is_read : ℕ → Bool) where
  -- The multiplexer that a stream leaves which registered and then ended.
  abbrev pub left : Multiplexer
  left = (sync_flags (register r id source c).0 id source events).0

  left-register :
      (sync_flags (register r id source c).0 id source events).1 ≡ failed
      → left ≡ (register r id source c).0
  left-register h = sync_flags-failed (register r id source c).0 id source events h

  -- A stream of a known source that ends because a text could not be sent leaves its channel behind:
  -- when no one reads that channel any more, then of the next two publications that succeed, the
  -- second one waits for ever, even if the first one is delivered.
  pub publish_blocks :
      (full after : List ℕ) (sends1 sends2 : List Sent)
      → Reach marshal m s0 sources r
      → is_known r source ≡ true
      → (sync_flags (register r id source c).0 id source events).1 ≡ failed
      → is_read c ≡ false
      → (publish marshal m s1 left).1 ≡ inr sends1
      → deliver is_read full sends1 ≡ some after
      → (publish marshal m s2 (publish marshal m s1 left).0).1 ≡ inr sends2
      → deliver is_read after sends2 ≡ none
  publish_blocks full after sends1 sends2 reach known ended unread p1 d1 p2 =
      let here : In (id, c) (subscriptions left source) =
        rw (left-register ended) (register-In r id source c known) in
      let reached : Reach marshal m s0 sources left =
        rw (left-register ended) (next reach (registered id source c)) in
      let (t1, same1, i1) =
        publish-get_all_flags marshal m s0 s1 sources left sends1 source id c reached p1 here in
      let (t2, same2, i2) =
        publish-get_all_flags marshal m s0 s2 sources (publish marshal m s1 left).0 sends2 source id
          c (next reached (published s1)) p2
          (rw (subscriptions-publish marshal m s1 left source) here) in
      deliver_blocks is_read after sends2 c t2 unread i2
        (deliver-is_full is_read full after sends1 c t1 unread i1 d1)
