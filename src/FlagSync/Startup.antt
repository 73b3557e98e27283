-- ===== src/FlagSync/Startup.antt =====
-- flagd/pkg/service/flag-sync/sync_service.go: the service waits at its start until each source has
-- synced once, and publishes what comes unless a resync is under way.
use flagd.Prelude.{
  ℕ, ◌+◌, ◌-◌, Bool, true, false, not, Option, none, some, List, [], ◌∷◌, String, ◌==◌, ◌≡◌, ◌⊎◌,
  inl, inr, refl, eq_iff, arith, if◌then◌else◌, Bool-cases,
}
use flagd.Model.{Flag, Metadata}
use flagd.Prelude.Dict.{Dict}
use flagd.Store.{MemDb, Store}
use flagd.FlagSync.{Multiplexer, SyncError, Sent, contains, publish}

-- `syncTracker`; `closes` counts how often its channel was closed. The second time panics.
pub record SyncTracker : Type 0 where
  pub sources : List String
  pub closes : ℕ

-- `slices.Delete` at the first index of the source.
unfoldable pub delete_first : String → List String → List String
delete_first source [] = []
delete_first source (s ∷ rest) = if s == source then rest else s ∷ delete_first source rest

abbrev pub is_empty : List String → Bool
is_empty [] = true
is_empty (s ∷ rest) = false

unfoldable pub track_and_remove : SyncTracker → String → SyncTracker
unfolding contains delete_first
track_and_remove t source =
    if not (contains t.sources source)
    then t
    else let rest = delete_first source t.sources in
      record { sources = rest; closes = if is_empty rest then t.closes + 1 else t.closes }

unfoldable pub track_all : SyncTracker → List String → SyncTracker
unfolding track_and_remove
track_all t [] = t
track_all t (source ∷ rest) = track_all (track_and_remove t source) rest

unfoldable pub new_tracker : List String → SyncTracker
new_tracker sources = record { sources = sources; closes = 0 }

module _ (marshal : Dict Flag → Metadata → Option String) (m : MemDb) where
  -- `Emit`; an error of `Publish` is only logged.
  unfoldable pub emit :
      Store m
      → SyncTracker
      → Multiplexer
      → Bool
      → String
      → SyncTracker × Multiplexer × Option (SyncError ⊎ List Sent)
  unfolding track_and_remove publish
  emit s t r is_resync source =
      if is_resync
      then (track_and_remove t source, r, none)
      else (track_and_remove t source, (publish marshal m s r).0, some (publish marshal m s r).1)

-- How often a source stands in a list.
abbrev pub count : String → List String → ℕ
count source [] = 0
count source (s ∷ rest) = (if s == source then 1 else 0) + count source rest

-- The channel is closed once no source is awaited.
abbrev IsTracking : SyncTracker → Type 0
IsTracking t = t.closes ≡ (if is_empty t.sources then 1 else 0)

count-delete_first :
    (k source : String) (l : List String)
    → contains l source ≡ true
    → count k (delete_first source l) + (if source == k then 1 else 0) ≡ count k l
unfolding delete_first contains
count-delete_first k source [] h = absurd (ground (arith, h))
count-delete_first k source (s ∷ rest) h =
    ground
      (arith, h, count-delete_first k source rest, eq_iff s source, eq_iff s k, eq_iff source k)

contains-is_empty :
    (source : String) (l : List String) → contains l source ≡ true → is_empty l ≡ false
unfolding contains
contains-is_empty source [] h = absurd (ground (arith, h))
contains-is_empty source (s ∷ rest) h = refl

track_and_remove-IsTracking :
    (t : SyncTracker) (source : String) → IsTracking t → IsTracking (track_and_remove t source)
unfolding track_and_remove
track_and_remove-IsTracking t source h = elim (Bool-cases (contains t.sources source)) [
  | inl is ↦ ground (arith, h, is, contains-is_empty source t.sources is)
  | inr isnt ↦ ground (arith, h, isnt)
]

count-contains :
    (source : String) (l : List String) → contains l source ≡ false → count source l ≡ 0
unfolding contains
count-contains source [] h = refl
count-contains source (s ∷ rest) h = ground (arith, h, count-contains source rest)

count-track_and_remove :
    (k source : String) (t : SyncTracker)
    → count k (track_and_remove t source).sources
      ≡ count k t.sources - (if source == k then 1 else 0)
unfolding track_and_remove
count-track_and_remove k source t = elim (Bool-cases (contains t.sources source)) [
  | inl is ↦ ground (arith, is, count-delete_first k source t.sources is)
  | inr isnt ↦ ground (arith, isnt, count-contains source t.sources isnt, eq_iff source k)
]

count-track_all :
    (k : String) (t : SyncTracker) (reports : List String)
    → count k (track_all t reports).sources ≡ count k t.sources - count k reports
unfolding track_all
count-track_all k t [] = ground arith
count-track_all k t (source ∷ rest) =
    ground
      (arith, count-track_all k (track_and_remove t source) rest, count-track_and_remove k source t)

track_all-IsTracking :
    (t : SyncTracker) (reports : List String) → IsTracking t → IsTracking (track_all t reports)
unfolding track_all
track_all-IsTracking t [] h = h
track_all-IsTracking t (source ∷ rest) h =
    track_all-IsTracking (track_and_remove t source) rest (track_and_remove-IsTracking t source h)

-- If the service has sources, then after any sequence of reports each source is awaited as often as
-- it was given and has not reported, and the channel was closed once when none is awaited, else
-- never.
pub track_all-closes :
    (given reports : List String)
    → is_empty given ≡ false
    → ((k : String)
        → count k (track_all (new_tracker given) reports).sources ≡ count k given - count k reports)
      × ((track_all (new_tracker given) reports).closes
          ≡ (if is_empty (track_all (new_tracker given) reports).sources then 1 else 0))
unfolding new_tracker
track_all-closes given reports h = (
  λ k. count-track_all k (new_tracker given) reports,
  track_all-IsTracking (new_tracker given) reports (ground (arith, h)),
)
