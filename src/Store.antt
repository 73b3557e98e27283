-- ===== src/Store.antt =====
-- core/pkg/store/store.go.
--
-- The flag table is kept by the library go-memdb: `MemDb` holds the operations that the code calls
-- and the documented behaviour that it relies on. A write transaction works on its own copy, and
-- `Txn.Commit` publishes it; a read opens a transaction of its own and so sees the committed table.
-- The locks are left out: one operation runs at a time.
pub mod Table
pub mod Priority
pub mod Merge
pub mod Update
pub mod Resync
pub mod ListDb
pub mod Sources
pub mod Tests
use mathlib.Core.List.{reverse, foldl}
use flagd.Prelude.{
  Bool, true, false, not, ◌&&◌, Option, none, some, List, [], ◌∷◌, String, if◌then◌else◌, ◌==◌, ◌≡◌,
  ◌≢◌, ◌↔◌,
}
use flagd.Prelude.Tests.{In}
use flagd.Prelude.Dict.{Dict, lookup, insert, has}
use flagd.Model.{
  Flag, Value, GoMap, Metadata, entries, Notification, NotificationType, delete, create,
  update as updated,
}
use flagd.Model.Equality.{deep_equal}

-- The table "flags" of go-memdb with the unique index "id" over `Flag.Key`. `none` is an error:
-- an index over a text field refuses the empty text.
pub record MemDb : Type 1 where
  pub Table : Type 0
  pub first : Table → String → Option Flag
  pub get : Table → List Flag
  pub insert : Table → Flag → Option Table
  pub delete_all : Table → String → Option Table
  pub first-key : (t : Table) (k : String) (f : Flag) → first t k ≡ some f → f.key ≡ k
  pub key-nonempty : (t : Table) (k : String) (f : Flag) → first t k ≡ some f → k ≢ ""
  pub get-first : (t : Table) (f : Flag) → In f (get t) ↔ (first t f.key ≡ some f)
  pub insert_empty : (t : Table) (f : Flag) → f.key ≡ "" → insert t f ≡ none
  pub insert_some : (t : Table) (f : Flag) → f.key ≢ "" → (t' : Table) × (insert t f ≡ some t')
  pub first-insert :
      (t t' : Table) (f : Flag) (k : String)
      → insert t f ≡ some t'
      → first t' k ≡ (if f.key == k then some f else first t k)
  pub delete_some : (t : Table) (k : String) → (t' : Table) × (delete_all t k ≡ some t')
  pub first-delete :
      (t t' : Table) (j k : String)
      → delete_all t j ≡ some t'
      → first t' k ≡ (if j == k then none else first t k)

pub record SourceDetails : Type 0 where
  pub source : String
  pub selector : String

-- The loop of `hasPriority`, from the last source to the first.
priority_loop : String → String → List String → Bool
priority_loop stored new [] = true
priority_loop stored new (s ∷ rest) =
    if s == stored then false else if s == new then true else priority_loop stored new rest

unfoldable pub has_priority : List String → String → String → Bool
unfolding priority_loop
has_priority flag_sources stored new =
    if stored == new then true else priority_loop stored new (reverse flag_sources)

-- The maps of `getMetadata`: `none` is the delete marker.
collect_entry : Dict (Option Value) → String × Value → Dict (Option Value)
collect_entry metadata (key, entry) =
    if has key metadata then insert key none metadata else insert key (some entry) metadata

collect_source : Dict (Option Value) → String × GoMap Value → Dict (Option Value)
collect_source metadata (_, per_source) = foldl collect_entry metadata (entries per_source)

-- `maps.DeleteFunc` with the marker.
drop_marked : Dict (Option Value) → Metadata
drop_marked [] = []
drop_marked ((key, none) ∷ rest) = drop_marked rest
drop_marked ((key, some v) ∷ rest) = (key, v) ∷ drop_marked rest

unfoldable pub merge_metadata : Dict (GoMap Value) → Metadata
unfolding collect_entry collect_source drop_marked lookup insert
merge_metadata per_source = drop_marked (foldl collect_source [] per_source)

module _ (m : MemDb) where
  pub record Store : Type 0 where
    pub db : m.Table
    pub flag_sources : List String
    pub source_details : Dict SourceDetails
    pub metadata_per_source : Dict (GoMap Value)

  -- `Update`'s local variables.
  pub record Progress : Type 0 where
    pub txn : m.Table
    pub notifications : Dict Notification
    pub resync_required : Bool

  unfoldable pub get_metadata : Store → Metadata
  unfolding merge_metadata
  get_metadata s = merge_metadata s.metadata_per_source

  unfoldable pub get_metadata_for_source : Store → String → Metadata
  unfolding lookup
  get_metadata_for_source s source = elim (lookup source s.metadata_per_source) [
    | none ↦ []
    | some per_source ↦ entries per_source
  ]

  unfoldable pub get : Store → String → Option Flag × Metadata
  unfolding get_metadata get_metadata_for_source
  get s key = elim (m.first s.db key) [
    | none ↦ (none, get_metadata s)
    | some flag ↦ (some flag, get_metadata_for_source s flag.source)
  ]

  unfoldable pub selector_for_flag : Store → Flag → String
  unfolding lookup
  selector_for_flag s flag = elim (lookup flag.source s.source_details) [
    | none ↦ ""
    | some details ↦ details.selector
  ]

  pub add_by_key : Dict Flag → Flag → Dict Flag
  add_by_key flags flag = insert flag.key flag flags

  unfoldable pub get_all_flags : Store → Dict Flag
  unfolding add_by_key insert
  get_all_flags s = foldl add_by_key [] (m.get s.db)

  unfoldable pub get_all : Store → Dict Flag × Metadata
  unfolding get_all_flags get_metadata
  get_all s = (get_all_flags s, get_metadata s)

  unfoldable pub set_source_metadata : Store → String → GoMap Value → Store
  unfolding insert
  set_source_metadata s source metadata = record s {
    metadata_per_source = insert source metadata s.metadata_per_source;
  }

  module _ (source selector : String) where
    abbrev pub note : NotificationType → Notification
    note kind = record { kind = kind; source = source }

    -- The body of the loop over the stored flags.
    pub prune_step : Dict Flag → Progress → String × Flag → Progress
    prune_step flags p (key, v) =
        if (v.source == source && v.selector == selector) && not (has key flags)
        then elim (m.delete_all p.txn key) [
          | none ↦ p
          | some txn ↦ record {
            txn = txn;
            notifications = insert key (note delete) p.notifications;
            resync_required = true;
          }
        ]
        else p

    -- The notification is made before the insertion is tried.
    pub put : NotificationType → Progress → String → Flag → Progress
    put kind p key flag =
        let notifications = insert key (note kind) p.notifications in
        elim (m.insert p.txn flag) [
          | none ↦ record p { notifications = notifications }
          | some txn ↦ record p { txn = txn; notifications = notifications }
        ]

    -- The body of the loop over the new flags; `s` is the committed state.
    pub merge_step : Store → Progress → String × Flag → Progress
    merge_step s p (key, given) =
        let new_flag : Flag = record given { source = source; selector = selector; key = key } in
        elim (get s key).0 [
          | none ↦ put create p key new_flag
          | some stored ↦
              if not (has_priority s.flag_sources stored.source source)
              then p
              else if deep_equal stored new_flag
              then p
              else put updated p key new_flag
        ]

    pub prune : Dict Flag → Progress → Dict Flag → Progress
    prune flags p stored = foldl (prune_step flags) p stored

    pub merge : Store → Progress → Dict Flag → Progress
    merge s p flags = foldl (merge_step s) p flags

    pub start : Store → Progress
    start s = record { txn = s.db; notifications = []; resync_required = false }

    -- `f.setSourceMetadata` comes before the loops and touches nothing that they read.
    unfoldable pub update : Store → Dict Flag → GoMap Value → Store × Dict Notification × Bool
    unfolding prune_step put merge_step prune merge start get has_priority deep_equal insert lookup
        get_all_flags set_source_metadata
    update s flags metadata =
        let s' = set_source_metadata s source metadata in
        let p = merge s' (prune flags (start s) (get_all_flags s)) flags in
        (record s' { db = p.txn }, p.notifications, p.resync_required)
