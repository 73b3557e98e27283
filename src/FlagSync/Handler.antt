-- ===== src/FlagSync/Handler.antt =====
-- The unary calls of flagd/pkg/service/flag-sync/handler.go and the metadata of both services.
use mathlib.Core.List.{foldl}
use Prim.Native.String.{◌++◌ as ◌<>◌}
use flagd.Prelude.{
  Bool, Option, none, some, List, [], ◌∷◌, String, ◌==◌, ◌⊎◌, inl, inr, if◌then◌else◌,
}
use flagd.Prelude.Dict.{Dict, insert}
use flagd.Model.{Value, str}
use flagd.FlagSync.{Multiplexer, SyncError, get_all_flags}

-- `strings.Join` with a comma.
unfoldable pub joined : List String → String
joined [] = ""
joined (s ∷ []) = s
joined (s ∷ t ∷ rest) = s <> "," <> joined (t ∷ rest)

unfoldable pub sources_as_metadata : Multiplexer → String
unfolding joined
sources_as_metadata r = joined r.sources

-- The context values of the service, with the sources.
unfoldable pub metadata_src : Dict Value → Multiplexer → Dict Value
unfolding insert sources_as_metadata
metadata_src context_values r =
    let copied = foldl (λ src (key, v). insert key v src) [] context_values in
    if sources_as_metadata r == ""
    then copied
    else insert "sources" (str (sources_as_metadata r)) copied

unfoldable pub fetch_all_flags : Multiplexer → String → SyncError ⊎ String
unfolding get_all_flags
fetch_all_flags r selector = get_all_flags r selector

pub data MetadataError : Type 0 where
  unimplemented no_struct : MetadataError

-- `new_struct` is `structpb.NewStruct`; `none` is an error.
unfoldable pub get_metadata :
    {Struct : Type 0} (new_struct : Dict Value → Option Struct)
    → Bool
    → Dict Value
    → Multiplexer
    → MetadataError ⊎ Struct
unfolding metadata_src
get_metadata new_struct disable_sync_metadata context_values r =
    if disable_sync_metadata
    then inl unimplemented
    else elim (new_struct (metadata_src context_values r)) [
      | none ↦ inl no_struct
      | some metadata ↦ inr metadata
    ]
