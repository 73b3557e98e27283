-- ===== src/Ofrep.antt =====
-- The HTTP service of flagd/pkg/service/flag-evaluation/ofrep/handler.go, with the responses of
-- core/pkg/service/ofrep/models.go. Logging, tracing and the identifiers of requests in logs are
-- left out; the router answers only the two paths.
pub mod Status
pub mod BulkResponses
pub mod Context
pub mod Tests
use mathlib.Core.List.{foldl}
use Prim.Native.String.{◌++◌ as ◌<>◌}
use flagd.Prelude.{ℕ, Option, none, some, List, [], ◌∷◌, map, String, ◌==◌, if◌then◌else◌}
use flagd.Prelude.Dict.{Dict, lookup, insert}
use flagd.Model.{
  Value, null, str, obj, Fields, no_fields, field, Metadata, GoMap, flag_not_found_error_code,
  flag_disabled_error_code, parse_error_code, general_error_code, invalid_context_code,
}
use flagd.Evaluator.{Engine, IStore, AnyValue, resolve_as_any_value, resolve_all_values}

pub record EvaluationSuccess : Type 0 where
  pub value : Value
  pub key : String
  pub reason : String
  pub variant : String
  pub metadata : Metadata

pub record EvaluationError : Type 0 where
  pub key : String
  pub error_code : String
  pub error_details : String
  pub metadata : Metadata

-- One flag of a bulk response.
pub data FlagResponse : Type 0 where
  succeeded : EvaluationSuccess → FlagResponse
  failed : EvaluationError → FlagResponse

pub record BulkEvaluationResponse : Type 0 where
  pub flags : List FlagResponse
  pub metadata : Metadata

pub record BulkEvaluationError : Type 0 where
  pub error_code : String
  pub error_details : String
  pub metadata : Metadata

-- What the handler writes as JSON; `internal_error` has the details.
pub data Payload : Type 0 where
  single : FlagResponse → Payload
  bulk : BulkEvaluationResponse → Payload
  bulk_error : BulkEvaluationError → Payload
  internal_error : String → Payload

abbrev pub success_response_from : AnyValue → EvaluationSuccess
success_response_from result = record {
  value = result.resolution.value;
  key = result.flag_key;
  reason = result.resolution.reason;
  variant = result.resolution.variant;
  metadata = result.resolution.metadata;
}

abbrev pub context_error_response_from : String → EvaluationError
context_error_response_from key = record {
  key = key;
  error_code = invalid_context_code;
  error_details = "Provider context is not valid";
  metadata = [];
}

abbrev pub bulk_evaluation_context_error : BulkEvaluationError
bulk_evaluation_context_error = record {
  error_code = invalid_context_code;
  error_details = "Provider context is not valid";
  metadata = [];
}

abbrev pub bulk_evaluation_context_error_from : String → String → BulkEvaluationError
bulk_evaluation_context_error_from code details = record {
  error_code = code;
  error_details = details;
  metadata = [];
}

abbrev details_of : AnyValue → String → String → EvaluationError
details_of result code details = record {
  key = result.flag_key;
  error_code = code;
  error_details = details;
  metadata = result.resolution.metadata;
}

-- The status and the response for a value with the error `code`.
unfoldable pub evaluation_error_response_from : AnyValue → String → ℕ × EvaluationError
evaluation_error_response_from result code =
    if code == flag_not_found_error_code
    then (
      404,
      details_of result flag_not_found_error_code
          ("flag `" <> result.flag_key <> "` does not exist"),
    )
    else if code == flag_disabled_error_code
    then (
      404,
      details_of result flag_not_found_error_code ("flag `" <> result.flag_key <> "` is disabled"),
    )
    else if code == parse_error_code
    then (
      400,
      details_of result parse_error_code ("error parsing the flag `" <> result.flag_key <> "`"),
    )
    else (400, details_of result general_error_code "error processing the flag for evaluation")

-- The status and the response for a value.
unfoldable pub reply : AnyValue → ℕ × FlagResponse
unfolding evaluation_error_response_from
reply result = elim result.resolution.error [
  | none ↦ (200, succeeded (success_response_from result))
  | some code ↦
      let (status, error) = evaluation_error_response_from result code in (status, failed error)
]

unfoldable pub bulk_evaluation_response_from : List AnyValue → Metadata → BulkEvaluationResponse
unfolding reply
bulk_evaluation_response_from resolutions metadata = record {
  flags = map (λ value. (reply value).1) resolutions;
  metadata = metadata;
}

-- The header's values; net/http keeps no header without one.
abbrev pub Headers : Type 0
Headers = Dict (String × List String)

-- The entries of an object.
abbrev pub members : Fields → Dict Value
members no_fields = []
members (field name v rest) = (name, v) ∷ members rest

abbrev pub context_of : Value → Dict Value
context_of (obj provided) = members provided
context_of v = []

unfoldable pub copy_into : Dict Value → Dict Value → Dict Value
unfolding insert
copy_into context values = foldl (λ c (key, v). insert key v c) context values

unfoldable pub add_header : Headers → Dict Value → String × String → Dict Value
unfolding insert lookup
add_header headers context (header, context_key) = elim (lookup header headers) [
  | none ↦ context
  | some (first, others) ↦ insert context_key (str first) context
]

unfoldable pub flagd_context : Value → Dict Value → Headers → Dict String → Dict Value
unfolding copy_into add_header
flagd_context request static headers mappings =
    foldl (add_header headers) (copy_into (copy_into [] (context_of request)) static) mappings

-- What the JSON decoder makes of a body; an empty body ends at once.
pub data Decoding : Type 0 where
  decoded : Value → Decoding
  end_of_body malformed : Decoding

-- The context of the request; `none` is an error.
abbrev pub extract_ofrep_request : Decoding → Option Value
extract_ofrep_request (decoded context) = some context
extract_ofrep_request end_of_body = some null
extract_ofrep_request malformed = none

-- The status and the body.
abbrev pub Response : Type 0
Response = ℕ × Option String

abbrev pub key_in : Dict String → String
unfolding lookup
key_in vars = elim (lookup "key" vars) [ none ↦ "" | some key ↦ key ]

-- `marshal` is `json.Marshal`; `none` is an error.
module _ (marshal : Payload → Option String) where
  unfoldable pub write_json_to_response : ℕ → Payload → Response
  write_json_to_response status payload = elim (marshal payload) [
    | none ↦ (500, none)
    | some body ↦ (status, some body)
  ]

  -- What is written for the result of `ResolveAllValues`; `id` is the request's identifier.
  unfoldable pub write_bulk : String → Option (List AnyValue) × Metadata → Response
  unfolding write_json_to_response bulk_evaluation_response_from
  write_bulk id (none, metadata) = write_json_to_response 500 (
      bulk_error (
        bulk_evaluation_context_error_from general_error_code
          ("Bulk evaluation failed. Tracking ID: " <> id)))
  write_bulk id (some values, metadata) =
      write_json_to_response 200 (bulk (bulk_evaluation_response_from values metadata))

  module _ (e : Engine) (now : ℕ) (s : IStore) (static : Dict Value) (mappings : Dict String) where
    unfoldable pub handle_flag_evaluation : Option (Dict String) → Decoding → Headers → Response
    unfolding write_json_to_response flagd_context resolve_as_any_value reply
    handle_flag_evaluation none body headers =
        write_json_to_response 500 (internal_error "failed to obtain the flag key from the request")
    handle_flag_evaluation (some vars) body headers = elim (extract_ofrep_request body) [
      | none ↦
          write_json_to_response 400 (single (failed (context_error_response_from (key_in vars))))
      | some request ↦
          let context = flagd_context request static headers mappings in
          let (status, response) =
            reply (resolve_as_any_value e now s (key_in vars) (some context)) in
          write_json_to_response status (single response)
    ]

    unfoldable pub handle_bulk_evaluation : String → Decoding → Headers → Response
    unfolding write_json_to_response flagd_context resolve_all_values write_bulk
    handle_bulk_evaluation id body headers = elim (extract_ofrep_request body) [
      | none ↦ write_json_to_response 400 (bulk_error bulk_evaluation_context_error)
      | some request ↦
          let context = flagd_context request static headers mappings in
          write_bulk id (resolve_all_values e now s (some context))
    ]
