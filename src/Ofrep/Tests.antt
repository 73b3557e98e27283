-- ===== src/Ofrep/Tests.antt =====
-- Requests for the flags of the evaluator's tests; a response is marshalled to one word.
use flagd.Prelude.{
  Option, some, [], ◌∷◌, String, ◌≡◌, inr, refl, true, arith, eq_iff, if◌then◌else◌, is_some,
}
use flagd.Prelude.Dict.{Dict, lookup, HasDistinctKeys}
use flagd.Model.{Value, str, obj, field, no_fields}
use flagd.Evaluator.{boolean, float, any, resolve}
use flagd.Evaluator.Text.{trim_space, remove_quotes}
use flagd.Evaluator.Tests.{engine, with_flags, all_flags, typed_flags}
use flagd.Ofrep.{
  Payload, single, bulk, bulk_error, internal_error, succeeded, failed, Headers, decoded,
  end_of_body, malformed, context_of, flagd_context, handle_flag_evaluation, handle_bulk_evaluation,
  write_json_to_response,
}
use flagd.Prelude.Tests.{All}
use flagd.Ofrep.BulkResponses.{
  IsOfOneType, single_responses, handle_bulk_evaluation-single_responses,
}
use flagd.Ofrep.Status.{is_hidden, status-handle_flag_evaluation}
use flagd.Ofrep.Context.{or_else, from_headers, lookup-flagd_context}

abbrev code_of : Payload → Option String
code_of (single (succeeded response)) = some response.variant
code_of (single (failed response)) = some response.error_code
code_of (bulk response) = some "bulk"
code_of (bulk_error response) = some response.error_code
code_of (internal_error details) = some details

code_of_all : (payload : Payload) → is_some (code_of payload) ≡ true
code_of_all (single (succeeded response)) = refl
code_of_all (single (failed response)) = refl
code_of_all (bulk response) = refl
code_of_all (bulk_error response) = refl
code_of_all (internal_error details) = refl

abbrev vars : String → Dict String
vars key = ("key", key) ∷ []

abbrev request : Value
request = obj (field "region" (str "eu") (field "tier" (str "free") no_fields))

abbrev static : Dict Value
static = ("region", str "us") ∷ []

abbrev mappings : Dict String
mappings = ("X-Tier", "tier") ∷ []

abbrev headers : Headers
headers = ("X-Tier", ("paid", [])) ∷ []

program : Unit {0}
unfolding handle_flag_evaluation handle_bulk_evaluation flagd_context resolve with_flags trim_space
    remove_quotes lookup from_headers
program = tt

runs :
    (handle_flag_evaluation code_of engine 7
        (with_flags all_flags)
        static
        mappings
        (some (vars "greet"))
        (decoded request)
        headers
      ≡ (200, some "on"))
    × (handle_flag_evaluation code_of engine 7
          (with_flags all_flags)
          static
          mappings
          (some (vars "gone"))
          end_of_body
          headers
        ≡ (404, some "FLAG_NOT_FOUND"))
    × (handle_flag_evaluation code_of engine 7
          (with_flags all_flags)
          static
          mappings
          (some (vars "greet"))
          malformed
          headers
        ≡ (400, some "INVALID_CONTEXT"))
    × (handle_bulk_evaluation code_of engine 7
          (with_flags all_flags)
          static
          mappings
          "id"
          (decoded request)
          headers
        ≡ (200, some "bulk"))
unfolding program
runs = (refl, refl, refl, refl)

status-handle_flag_evaluation_example :
    (handle_flag_evaluation code_of engine 7
      (with_flags all_flags)
      static
      mappings
      (some (vars "odd"))
      (decoded request)
      headers).0
    ≡ (if is_hidden engine 7
          (with_flags all_flags)
          "odd"
          (some (flagd_context request static headers mappings))
          (lookup "odd" all_flags)
        then 404
        else if is_some
            (resolve engine 7
              (with_flags all_flags)
              any
              "odd"
              (some (flagd_context request static headers mappings))).error
        then 400
        else 200)
unfolding program
status-handle_flag_evaluation_example =
    status-handle_flag_evaluation code_of engine 7 (with_flags all_flags) static mappings
      (vars "odd") request headers code_of_all

request-HasDistinctKeys : HasDistinctKeys (context_of request)
request-HasDistinctKeys = ((λ e. absurd (ground (arith, e, eq_iff "tier" "region")), tt), (tt, tt))

lookup-flagd_context_example :
    lookup "tier" (flagd_context request static headers mappings)
    ≡ or_else
        (from_headers headers "tier" mappings)
        (or_else (lookup "tier" static) (lookup "tier" (context_of request)))
lookup-flagd_context_example =
    lookup-flagd_context request static headers mappings "tier" request-HasDistinctKeys (tt, tt)

typed_flags-IsOfOneType :
    All
      (IsOfOneType engine 7
        (with_flags typed_flags)
        (some (flagd_context request static headers mappings)))
      typed_flags
unfolding program
typed_flags-IsOfOneType = (
  inr (boolean, refl, λ h. absurd (ground (arith, h))),
  (inr (float, refl, λ h. absurd (ground (arith, h))), tt),
)

handle_bulk_evaluation-single_responses_example :
    handle_bulk_evaluation code_of engine 7
      (with_flags typed_flags)
      static
      mappings
      "id"
      (decoded request)
      headers
    ≡ write_json_to_response code_of 200 (
        bulk (record {
          flags =
              single_responses engine 7
                (with_flags typed_flags)
                (some (flagd_context request static headers mappings))
                typed_flags;
          metadata = [];
        }))
unfolding program
handle_bulk_evaluation-single_responses_example =
    handle_bulk_evaluation-single_responses code_of engine 7 (with_flags typed_flags) static
      mappings "id" request headers typed_flags refl typed_flags-IsOfOneType
