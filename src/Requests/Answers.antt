-- ===== src/Requests/Answers.antt =====
-- shared/api/guild-channel-api-client.ts: `requestJson`, `deleteNoContent` and `parseErrorResponse`,
-- behind the request. What a body, a parser and a schema give are arguments.
use Prim.Native.String
use link_lynx_ai.Common.{
  ℕ, String, Bool, true, not, Option, none, some, ◌≡◌, refl, sym, ap, arith, if◌then◌else◌, ◌==◌,
  decimal, Bool-cases, Option-cases, ◌∙◌, inl, inr,
}
use link_lynx_ai.Guilds.Client.{ApiError, Outcome, returned, thrown}

-- `BACKEND_ERROR_RESPONSE_SCHEMA`
pub record BackendErrorResponse : Type 0 where
  pub code_ : String
  pub message : String
  pub request_id : Option String

-- The parts of a `Response` that are read: `retry_after_ms` is what `parseRetryAfterMs` makes of its
-- headers, `error_body` its JSON if the schema of errors accepts it, `text` is `none` where it throws.
pub record Response : Type 0 where
  pub ok : Bool
  pub status : ℕ
  pub retry_after_ms : Option ℕ
  pub error_body : Option BackendErrorResponse
  pub text : Option String

-- The result of `authenticatedRequest`.
pub data Fetched : Type 0 where
  failed : String → String → Fetched
  answered : Response → Fetched

abbrev failed_request : String → String → ApiError
failed_request message code_ = record {
  message = message;
  status = none;
  code_ = some code_;
  request_id = none;
  retry_after_ms = none;
}

abbrev status_message : ℕ → String
status_message status = String.◌++◌ "Request failed with status " (String.◌++◌ (decimal status) ".")

abbrev unexpected : Response → String → ApiError
unexpected response message = record {
  message = message;
  status = some response.status;
  code_ = some "UNEXPECTED_RESPONSE";
  request_id = none;
  retry_after_ms = none;
}

abbrev error_of_body : Response → Option BackendErrorResponse → ApiError
error_of_body response none = record {
  message = status_message response.status;
  status = some response.status;
  code_ = some "HTTP_ERROR";
  request_id = none;
  retry_after_ms = response.retry_after_ms;
}
error_of_body response (some body) = record {
  message = body.message;
  status = some response.status;
  code_ = some body.code_;
  request_id = body.request_id;
  retry_after_ms = response.retry_after_ms;
}

unfoldable pub parse_error_response : Response → ApiError
unfolding decimal
parse_error_response response = error_of_body response response.error_body

module _ {ℓ} {J T : Type ℓ} (parse : String → Option J) (safe_parse : J → Option T) where
  abbrev checked : Response → Option T → Outcome T
  checked response none = thrown (unexpected response "API response schema validation failed.")
  checked response (some data_) = returned data_

  abbrev parsed : Response → Option J → Outcome T
  parsed response none = thrown (unexpected response "API response is not valid JSON.")
  parsed response (some payload) = checked response (safe_parse payload)

  abbrev read_text : Response → Option String → Outcome T
  read_text response none = thrown (unexpected response "API response is not valid JSON.")
  read_text response (some raw_text) = parsed response (parse raw_text)

  unfoldable pub request_json : ℕ → Fetched → Outcome T
  unfolding parse_error_response decimal
  request_json expected_status (failed message code_) = thrown (failed_request message code_)
  request_json expected_status (answered response) =
      if not response.ok
      then thrown (parse_error_response response)
      else if not (response.status == expected_status)
      then thrown (unexpected response (status_message response.status))
      else read_text response response.text

unfoldable pub delete_no_content_answer : Fetched → Outcome (Unit {0})
unfolding parse_error_response decimal
delete_no_content_answer (failed message code_) = thrown (failed_request message code_)
delete_no_content_answer (answered response) =
    if not response.ok
    then thrown (parse_error_response response)
    else if not (response.status == 204)
    then thrown (unexpected response (status_message response.status))
    else returned tt

module _ {J T : Type 0} (parse : String → Option J) (safe_parse : J → Option T) where
  -- A text that parses to a payload which the schema accepts.
  abbrev pub IsAccepted : Option String → T → Type 0
  IsAccepted text data_ =
      (raw_text : String) × (payload : J) × (text ≡ some raw_text)
      × (parse raw_text ≡ some payload)
      × (safe_parse payload ≡ some data_)

  checked-returned :
      (response : Response) (o : Option T) (data_ : T)
      → checked parse safe_parse response o ≡ returned data_
      → o ≡ some data_
  checked-returned response none data_ e = absurd (cc)
  checked-returned response (some d) data_ e = ap (data_or d) e
    where
      data_or : T → Outcome T → Option T
      data_or d (returned x) = some x
      data_or d (thrown x) = some d

  read_text-IsAccepted :
      (response : Response) (text : Option String) (data_ : T)
      → read_text parse safe_parse response text ≡ returned data_
      → IsAccepted text data_
  read_text-IsAccepted response none data_ e = absurd (cc)
  read_text-IsAccepted response (some raw_text) data_ e = elim (Option-cases (parse raw_text)) [
    | inl f ↦ absurd (thrown-returned (sym (ap (parsed parse safe_parse response) f) ∙ e))
    | inr (payload, f) ↦
        let g = sym (ap (parsed parse safe_parse response) f) ∙ e in
        (raw_text, payload, refl, f, checked-returned response (safe_parse payload) data_ g)
  ]
    where
      thrown-returned : {x : ApiError} → Path (Outcome T) (thrown x) (returned data_) → ⊥
      thrown-returned p = cc

request_json-read :
    {J T : Type 0} (parse : String → Option J) (safe_parse : J → Option T) (expected_status : ℕ)
    (response : Response)
    → response.ok ≡ true
    → (response.status == expected_status) ≡ true
    → request_json parse safe_parse expected_status (answered response)
      ≡ read_text parse safe_parse response response.text
unfolding request_json
request_json-read parse safe_parse expected_status response e f = rw (e, f) refl

-- Data is returned only from a response that is ok and has the expected status, and the data is what
-- the schema made of the payload that its text parses to.
pub request_json-IsAccepted :
    {J T : Type 0} (parse : String → Option J) (safe_parse : J → Option T) (expected_status : ℕ)
    (response : Response) (data_ : T)
    → request_json parse safe_parse expected_status (answered response) ≡ returned data_
    → (response.ok ≡ true)
      × (response.status ≡ expected_status)
      × IsAccepted parse safe_parse response.text data_
unfolding request_json
request_json-IsAccepted parse safe_parse expected_status response data_ e =
    elim (Bool-cases response.ok) [
      | inr bad ↦ absurd (cc)
      | inl good ↦ elim (Bool-cases (response.status == expected_status)) [
        | inr other ↦ absurd (ground arith)
        | inl same_status ↦ (
          good,
          ground arith,
          read_text-IsAccepted parse safe_parse response response.text data_ (
              sym (request_json-read parse safe_parse expected_status response good same_status)
              ∙ e),
        )
      ]
    ]
