-- ===== src/Auth/Principal.antt =====
-- entities/auth/api/principal-provisioning.ts and entities/auth/model/principal-provisioning.ts: the
-- request that makes the backend create the principal of the signed-in user. The body of a response is what
-- `parseJsonWithExactDecimalFields` reads.
use link_lynx_ai.Common.{
  ℕ, String, Bool, false, Option, none, some, ite, str_discrete, if◌then◌else◌, or_else,
}
use link_lynx_ai.Timeline.Contract.{is_positive_decimal}
use link_lynx_ai.Net.Json.{
  Json, BackendError, prop, trimmed_text, any_text, is_true, parse_backend_error, ◌>>=◌,
}
use link_lynx_ai.Net.Url.{UrlApi, UrlResult, ok, err, resolve_api_base_url, to_protected_ping_url}
use link_lynx_ai.Net.Fetch.{
  Response, Network, FetchErrorCode, fetch_error_message, FetchResult, fetched, failed,
  authenticated_fetch,
}
use Prim.Native.String

pub data ErrorCode : Type 0 where
  unauthenticated token_unavailable email_not_verified principal_not_mapped : ErrorCode
  auth_unavailable network_request_failed unexpected_response unknown : ErrorCode

pub record Error : Type 0 where
  pub code : ErrorCode
  pub message : String
  pub backend_code : Option String
  pub request_id : Option String
  pub status : Option ℕ

pub record Principal : Type 0 where
  pub principal_id : String
  pub firebase_uid : String
  pub request_id : String

pub data Result : Type 0 where
  provisioned : Principal → Result
  refused : Error → Result

abbrev error_of : ErrorCode → String → Option ℕ → Result
error_of code message status = refused (record {
  code = code;
  message = message;
  backend_code = none;
  request_id = none;
  status = status;
})

unfoldable pub map_backend_auth_error_code : String → ErrorCode
map_backend_auth_error_code code = ite (str_discrete code "AUTH_MISSING_TOKEN") unauthenticated (
    ite (str_discrete code "AUTH_INVALID_TOKEN") unauthenticated (
      ite (str_discrete code "AUTH_TOKEN_EXPIRED") unauthenticated (
        ite (str_discrete code "AUTH_EMAIL_NOT_VERIFIED") email_not_verified (
          ite (str_discrete code "AUTH_PRINCIPAL_NOT_MAPPED") principal_not_mapped
            (ite (str_discrete code "AUTH_UNAVAILABLE") auth_unavailable unknown)))))

abbrev of_fetch_error : FetchErrorCode → ErrorCode
of_fetch_error FetchErrorCode.unauthenticated = unauthenticated
of_fetch_error FetchErrorCode.token_unavailable = token_unavailable
of_fetch_error FetchErrorCode.network_request_failed = network_request_failed

abbrev append_request_id_suffix : String → Option String → String
append_request_id_suffix message none = message
append_request_id_suffix message (some request_id) =
    String.◌++◌ message (String.◌++◌ " (request_id: " (String.◌++◌ request_id ")"))

abbrev positive_decimal : Option Json → Option String
positive_decimal o = do text ← any_text o; if is_positive_decimal text then some text else none

-- `PROTECTED_PING_SUCCESS_SCHEMA`
unfoldable pub parse_principal : Json → Option Principal
unfolding trimmed_text prop is_positive_decimal
parse_principal payload =
    if is_true (prop "ok" payload)
    then (do
      request_id ← trimmed_text (prop "request_id" payload)
      principal_id ← positive_decimal (prop "principal_id" payload)
      firebase_uid ← trimmed_text (prop "firebase_uid" payload)
      some (record {
        principal_id = principal_id;
        firebase_uid = firebase_uid;
        request_id = request_id;
      }))
    else none

abbrev of_principal : ℕ → Option Principal → Result
of_principal status none = error_of unexpected_response "認証APIレスポンスの形式が不正です。" (some status)
of_principal status (some principal) = provisioned principal

abbrev of_backend_error : ℕ → Option BackendError → Result
of_backend_error status none = error_of unexpected_response "認証APIエラーレスポンスの形式が不正です。" (some status)
of_backend_error status (some e) = refused (record {
  code = map_backend_auth_error_code e.code;
  message = append_request_id_suffix e.message (some e.request_id);
  backend_code = some e.code;
  request_id = some e.request_id;
  status = some status;
})

abbrev of_body : Response → Option Json → Result
of_body response none =
    error_of unexpected_response "認証APIから不正なレスポンスを受信しました。" (some response.status)
of_body response (some payload) =
    if response.ok
    then of_principal response.status (parse_principal payload)
    else of_backend_error response.status (parse_backend_error payload)

abbrev pub of_fetch : FetchResult → Result
of_fetch (failed code) = error_of (of_fetch_error code) (fetch_error_message code) none
of_fetch (fetched response) = of_body response response.body

abbrev pub with_endpoint : UrlApi → Network → Bool → UrlResult String → Result
with_endpoint api net force_refresh (err message) = error_of unknown message none
with_endpoint api net force_refresh (ok base_url) =
    of_fetch (authenticated_fetch net "GET" (to_protected_ping_url api base_url) force_refresh)

-- `raw_url` is NEXT_PUBLIC_API_URL.
unfoldable pub ensure_principal_provisioned_for_current_user :
    UrlApi → Option String → Network → Option Bool → Result
unfolding map_backend_auth_error_code parse_principal parse_backend_error authenticated_fetch
ensure_principal_provisioned_for_current_user api raw_url net force_refresh =
    with_endpoint api net (or_else force_refresh false) (resolve_api_base_url api raw_url)
