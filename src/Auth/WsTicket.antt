-- ===== src/Auth/WsTicket.antt =====
-- entities/auth/api/ws-ticket.ts: the one-time ticket with which a socket identifies itself.
use link_lynx_ai.Common.{
  ℕ, String, Bool, false, Option, none, some, ite, str_discrete, if◌then◌else◌, or_else,
}
use link_lynx_ai.Net.Json.{Json, BackendError, prop, trimmed_text, parse_backend_error, ◌>>=◌}
use link_lynx_ai.Net.Url.{UrlApi, UrlResult, ok, err, resolve_api_base_url, to_ws_ticket_url}
use link_lynx_ai.Net.Url
use link_lynx_ai.Net.Fetch.{
  Response, Network, FetchErrorCode, fetch_error_message, FetchResult, fetched, failed,
  authenticated_fetch,
}

pub data ErrorCode : Type 0 where
  unauthenticated token_unavailable forbidden : ErrorCode
  temporarily_unavailable unexpected_response unknown : ErrorCode

pub record Error : Type 0 where
  pub code : ErrorCode
  pub message : String
  pub backend_code : Option String
  pub request_id : Option String
  pub status : Option ℕ

pub record Ticket : Type 0 where
  pub ticket : String
  pub expires_at : String

pub data Result : Type 0 where
  issued : Ticket → Result
  refused : Error → Result

abbrev error_of : ErrorCode → String → Option ℕ → Result
error_of code message status = refused (record {
  code = code;
  message = message;
  backend_code = none;
  request_id = none;
  status = status;
})

unfoldable pub map_backend_error_code : String → ErrorCode
map_backend_error_code code = ite (str_discrete code "AUTH_MISSING_TOKEN") unauthenticated (
    ite (str_discrete code "AUTH_INVALID_TOKEN") unauthenticated (
      ite (str_discrete code "AUTH_TOKEN_EXPIRED") unauthenticated (
        ite (str_discrete code "AUTH_EMAIL_NOT_VERIFIED") forbidden (
          ite (str_discrete code "AUTH_PRINCIPAL_NOT_MAPPED") forbidden
            (ite (str_discrete code "AUTH_UNAVAILABLE") temporarily_unavailable unknown)))))

abbrev of_fetch_error : FetchErrorCode → ErrorCode
of_fetch_error FetchErrorCode.unauthenticated = unauthenticated
of_fetch_error FetchErrorCode.token_unavailable = token_unavailable
of_fetch_error FetchErrorCode.network_request_failed = temporarily_unavailable

-- `WS_TICKET_RESPONSE_SCHEMA`
unfoldable pub parse_ticket : Json → Option Ticket
unfolding trimmed_text prop
parse_ticket payload = do
  ticket ← trimmed_text (prop "ticket" payload)
  expires_at ← trimmed_text (prop "expiresAt" payload)
  some (record { ticket = ticket; expires_at = expires_at })

abbrev of_ticket : ℕ → Option Ticket → Result
of_ticket status none = error_of unexpected_response "WSチケットAPIレスポンスの形式が不正です。" (some status)
of_ticket status (some ticket) = issued ticket

abbrev of_backend_error : ℕ → Option BackendError → Result
of_backend_error status none =
    error_of unexpected_response "WSチケットAPIエラーレスポンスの形式が不正です。" (some status)
of_backend_error status (some e) = refused (record {
  code = map_backend_error_code e.code;
  message = e.message;
  backend_code = some e.code;
  request_id = some e.request_id;
  status = some status;
})

abbrev of_body : Response → Option Json → Result
of_body response none =
    error_of unexpected_response "認証APIから不正なレスポンスを受信しました。" (some response.status)
of_body response (some payload) =
    if response.ok
    then of_ticket response.status (parse_ticket payload)
    else of_backend_error response.status (parse_backend_error payload)

abbrev pub of_fetch : FetchResult → Result
of_fetch (failed code) = error_of (of_fetch_error code) (fetch_error_message code) none
of_fetch (fetched response) = of_body response response.body

abbrev pub with_endpoint : Network → Bool → UrlResult String → Result
with_endpoint net force_refresh (err message) = error_of unknown message none
with_endpoint net force_refresh (ok endpoint_url) =
    of_fetch (authenticated_fetch net "POST" endpoint_url force_refresh)

-- `raw_url` is NEXT_PUBLIC_API_URL.
unfoldable pub issue_ws_ticket : UrlApi → Option String → Network → Option Bool → Result
unfolding map_backend_error_code parse_ticket parse_backend_error authenticated_fetch
issue_ws_ticket api raw_url net force_refresh =
    with_endpoint net (or_else force_refresh false)
      (Url.◌>>=◌ (resolve_api_base_url api raw_url) (to_ws_ticket_url api))
