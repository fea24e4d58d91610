-- ===== src/Invites.antt =====
-- features/invite-flow/api/join-invite.ts and features/invite-flow/model/join-invite.ts: the request
-- to join a guild by an invite.
mod Tests
use Prim.Native.String
use link_lynx_ai.Common.{
  ℕ, String, Bool, true, false, Option, none, some, ite, str_discrete, if◌then◌else◌, ◌≡◌, trim,
  decimal, Option-cases, inl, inr, refl, arith,
}
use link_lynx_ai.Net.Json.{
  Json, BackendError, prop, trimmed_text, any_text, is_true, positive_int, parse_backend_error,
  ◌>>=◌,
}
use link_lynx_ai.Net.Url.{
  Url, UrlApi, UrlResult, ok, err, resolve_api_base_url, strip_slashes, collapse_slashes,
}
use link_lynx_ai.Net.Url
use link_lynx_ai.Net.Fetch.{
  Response, Network, FetchErrorCode, fetch_error_message, FetchResult, fetched, failed,
  authenticated_fetch,
}
use link_lynx_ai.Net.Fetch
use link_lynx_ai.Auth.Laws.{IsAnswer, authenticated_fetch-IsAnswer}

pub data ErrorCode : Type 0 where
  unauthenticated email_not_verified invalid_invite expired_invite : ErrorCode
  temporarily_unavailable rate_limited token_unavailable : ErrorCode
  network_request_failed unexpected_response unknown : ErrorCode

pub record Error : Type 0 where
  pub code : ErrorCode
  pub message : String
  pub status : Option ℕ
  pub backend_code : Option String
  pub request_id : Option String

pub data Status : Type 0 where
  joined already_member : Status

pub record Success : Type 0 where
  pub invite_code : String
  pub guild_id : String
  pub status : Status
  pub request_id : String

pub data Result : Type 0 where
  accepted : Success → Result
  refused : Error → Result

abbrev error_of : ErrorCode → String → Option ℕ → Result
error_of code message status = refused (record {
  code = code;
  message = message;
  status = status;
  backend_code = none;
  request_id = none;
})

unfoldable pub map_backend_invite_join_error_code : String → ErrorCode
map_backend_invite_join_error_code code =
    ite (str_discrete code "AUTH_MISSING_TOKEN") unauthenticated (
      ite (str_discrete code "AUTH_INVALID_TOKEN") unauthenticated (
        ite (str_discrete code "AUTH_TOKEN_EXPIRED") unauthenticated (
          ite (str_discrete code "AUTH_EMAIL_NOT_VERIFIED") email_not_verified (
            ite (str_discrete code "INVITE_INVALID") invalid_invite (
              ite (str_discrete code "INVITE_EXPIRED") expired_invite (
                ite (str_discrete code "RATE_LIMITED") rate_limited (
                  ite (str_discrete code "INVITE_UNAVAILABLE") temporarily_unavailable (
                    ite (str_discrete code "AUTH_UNAVAILABLE") temporarily_unavailable
                      unknown))))))))

abbrev of_fetch_error : FetchErrorCode → ErrorCode
of_fetch_error FetchErrorCode.unauthenticated = unauthenticated
of_fetch_error FetchErrorCode.token_unavailable = token_unavailable
of_fetch_error FetchErrorCode.network_request_failed = network_request_failed

-- `z.enum(["joined", "already_member"])`
abbrev parse_status : Option String → Option Status
parse_status none = none
parse_status (some s) =
    ite (str_discrete s "joined") (some joined)
      (ite (str_discrete s "already_member") (some already_member) none)

-- A property of a property.
abbrev sub_prop : String → Option Json → Option Json
sub_prop k none = none
sub_prop k (some payload) = prop k payload

-- `INVITE_JOIN_RESPONSE_SCHEMA`
unfoldable pub parse_join : Json → Option Success
unfolding trimmed_text prop decimal
parse_join payload =
    if is_true (prop "ok" payload)
    then (do
      request_id ← trimmed_text (prop "request_id" payload)
      invite_code ← trimmed_text (sub_prop "invite_code" (prop "join" payload))
      guild_id ← positive_int (sub_prop "guild_id" (prop "join" payload))
      status ← parse_status (any_text (sub_prop "status" (prop "join" payload)))
      some (record {
        invite_code = invite_code;
        guild_id = decimal guild_id;
        status = status;
        request_id = request_id;
      }))
    else none

abbrev of_join : ℕ → Option Success → Result
of_join status none = error_of unexpected_response "招待参加レスポンスの形式が不正です。" (some status)
of_join status (some data_) = accepted data_

abbrev of_backend_error : ℕ → Option BackendError → Result
of_backend_error status none = error_of unexpected_response "招待参加エラーレスポンスの形式が不正です。" (some status)
of_backend_error status (some e) = refused (record {
  code = map_backend_invite_join_error_code e.code;
  message = e.message;
  status = some status;
  backend_code = some e.code;
  request_id = some e.request_id;
})

abbrev of_body : Response → Option Json → Result
of_body response none =
    error_of unexpected_response "招待APIから不正なレスポンスを受信しました。" (some response.status)
of_body response (some payload) =
    if response.ok
    then of_join response.status (parse_join payload)
    else of_backend_error response.status (parse_backend_error payload)

abbrev of_fetch : FetchResult → Result
of_fetch (failed code) = error_of (of_fetch_error code) (fetch_error_message code) none
of_fetch (fetched response) = of_body response response.body

-- `endsWith`
abbrev ends_with : String → String → Bool
ends_with suffix String.[] = ite (str_discrete String.[] suffix) true false
ends_with suffix (String.◌∷◌ c s) =
    let rest = ends_with suffix s in
    if ite (str_discrete (String.◌∷◌ c s) suffix) true false then true else rest

abbrev api_root : String → String
api_root pathname = if ends_with "/v1" pathname then pathname else String.◌++◌ pathname "/v1"

unfoldable pub to_invite_join_url : UrlApi → String → String → UrlResult String
unfolding strip_slashes collapse_slashes trim
to_invite_join_url api base_url code = Url.◌>>=◌ (api.parse base_url) (λ base. ok (
    api.format (record base {
      pathname = collapse_slashes (
          String.◌++◌ (api_root (strip_slashes base.pathname))
            (String.◌++◌ "/invites/" (String.◌++◌ (api.encode (trim code)) "/join")));
      search = "";
      hash = "";
    })))

abbrev with_endpoint : Network → UrlResult String → Result
with_endpoint net (err message) = error_of unknown message none
with_endpoint net (ok endpoint_url) = of_fetch (authenticated_fetch net "POST" endpoint_url false)

-- `raw_url` is NEXT_PUBLIC_API_URL.
unfoldable pub join_invite : UrlApi → Option String → Network → String → Result
unfolding map_backend_invite_join_error_code parse_join parse_backend_error authenticated_fetch
    to_invite_join_url strip_slashes
join_invite api raw_url net code = with_endpoint net (
    Url.◌>>=◌ (resolve_api_base_url api raw_url)
      (λ base. to_invite_join_url api (strip_slashes base) code))

of_fetch-accepted :
    (f : FetchResult) (s : Success)
    → of_fetch f ≡ accepted s
    → (r : Response) × (payload : Json) × (f ≡ fetched r)
      × (r.ok ≡ true)
      × (r.body ≡ some payload)
      × (parse_join payload ≡ some s)
of_fetch-accepted (failed c) t e = cc
of_fetch-accepted (fetched r) t e = elim (Option-cases r.body) [
  | inl b ↦ absurd (ground arith)
  | inr (p, b) ↦ elim (Option-cases (parse_join p)) [
    | inl q ↦ absurd (ground arith)
    | inr (s, q) ↦ (r, p, refl, ground arith, b, ground arith)
  ]
]

of_endpoint-accepted :
    (net : Network) (u : UrlResult String) (s : Success)
    → with_endpoint net u ≡ accepted s
    → (r : Response) × (payload : Json) × IsAnswer net "POST" false r
      × (r.ok ≡ true)
      × (r.body ≡ some payload)
      × (parse_join payload ≡ some s)
of_endpoint-accepted net (err m) s e = cc
of_endpoint-accepted net (ok url) s e =
    let (r, payload, q, o, b, p) =
      of_fetch-accepted (authenticated_fetch net "POST" url false) s e in
    (r, payload, authenticated_fetch-IsAnswer net "POST" url false r q, o, b, p)

-- An invite is only ever reported as accepted from a successful response to a POST that carried an
-- ID token of the signed-in user, whose body has the form of a join.
pub join_invite-accepted :
    (api : UrlApi) (raw_url : Option String) (net : Network) (code : String) (s : Success)
    → join_invite api raw_url net code ≡ accepted s
    → (r : Response) × (payload : Json) × IsAnswer net "POST" false r
      × (r.ok ≡ true)
      × (r.body ≡ some payload)
      × (parse_join payload ≡ some s)
unfolding join_invite
join_invite-accepted api raw_url net code s e = of_endpoint-accepted net _ s e
