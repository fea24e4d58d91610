-- ===== src/Auth/Laws.antt =====
-- entities/auth/api: when the endpoints answer with data, and what the codes of the backend become.
use link_lynx_ai.Common.{
  String, Bool, true, false, Option, some, ◌≡◌, ◌⊎◌, ◌↔◌, inl, inr, refl, arith, or_else,
  Option-cases,
}
use link_lynx_ai.Timeline.Contract.{is_positive_decimal}
use link_lynx_ai.Net.Json.{Json, any_text, prop}
use link_lynx_ai.Net.Url.{UrlApi, UrlResult, ok, err, resolve_api_base_url, to_protected_ping_url}
use link_lynx_ai.Net.Fetch.{Response, Network, FetchResult, fetched, failed, authenticated_fetch}
use link_lynx_ai.Auth.WsTicket
use link_lynx_ai.Auth.WsTicket.{
  Ticket, issued, parse_ticket, issue_ws_ticket, map_backend_error_code,
}
use link_lynx_ai.Auth.Principal
use link_lynx_ai.Auth.Principal.{
  Principal, provisioned, parse_principal, map_backend_auth_error_code,
  ensure_principal_provisioned_for_current_user,
}

-- A response that the network gave to the request, made with a token of the signed-in user.
abbrev pub IsAnswer : Network → String → Bool → Response → Type 0
IsAnswer net method force_refresh response =
    (get_id_token : Bool → Option String) × (id_token : String) × (url : String) × (net.current_user
      ≡ some get_id_token)
    × (get_id_token force_refresh ≡ some id_token)
    × (net.fetch (record { method = method; url = url; authorization = id_token }) ≡ some response)

pub authenticated_fetch-IsAnswer :
    (net : Network) (method url : String) (force : Bool) (r : Response)
    → authenticated_fetch net method url force ≡ fetched r
    → IsAnswer net method force r
unfolding authenticated_fetch
authenticated_fetch-IsAnswer net method url force r e = elim (Option-cases net.current_user) [
  | inl c ↦ absurd (ground arith)
  | inr (get, c) ↦ elim (Option-cases (get force)) [
    | inl d ↦ absurd (ground arith)
    | inr (token, d) ↦
        let q = net.fetch (record { method = method; url = url; authorization = token }) in
        elim (Option-cases q) [
          | inl f ↦ absurd (ground arith)
          | inr (s, f) ↦ (get, token, url, c, d, ground arith)
        ]
  ]
]

of_fetch-issued :
    (f : FetchResult) (t : Ticket)
    → WsTicket.of_fetch f ≡ issued t
    → (r : Response) × (payload : Json) × (f ≡ fetched r)
      × (r.ok ≡ true)
      × (r.body ≡ some payload)
      × (parse_ticket payload ≡ some t)
of_fetch-issued (failed c) t e = cc
of_fetch-issued (fetched r) t e = elim (Option-cases r.body) [
  | inl b ↦ absurd (ground arith)
  | inr (p, b) ↦ elim (Option-cases (parse_ticket p)) [
    | inl q ↦ absurd (ground arith)
    | inr (s, q) ↦ (r, p, refl, ground arith, b, ground arith)
  ]
]

of_endpoint-issued :
    (net : Network) (force : Bool) (u : UrlResult String) (t : Ticket)
    → WsTicket.with_endpoint net force u ≡ issued t
    → (r : Response) × (payload : Json) × IsAnswer net "POST" force r
      × (r.ok ≡ true)
      × (r.body ≡ some payload)
      × (parse_ticket payload ≡ some t)
of_endpoint-issued net force (err m) t e = cc
of_endpoint-issued net force (ok url) t e =
    let f = authenticated_fetch net "POST" url force in
    let (r, payload, q, o, b, p) = of_fetch-issued f t e in
    (r, payload, authenticated_fetch-IsAnswer net "POST" url force r q, o, b, p)

-- A ticket is only ever issued from a successful response to a POST that carried an ID token of the
-- signed-in user, whose body has the ticket and its expiry.
pub issue_ws_ticket-issued :
    (api : UrlApi) (raw_url : Option String) (net : Network) (force : Option Bool) (t : Ticket)
    → issue_ws_ticket api raw_url net force ≡ issued t
    → (r : Response) × (payload : Json) × IsAnswer net "POST" (or_else force false) r
      × (r.ok ≡ true)
      × (r.body ≡ some payload)
      × (parse_ticket payload ≡ some t)
unfolding issue_ws_ticket
issue_ws_ticket-issued api raw_url net force t e =
    of_endpoint-issued net (or_else force false) _ t e

of_fetch-provisioned :
    (f : FetchResult) (p : Principal)
    → Principal.of_fetch f ≡ provisioned p
    → (r : Response) × (payload : Json) × (f ≡ fetched r)
      × (r.ok ≡ true)
      × (r.body ≡ some payload)
      × (parse_principal payload ≡ some p)
of_fetch-provisioned (failed c) t e = cc
of_fetch-provisioned (fetched r) t e = elim (Option-cases r.body) [
  | inl b ↦ absurd (ground arith)
  | inr (p, b) ↦ elim (Option-cases (parse_principal p)) [
    | inl q ↦ absurd (ground arith)
    | inr (s, q) ↦ (r, p, refl, ground arith, b, ground arith)
  ]
]

parse_principal-id :
    (payload : Json) (p : Principal)
    → parse_principal payload ≡ some p
    → (any_text (prop "principal_id" payload) ≡ some p.principal_id)
      × (is_positive_decimal p.principal_id ≡ true)
unfolding parse_principal
parse_principal-id payload p e = elim (Option-cases (any_text (prop "principal_id" payload))) [
  | inl n ↦ absurd (ground arith)
  | inr (text, n) ↦ ground arith
]

of_endpoint-provisioned :
    (api : UrlApi) (net : Network) (force : Bool) (u : UrlResult String) (p : Principal)
    → Principal.with_endpoint api net force u ≡ provisioned p
    → (r : Response) × (payload : Json) × IsAnswer net "GET" force r
      × (r.ok ≡ true)
      × (r.body ≡ some payload)
      × (any_text (prop "principal_id" payload) ≡ some p.principal_id)
      × (is_positive_decimal p.principal_id ≡ true)
of_endpoint-provisioned api net force (err m) p e = cc
of_endpoint-provisioned api net force (ok url) p e =
    let target = to_protected_ping_url api url in
    let f = authenticated_fetch net "GET" target force in
    let (r, payload, q, o, b, s) = of_fetch-provisioned f p e in
    let (id, positive) = parse_principal-id payload p s in
    (r, payload, authenticated_fetch-IsAnswer net "GET" target force r q, o, b, id, positive)

-- A principal is only ever reported from a successful response to a GET that carried an ID token of
-- the signed-in user, and its id is the text that the response has for it, a positive decimal number.
pub ensure_principal_provisioned_for_current_user-id :
    (api : UrlApi) (raw_url : Option String) (net : Network) (force : Option Bool) (p : Principal)
    → ensure_principal_provisioned_for_current_user api raw_url net force ≡ provisioned p
    → (r : Response) × (payload : Json) × IsAnswer net "GET" (or_else force false) r
      × (r.ok ≡ true)
      × (r.body ≡ some payload)
      × (any_text (prop "principal_id" payload) ≡ some p.principal_id)
      × (is_positive_decimal p.principal_id ≡ true)
unfolding ensure_principal_provisioned_for_current_user
ensure_principal_provisioned_for_current_user-id api raw_url net force p e =
    of_endpoint-provisioned api net (or_else force false) (resolve_api_base_url api raw_url) p e

-- The two endpoints read the backend's codes alike: a ticket is forbidden exactly where the
-- principal's email is not verified or its principal is missing, and either endpoint asks for a new
-- sign-in exactly where the other does.
pub map_backend_error_code-agrees :
    (code : String)
    → let t = map_backend_error_code code in
      let p = map_backend_auth_error_code code in
      ((t ≡ WsTicket.ErrorCode.unauthenticated) ↔ (p ≡ Principal.ErrorCode.unauthenticated))
      × ((t ≡ WsTicket.ErrorCode.forbidden) ↔ (
          (p ≡ Principal.ErrorCode.email_not_verified)
          ⊎ (p ≡ Principal.ErrorCode.principal_not_mapped)))
      × ((t ≡ WsTicket.ErrorCode.temporarily_unavailable)
          ↔ (p ≡ Principal.ErrorCode.auth_unavailable))
unfolding map_backend_error_code map_backend_auth_error_code
map_backend_error_code-agrees code = ground arith
