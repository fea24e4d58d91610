-- ===== src/Auth/Tests.antt =====
-- The endpoints of entities/auth at concrete responses.
use link_lynx_ai.Common.{true, false, none, some, ◌≡◌, refl, str_discrete}
use link_lynx_ai.Timeline.Contract.{is_positive_decimal, is_strict_decimal_string}
use link_lynx_ai.Net.Json.{Json, str, obj, bool, field, end, any_text, prop}
use link_lynx_ai.Net.Url.{Url, UrlApi, ok, resolve_api_base_url, to_ws_ticket_url}
use link_lynx_ai.Net.Fetch.{Response, Network}
use link_lynx_ai.Auth.WsTicket.{Ticket, parse_ticket, issue_ws_ticket}
use link_lynx_ai.Auth.Principal.{Principal, ensure_principal_provisioned_for_current_user}
use link_lynx_ai.Auth.Laws.{
  IsAnswer, issue_ws_ticket-issued, ensure_principal_provisioned_for_current_user-id,
}

abbrev pub base : Url
base = record {
  protocol = "https:";
  username = "";
  password = "";
  hostname = "api.example";
  port = "8080";
  pathname = "/";
  search = "";
  hash = "";
}

abbrev pub api : UrlApi
api = record {
  parse = λ s. ok base;
  format = λ u. u.pathname;
  encode = λ s. s;
  url_issue = λ s. none;
}

-- A signed-in user, and a network that answers every request alike.
abbrev pub network : Json → Network
network body = record {
  current_user = some (λ force. some "token");
  fetch = λ request. some (record { ok = true; status = 200; body = some body });
}

abbrev ticket_body : Json
ticket_body = obj (field "ticket" (str "t1") (field "expiresAt" (str "soon") end))

abbrev ticket : Ticket
ticket = record { ticket = "t1"; expires_at = "soon" }

abbrev principal_body : Json
principal_body = obj (
    field "ok" (bool true) (
      field "request_id" (str "r1")
        (field "principal_id" (str "42") (field "firebase_uid" (str "u1") end))))

abbrev principal : Principal
principal = record { principal_id = "42"; firebase_uid = "u1"; request_id = "r1" }

issue_ws_ticket-issued_example :
    (r : Response) × (payload : Json) × IsAnswer (network ticket_body) "POST" false r
    × (r.ok ≡ true)
    × (r.body ≡ some payload)
    × (parse_ticket payload ≡ some ticket)
unfolding issue_ws_ticket resolve_api_base_url to_ws_ticket_url str_discrete
issue_ws_ticket-issued_example =
    issue_ws_ticket-issued api (some "https://api.example") (network ticket_body) none ticket refl

ensure_principal_provisioned_for_current_user-id_example :
    (r : Response) × (payload : Json) × IsAnswer (network principal_body) "GET" true r
    × (r.ok ≡ true)
    × (r.body ≡ some payload)
    × (any_text (prop "principal_id" payload) ≡ some "42")
    × (is_positive_decimal "42" ≡ true)
unfolding ensure_principal_provisioned_for_current_user resolve_api_base_url str_discrete
    is_strict_decimal_string
ensure_principal_provisioned_for_current_user-id_example =
    ensure_principal_provisioned_for_current_user-id api (some "https://api.example")
      (network principal_body) (some true) principal refl
