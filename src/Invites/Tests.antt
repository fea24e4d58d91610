-- ===== src/Invites/Tests.antt =====
-- An invite that is accepted.
use link_lynx_ai.Common.{true, false, none, some, ◌≡◌, refl, str_discrete}
use link_lynx_ai.Net.Json.{Json, str, obj, bool, num, field, end}
use link_lynx_ai.Net.Url.{Url, UrlApi, ok, resolve_api_base_url}
use link_lynx_ai.Net.Fetch.{Response, Network}
use link_lynx_ai.Auth.Laws.{IsAnswer}
use link_lynx_ai.Invites.{Success, joined, parse_join, join_invite, join_invite-accepted}

abbrev base : Url
base = record {
  protocol = "https:";
  username = "";
  password = "";
  hostname = "api.example";
  port = "8080";
  pathname = "/";
  search = "";
  hash = "";
}

abbrev api : UrlApi
api = record {
  parse = λ s. ok base;
  format = λ u. u.pathname;
  encode = λ s. s;
  url_issue = λ s. none;
}

abbrev body : Json
body = obj (
    field "ok" (bool true) (
      field "request_id" (str "r1") (
        field "join"
          (obj (
            field "invite_code" (str "abc")
              (field "guild_id" (num 12) (field "status" (str "joined") end))))
          end)))

abbrev network : Network
network = record {
  current_user = some (λ force. some "token");
  fetch = λ request. some (record { ok = true; status = 200; body = some body });
}

abbrev success : Success
success = record { invite_code = "abc"; guild_id = "12"; status = joined; request_id = "r1" }

join_invite-accepted_example :
    (r : Response) × (payload : Json) × IsAnswer network "POST" false r
    × (r.ok ≡ true)
    × (r.body ≡ some payload)
    × (parse_join payload ≡ some success)
unfolding join_invite resolve_api_base_url str_discrete
join_invite-accepted_example =
    join_invite-accepted api (some "https://api.example") network "abc" success refl
