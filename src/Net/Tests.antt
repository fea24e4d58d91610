-- ===== src/Net/Tests.antt =====
-- The URL of the socket at a concrete base.
use link_lynx_ai.Common.{false, none, ◌≡◌, ◌⊎◌, refl, trim, is_empty, str_discrete}
use link_lynx_ai.Net.Url.{Url, UrlApi, ok, resolve_web_socket_url}
use link_lynx_ai.Net.PathLaws.{has_double_slash, resolve_web_socket_url_lem}

abbrev base : Url
base = record {
  protocol = "https:";
  username = "";
  password = "";
  hostname = "api.example";
  port = "8080";
  pathname = "/v1//";
  search = "?a=b";
  hash = "";
}

abbrev socket : Url
socket = record base { protocol = "wss:"; pathname = "/v1/ws"; search = "" }

abbrev api : UrlApi
api = record {
  parse = λ s. ok base;
  format = λ u. u.pathname;
  encode = λ s. s;
  url_issue = λ s. none;
}

resolve_web_socket_url_example :
    (((base.protocol ≡ "https:") × (socket.protocol ≡ "wss:"))
      ⊎ ((base.protocol ≡ "http:") × (socket.protocol ≡ "ws:")))
    × (socket.hostname ≡ base.hostname)
    × (socket.port ≡ base.port)
    × (is_empty (trim socket.hostname) ≡ false)
    × (socket.username ≡ "")
    × (socket.password ≡ "")
    × (socket.search ≡ "")
    × (socket.hash ≡ "")
    × (has_double_slash socket.pathname ≡ false)
unfolding resolve_web_socket_url str_discrete
resolve_web_socket_url_example =
    resolve_web_socket_url_lem api "https://api.example/v1//?a=b" base socket refl refl
