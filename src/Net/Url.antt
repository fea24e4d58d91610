-- ===== src/Net/Url.antt =====
-- URLs: the platform's `URL` is a parameter, the changes that the client makes to one are modelled.
use Prim.Native.Char.{code}
use Prim.Native.String
use link_lynx_ai.Common.{
  String, Bool, false, ◌&&◌, ◌||◌, Option, none, some, ite, str_discrete, trim, is_empty,
  if◌then◌else◌, ◌==◌, not,
}

-- `port` is empty for the default of the protocol. The modelled code sets a protocol only to one with
-- the same default, so the port stays.
pub record Url : Type 0 where
  pub protocol : String
  pub username : String
  pub password : String
  pub hostname : String
  pub port : String
  pub pathname : String
  pub search : String
  pub hash : String

-- A value, or the message of the error that was thrown.
pub data UrlResult {ℓ} (A : Type ℓ) : Type ℓ where
  ok : A → UrlResult A
  err : String → UrlResult A

infixl 5 ◌>>=◌
abbrev pub ◌>>=◌ {ℓ κ} : {A : Type ℓ} {B : Type κ} → UrlResult A → (A → UrlResult B) → UrlResult B
ok a >>= k = k a
err e >>= k = err e

-- `new URL(s)`, `url.toString()`, `encodeURIComponent`, and the issue that `z.string().url()` finds.
pub record UrlApi : Type 0 where
  pub parse : String → UrlResult Url
  pub format : Url → String
  pub encode : String → String
  pub url_issue : String → Option String

-- replace(/\/+$/, "")
unfoldable pub strip_slashes : String → String
unfolding is_empty
strip_slashes String.[] = String.[]
strip_slashes (String.◌∷◌ c s) =
    let rest = strip_slashes s in
    if is_empty rest && code c == b'/' then String.[] else String.◌∷◌ c rest

abbrev pub starts_with_slash : String → Bool
starts_with_slash String.[] = false
starts_with_slash (String.◌∷◌ c s) = code c == b'/'

-- replace(/\/{2,}/g, "/")
unfoldable pub collapse_slashes : String → String
collapse_slashes String.[] = String.[]
collapse_slashes (String.◌∷◌ c s) =
    let rest = collapse_slashes s in
    if code c == b'/' && starts_with_slash s then rest else String.◌∷◌ c rest

-- The pathname below the API's base, as all the URL builders make it.
unfoldable pub sub_path : Url → String → String
unfolding strip_slashes collapse_slashes
sub_path base suffix = collapse_slashes (String.◌++◌ (strip_slashes base.pathname) suffix)

module _ (api : UrlApi) where
  abbrev checked_base_url : String → Option String → UrlResult String
  checked_base_url raw none = ok raw
  checked_base_url raw (some reason) = err (String.◌++◌ "NEXT_PUBLIC_API_URL is invalid: " reason)

  -- `none` is an unset NEXT_PUBLIC_API_URL.
  unfoldable pub resolve_api_base_url : Option String → UrlResult String
  unfolding is_empty trim
  resolve_api_base_url none = err "NEXT_PUBLIC_API_URL is required but not set."
  resolve_api_base_url (some raw) =
      if is_empty (trim raw)
      then err "NEXT_PUBLIC_API_URL is required but not set."
      else checked_base_url raw (api.url_issue raw)

  unfoldable pub to_ws_ticket_url : String → UrlResult String
  unfolding sub_path
  to_ws_ticket_url base_url = do
    base ← api.parse base_url
    ok (
        api.format
          (record base { pathname = sub_path base "/auth/ws-ticket"; search = ""; hash = "" }))

  unfoldable pub to_protected_ping_url : String → String
  unfolding strip_slashes
  to_protected_ping_url base_url = String.◌++◌ (strip_slashes base_url) "/protected/ping"

  -- `parsedApiBaseUrl` after the protocol test, with the protocol for the socket.
  abbrev ws_url_with : Url → String → UrlResult Url
  ws_url_with base protocol =
      if not (is_empty base.username) || not (is_empty base.password)
      then err "NEXT_PUBLIC_API_URL must not contain userinfo."
      else if is_empty (trim base.hostname)
      then err "NEXT_PUBLIC_API_URL must include a hostname."
      else ok (record base {
        protocol = protocol;
        pathname = sub_path base "/ws";
        search = "";
        hash = "";
      })

  unfoldable pub ws_url_of : Url → UrlResult Url
  unfolding sub_path is_empty trim
  ws_url_of base = ite (str_discrete base.protocol "https:") (ws_url_with base "wss:") (
      ite (str_discrete base.protocol "http:") (ws_url_with base "ws:")
        (err "NEXT_PUBLIC_API_URL must use http or https protocol."))

  -- The URL before it is made into a string.
  unfoldable pub resolve_web_socket_url : String → UrlResult Url
  unfolding ws_url_of
  resolve_web_socket_url base_url = do base ← api.parse base_url; ws_url_of base
