-- ===== src/Net/PathLaws.antt =====
-- The URLs that ws-ticket.ts and ws-auth-bridge.tsx make from the API's base.
use Prim.Native.Char.{code}
use Prim.Native.String
use link_lynx_ai.Common.{
  String, Bool, false, ◌&&◌, ◌||◌, ◌≡◌, ◌⊎◌, refl, arith, ◌==◌, is_empty, trim,
}
use link_lynx_ai.Net.Url.{
  Url, ok, UrlApi, strip_slashes, collapse_slashes, starts_with_slash, sub_path, ws_url_of,
  resolve_web_socket_url,
}

-- Two slashes stand next to each other.
abbrev pub has_double_slash : String → Bool
has_double_slash String.[] = false
has_double_slash (String.◌∷◌ c s) = (code c == b'/' && starts_with_slash s) || has_double_slash s

starts-collapse : (s : String) → starts_with_slash (collapse_slashes s) ≡ starts_with_slash s
unfolding collapse_slashes
starts-collapse String.[] = refl
starts-collapse (String.◌∷◌ c s) = ground (arith, starts-collapse s)

collapse-single : (s : String) → has_double_slash (collapse_slashes s) ≡ false
unfolding collapse_slashes
collapse-single String.[] = refl
collapse-single (String.◌∷◌ c s) = ground (arith, starts-collapse s, collapse-single s)

-- The address that a socket is opened at keeps the host and the port of the API and nothing of its user info,
-- query or fragment, is secure exactly if the API is reached by https, and has no empty path segment.
pub resolve_web_socket_url_lem :
    (api : UrlApi) (raw : String) (base u : Url)
    → api.parse raw ≡ ok base
    → resolve_web_socket_url api raw ≡ ok u
    → (((base.protocol ≡ "https:") × (u.protocol ≡ "wss:"))
        ⊎ ((base.protocol ≡ "http:") × (u.protocol ≡ "ws:")))
      × (u.hostname ≡ base.hostname)
      × (u.port ≡ base.port)
      × (is_empty (trim u.hostname) ≡ false)
      × (u.username ≡ "")
      × (u.password ≡ "")
      × (u.search ≡ "")
      × (u.hash ≡ "")
      × (has_double_slash u.pathname ≡ false)
unfolding resolve_web_socket_url ws_url_of sub_path is_empty
resolve_web_socket_url_lem api raw base u p e =
    let single = collapse-single (String.◌++◌ (strip_slashes base.pathname) "/ws") in ground arith
