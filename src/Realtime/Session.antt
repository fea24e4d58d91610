-- ===== src/Realtime/Session.antt =====
-- ws-ticket.ts and ws-auth-bridge.tsx together: the connection of a page whose user is signed out.
use link_lynx_ai.Common.{
  ℕ, String, Bool, true, false, Option, none, ◌≡◌, refl, arith, or_else, ap, subst, sym, ◌∙◌,
}
use link_lynx_ai.Net.Url.{UrlApi, UrlResult, ok, err, resolve_api_base_url, to_ws_ticket_url}
use link_lynx_ai.Net.Url
use link_lynx_ai.Net.Fetch.{Network, FetchErrorCode, failed, authenticated_fetch}
use link_lynx_ai.Auth.WsTicket
use link_lynx_ai.Auth.WsTicket.{refused, issue_ws_ticket}
use link_lynx_ai.Realtime.Connection.{is_deterministic_ws_ticket_auth_error}
use link_lynx_ai.Realtime.Bridge.{Bridge}
use link_lynx_ai.Realtime.Connect.{resume_connect}
use link_lynx_ai.Realtime.Refusal.{HasLeft, Follows, resume_connect-refused}

signed_out :
    (net : Network) (method url : String) (force : Bool)
    → net.current_user ≡ none
    → authenticated_fetch net method url force ≡ failed FetchErrorCode.unauthenticated
unfolding authenticated_fetch
signed_out net method url force n = rw n refl

refusal :
    (net : Network) (url : String) (force : Bool)
    → net.current_user ≡ none
    → (e : WsTicket.Error) × (WsTicket.with_endpoint net force (ok url) ≡ refused e)
      × (e.code ≡ WsTicket.ErrorCode.unauthenticated)
refusal net url force n = (_, ap WsTicket.of_fetch (signed_out net "POST" url force n), refl)

Follows-true : (c : Bool) (P Q : Type 0) → c ≡ true → Follows c P Q → P
Follows-true true P Q e h = h
Follows-true false P Q e h = absurd (ground arith)

leave :
    (g now : ℕ) (r : WsTicket.Result) (e : WsTicket.Error) (o : UrlResult (Unit {0})) (b : Bridge)
    → r ≡ refused e
    → e.code ≡ WsTicket.ErrorCode.unauthenticated
    → b.connect_generation ≡ g
    → b.should_connect ≡ true
    → b.redirecting ≡ false
    → HasLeft (resume_connect g r o now b)
leave g now r e o b q c own w n =
    let h = resume_connect-refused g now e o b own w n in
    subst (λ s. HasLeft (resume_connect g s o now b)) (sym q)
      (Follows-true _ _ _ (ap (λ k. is_deterministic_ws_ticket_auth_error k) c) h)

-- Where the address of the ticket resolves from NEXT_PUBLIC_API_URL, a page that wants a connection
-- while nobody is signed in, and is not already leaving, leaves for the login when its attempt to get a ticket, the present one,
-- ends, and keeps no socket and no pending reconnect.
pub resume_connect-signed_out :
    (api : UrlApi) (raw_url : Option String) (url : String) (net : Network) (force : Option Bool)
    (g now : ℕ) (o : UrlResult (Unit {0})) (b : Bridge)
    → Url.◌>>=◌ (resolve_api_base_url api raw_url) (to_ws_ticket_url api) ≡ ok url
    → net.current_user ≡ none
    → b.connect_generation ≡ g
    → b.should_connect ≡ true
    → b.redirecting ≡ false
    → HasLeft (resume_connect g (issue_ws_ticket api raw_url net force) o now b)
unfolding issue_ws_ticket
resume_connect-signed_out api raw_url url net force g now o b u n own w d =
    let (e, q, c) = refusal net url (or_else force false) n in
    leave g now (issue_ws_ticket api raw_url net force) e o b
      (ap (λ x. WsTicket.with_endpoint net (or_else force false) x) u ∙ q) c own w d
