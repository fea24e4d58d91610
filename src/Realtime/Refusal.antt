-- ===== src/Realtime/Refusal.antt =====
-- ws-auth-bridge.tsx: how a connection that is refused ends.
use link_lynx_ai.Common.{
  ℕ, suc, ◌+◌, Bool, true, false, none, some, ◌≡◌, ◌≢◌, arith, Bool-cases, inl, inr, ◌==◌,
  if◌then◌else◌, List, [], ◌∷◌, Option, Option-cases,
}
use link_lynx_ai.Auth.WsTicket
use link_lynx_ai.Auth.WsTicket.{issued, refused}
use link_lynx_ai.Net.Url.{UrlResult}
use link_lynx_ai.Realtime.Connection.{
  compute_reconnect_delay_ms, is_deterministic_ws_ticket_auth_error,
  should_show_banner_for_ticket_error,
}
use link_lynx_ai.Realtime.Bridge.{
  Bridge, Effect, request_ticket, clear_reconnect_timer, redirect_to_login,
  handle_ticket_issue_failure, finish_connect_attempt,
}
use link_lynx_ai.Realtime.Handlers.{CloseEvent, handle_socket_close, drop_socket, after_drop}
use link_lynx_ai.Realtime.Connect.{connect, resume_connect, fire_reconnect_timer}

-- The page is leaving for the login, and nothing of the connection is left.
abbrev pub HasLeft : Bridge → Type 0
HasLeft b =
    (b.redirecting ≡ true)
    × (b.socket ≡ none)
    × (b.reconnect_timer ≡ none)
    × (b.connect_in_flight ≡ false)

-- The next attempt is due after the delay of its number, and the banner counts down to it exactly
-- if it is to be shown.
abbrev pub IsWaiting : ℕ → Bool → ℕ → Bridge → Type 0
IsWaiting now banner attempt after =
    let due = now + compute_reconnect_delay_ms (suc attempt) in
    (after.redirecting ≡ false)
    × (after.reconnect_timer ≡ some due)
    × (after.reconnect_attempt ≡ suc attempt)
    × (after.is_service_unavailable ≡ banner)
    × (after.retry_deadline_at_ms ≡ (if banner then some due else none))
    × (after.should_connect ≡ true)
    × (after.connect_in_flight ≡ false)

abbrev first_of : List Effect → Option Effect
first_of [] = none
first_of (e ∷ effects) = some e

-- When its timer fires, a new attempt begins, and its ticket is asked for.
abbrev pub Retries : Bridge → Type 0
Retries b =
    let c = fire_reconnect_timer b in
    (c.connect_generation ≡ suc b.connect_generation)
    × (c.connect_in_flight ≡ true)
    × (c.reconnect_timer ≡ none)
    × (first_of c.effects ≡ some (request_ticket (suc b.connect_generation)))

abbrev pub IsRetried : ℕ → Bool → ℕ → Bridge → Type 0
IsRetried now banner attempt after = IsWaiting now banner attempt after × Retries after

fire-Retries :
    (b : Bridge)
    → b.should_connect ≡ true
    → b.redirecting ≡ false
    → b.connect_in_flight ≡ false
    → Retries b
unfolding fire_reconnect_timer connect clear_reconnect_timer
fire-Retries b w n f = elim (Option-cases b.socket) [
  | inl e ↦ ground arith
  | inr (s, e) ↦ ground arith
]

IsWaiting-IsRetried :
    (now : ℕ) (banner : Bool) (k : ℕ) (b : Bridge)
    → IsWaiting now banner k b
    → IsRetried now banner k b
IsWaiting-IsRetried now banner k b h = let (n, _, _, _, _, w, f) = h in (h, fire-Retries b w n f)

redirect-HasLeft : (b : Bridge) → b.redirecting ≡ false → HasLeft (redirect_to_login b)
unfolding redirect_to_login
redirect-HasLeft b h = ground arith

abbrev pub Follows : Bool → Type 0 → Type 0 → Type 0
Follows true P Q = P
Follows false P Q = Q

Follows-map :
    (c : Bool) (P : Type 0) (now : ℕ) (banner : Bool) (k : ℕ) (b : Bridge)
    → Follows c P (IsWaiting now banner k b)
    → Follows c P (IsRetried now banner k b)
Follows-map true P now banner k b h = h
Follows-map false P now banner k b h = IsWaiting-IsRetried now banner k b h

failure :
    (now k : ℕ) (e : WsTicket.Error) (b : Bridge)
    → b.should_connect ≡ true
    → b.redirecting ≡ false
    → b.reconnect_attempt ≡ k
    → b.connect_in_flight ≡ false
    → Follows
        (is_deterministic_ws_ticket_auth_error e.code)
        (HasLeft (handle_ticket_issue_failure now e b))
        (IsWaiting now
          (should_show_banner_for_ticket_error e.code)
          k
          (handle_ticket_issue_failure now e b))
unfolding handle_ticket_issue_failure
failure now k e b w n a f = elim (Bool-cases (is_deterministic_ws_ticket_auth_error e.code)) [
  | inl auth ↦ rw auth (redirect-HasLeft b n)
  | inr later ↦ rw later (ground arith)
]

-- What `finish_connect_attempt` and `drop_socket` leave alone, and the attempt that they end.
abbrev Ends : Bridge → Bridge → Type 0
Ends b c =
    (c.should_connect ≡ b.should_connect)
    × (c.redirecting ≡ b.redirecting)
    × (c.reconnect_attempt ≡ b.reconnect_attempt)
    × (c.connect_in_flight ≡ false)

finish-Ends : (g : ℕ) (b : Bridge) → b.connect_generation ≡ g → Ends b (finish_connect_attempt g b)
unfolding finish_connect_attempt
finish-Ends g b own = ground arith

drop_socket-Ends :
    (s g : ℕ) (e : CloseEvent) (b : Bridge)
    → b.connect_generation ≡ g
    → Ends b (drop_socket s g e b)
unfolding drop_socket finish_connect_attempt
drop_socket-Ends s g e b own = ground arith

refused-failure :
    (g now : ℕ) (e : WsTicket.Error) (o : UrlResult (Unit {0})) (b : Bridge)
    → b.should_connect ≡ true
    → b.redirecting ≡ false
    → resume_connect g (refused e) o now b
      ≡ handle_ticket_issue_failure now e (finish_connect_attempt g b)
unfolding resume_connect
refused-failure g now e o b w n = ground arith

-- While a connection is wanted and the page is not already leaving for the login, a refused ticket of
-- the present attempt leads to the login if signing in again is the only remedy (unauthenticated, token unavailable or forbidden). Otherwise
-- the attempt is over and the timer is set by the delay of its number, with the banner for an error
-- of the service; and when the timer fires in this state, a new attempt begins and asks for a ticket.
pub resume_connect-refused :
    (g now : ℕ) (e : WsTicket.Error) (o : UrlResult (Unit {0})) (b : Bridge)
    → b.connect_generation ≡ g
    → b.should_connect ≡ true
    → b.redirecting ≡ false
    → Follows
        (is_deterministic_ws_ticket_auth_error e.code)
        (HasLeft (resume_connect g (refused e) o now b))
        (IsRetried now
          (should_show_banner_for_ticket_error e.code)
          b.reconnect_attempt
          (resume_connect g (refused e) o now b))
resume_connect-refused g now e o b own w n =
    let (kw, kn, ka, kf) = finish-Ends g b own in
    rw (refused-failure g now e o b w n) (
      Follows-map (is_deterministic_ws_ticket_auth_error e.code) _ now _ b.reconnect_attempt _
        (failure now b.reconnect_attempt e (finish_connect_attempt g b) (cc) (cc) ka kf))

after_drop-policy :
    (now : ℕ) (e : CloseEvent) (b : Bridge)
    → b.should_connect ≡ true
    → b.redirecting ≡ false
    → (e.code == 1008) ≡ true
    → after_drop now e b ≡ redirect_to_login b
unfolding after_drop
after_drop-policy now e b w n c = ground arith

after_drop-later :
    (now : ℕ) (e : CloseEvent) (b : Bridge)
    → b.should_connect ≡ true
    → b.redirecting ≡ false
    → (e.code == 1008) ≡ false
    → b.connect_in_flight ≡ false
    → IsWaiting now (e.code == 1011) b.reconnect_attempt (after_drop now e b)
unfolding after_drop
after_drop-later now e b w n c f = ground arith

after_drop-Follows :
    (now k : ℕ) (e : CloseEvent) (b : Bridge)
    → b.should_connect ≡ true
    → b.redirecting ≡ false
    → b.reconnect_attempt ≡ k
    → b.connect_in_flight ≡ false
    → Follows
        (e.code == 1008)
        (HasLeft (after_drop now e b))
        (IsWaiting now (e.code == 1011) k (after_drop now e b))
after_drop-Follows now k e b w n a f = elim (Bool-cases (e.code == 1008)) [
  | inl policy ↦ rw (policy, after_drop-policy now e b w n policy) (redirect-HasLeft b n)
  | inr later ↦ rw later (rw⁻¹ a (after_drop-later now e b w n later f))
]

close-after_drop :
    (now s g : ℕ) (e : CloseEvent) (b : Bridge)
    → b.intentionally_closing ≢ some s
    → handle_socket_close now s g e b ≡ after_drop now e (drop_socket s g e b)
unfolding handle_socket_close
close-after_drop now s g e b i = ground arith

-- While a connection is wanted and the page is not already leaving for the login, a close that was
-- not asked for, of a socket of the present attempt, leads to the login if its code is 1008. Otherwise the attempt is over and the timer is set by the
-- delay of its number, with the banner if the code is 1011; and when the timer fires in this state,
-- a new attempt begins and asks for a ticket.
pub handle_socket_close-unintended :
    (now s g : ℕ) (e : CloseEvent) (b : Bridge)
    → b.connect_generation ≡ g
    → b.intentionally_closing ≢ some s
    → b.should_connect ≡ true
    → b.redirecting ≡ false
    → Follows
        (e.code == 1008)
        (HasLeft (handle_socket_close now s g e b))
        (IsRetried now (e.code == 1011) b.reconnect_attempt (handle_socket_close now s g e b))
handle_socket_close-unintended now s g e b own i w n =
    let (kw, kn, ka, kf) = drop_socket-Ends s g e b own in
    rw (close-after_drop now s g e b i) (
      Follows-map (e.code == 1008) _ now _ b.reconnect_attempt _
        (after_drop-Follows now b.reconnect_attempt e (drop_socket s g e b) (cc) (cc) ka kf))
