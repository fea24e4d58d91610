-- ===== src/Realtime/Staleness.antt =====
-- ws-auth-bridge.tsx: sockets and tickets of attempts that are past.
use link_lynx_ai.Common.{ℕ, suc, ◌+◌, true, false, none, some, ◌≡◌, ◌≢◌, arith}
use link_lynx_ai.Auth.WsTicket
use link_lynx_ai.Auth.WsTicket.{issued, refused}
use link_lynx_ai.Net.Url.{ok}
use link_lynx_ai.Realtime.Connection.{closed, compute_reconnect_delay_ms}
use link_lynx_ai.Realtime.Bridge.{Bridge, finish_connect_attempt, clear_reconnect_timer}
use link_lynx_ai.Realtime.Handlers.{CloseEvent, handle_socket_close, drop_socket, after_drop}
use link_lynx_ai.Realtime.Connect.{connect, resume_connect, fire_reconnect_timer, retry_now}

-- The close of a socket that was closed on purpose only ends its attempt: the phase, the
-- subscription, the current socket and the pending reconnect stay as they are.
pub handle_socket_close-intended :
    (now s g : ℕ) (e : CloseEvent) (b : Bridge)
    → b.intentionally_closing ≡ some s
    → let c = handle_socket_close now s g e b in
      (c.connection ≡ b.connection)
      × (c.subscribed_target ≡ b.subscribed_target)
      × (c.socket ≡ b.socket)
      × (c.reconnect_timer ≡ b.reconnect_timer)
      × (c.intentionally_closing ≡ none)
unfolding handle_socket_close finish_connect_attempt
handle_socket_close-intended now s g e b h = ground arith

-- While a connection is wanted, the page is not leaving for the login and no socket is being closed
-- on purpose, the close of a socket that is not the current one, with a code other than 1008, turns
-- the phase to closed, forgets the subscription and schedules a reconnect, although the current
-- socket stays in use.
pub handle_socket_close-foreign :
    (now s r g : ℕ) (e : CloseEvent) (b : Bridge)
    → b.socket ≡ some r
    → r ≢ s
    → b.intentionally_closing ≡ none
    → b.should_connect ≡ true
    → b.redirecting ≡ false
    → e.code ≢ 1008
    → let c = handle_socket_close now s g e b in
      (c.socket ≡ some r)
      × (c.subscribed_target ≡ none)
      × (c.connection.phase ≡ closed)
      × (c.reconnect_timer ≡ some (now + compute_reconnect_delay_ms (suc b.reconnect_attempt)))
unfolding handle_socket_close drop_socket after_drop finish_connect_attempt
handle_socket_close-foreign now s r g e b h d i w n c = ground arith

-- Let an attempt be in flight while a connection is wanted and the page is not leaving for the login,
-- and let the ticket of another, given-up attempt come. If the socket that it opens is closed, not
-- on purpose and with a code other than 1008, and the timer fires, then no socket and no timer is
-- left and no further ticket was asked for; the flag of the attempt in flight is still set, and with
-- it neither `connect` nor the button of the banner does anything.
pub fire_reconnect_timer-stuck :
    (g now later : ℕ) (t : WsTicket.Ticket) (u : Unit {0}) (e : CloseEvent) (b : Bridge)
    → b.connect_generation ≢ g
    → b.connect_in_flight ≡ true
    → b.should_connect ≡ true
    → b.redirecting ≡ false
    → b.intentionally_closing ≢ some b.next_socket
    → e.code ≢ 1008
    → let opened = resume_connect g (issued t) (ok u) now b in
      let c = fire_reconnect_timer (handle_socket_close later b.next_socket g e opened) in
      (c.socket ≡ none)
      × (c.reconnect_timer ≡ none)
      × (c.effects ≡ b.effects)
      × (c.connect_in_flight ≡ true)
      × (connect c ≡ c)
      × (retry_now c ≡ c)
unfolding resume_connect handle_socket_close drop_socket after_drop finish_connect_attempt
    fire_reconnect_timer connect clear_reconnect_timer retry_now
fire_reconnect_timer-stuck g now later t u e b h f w n i c = ground arith
