-- ===== src/Realtime/Steps/Invariant.antt =====
-- ws-auth-bridge.tsx: how the timer, the socket and the flags of `WsAuthBridge` fit in its runs.
use link_lynx_ai.Common.{
  ℕ, ◌<◌, String, Bool, true, false, Option, none, some, ◌≡◌, arith, Option-cases, inl, inr, lookup,
  ℕ_discrete, is_some, not, ◌&&◌, ◌⊎◌,
}
use link_lynx_ai.Realtime.Bridge.{Bridge, initial, finish_connect_attempt}
use link_lynx_ai.Auth.WsTicket
use link_lynx_ai.Auth.WsTicket.{issued, refused}
use link_lynx_ai.Net.Url.{UrlResult, ok, err}
use link_lynx_ai.Timeline.Contract.{AuthStore}
use link_lynx_ai.Realtime.Target.{Target}
use link_lynx_ai.Realtime.Handlers.{
  CloseEvent, Payload, drop_socket, after_drop, resume_reauthenticate, handle_socket_close, on_open,
  on_error, on_message,
}
use link_lynx_ai.Realtime.Connect.{
  connect, resume_connect, fire_reconnect_timer, subscription_effect, update_countdown, clean_up,
  connect_effect, retry_now,
}
use link_lynx_ai.Realtime.Steps.{
  Event, mounts, reruns, ticket_arrives, opens, receives, closes, fails, token_arrives, timer_fires,
  subscribes, counts_down, retries, handle, step, Reach, start, next,
}

abbrev pub IsBelow : Option ℕ → ℕ → Type 0
IsBelow none n = Unit
IsBelow (some s) n = s < n

pub record IsSound (b : Bridge) : Type 0 where
  -- A page that is on its way to the login has no socket and waits for no reconnect.
  pub left_timer : (b.redirecting && is_some b.reconnect_timer) ≡ false
  pub left_socket : (b.redirecting && is_some b.socket) ≡ false
  -- So has a page that wants no connection.
  pub off_timer : (not b.should_connect && is_some b.reconnect_timer) ≡ false
  pub off_socket : (not b.should_connect && is_some b.socket) ≡ false
  pub off_flight : (not b.should_connect && b.connect_in_flight) ≡ false
  -- The countdown that is shown is that of the pending timer.
  pub counted : (b.retry_deadline_at_ms ≡ none) ⊎ (b.retry_deadline_at_ms ≡ b.reconnect_timer)
  pub created : IsBelow b.socket b.next_socket

connect-IsSound : (b : Bridge) → IsSound b → IsSound (connect b)
unfolding connect
connect-IsSound b v = ground arith

clean_up-IsSound : (b : Bridge) → IsSound b → IsSound (clean_up b)
unfolding clean_up
clean_up-IsSound b v = ground arith

connect_effect-IsSound : (d : Bool) (b : Bridge) → IsSound b → IsSound (connect_effect d b)
unfolding connect_effect
connect_effect-IsSound true b v =
    connect-IsSound (record b { should_connect = true }) (ground arith)
connect_effect-IsSound false b v = ground arith

resume_connect-IsSound :
    (g : ℕ) (r : WsTicket.Result) (o : UrlResult (Unit {0})) (now : ℕ) (b : Bridge)
    → IsSound b
    → IsSound (resume_connect g r o now b)
unfolding resume_connect
resume_connect-IsSound g (refused e) o now b v = ground arith
resume_connect-IsSound g (issued t) (err m) now b v = ground arith
resume_connect-IsSound g (issued t) (ok u) now b v = ground arith

on_open-IsSound : (s g : ℕ) (t : String) (b : Bridge) → IsSound b → IsSound (on_open s g t b)
unfolding on_open
on_open-IsSound s g t b v = ground arith

on_error-IsSound : (s g : ℕ) (b : Bridge) → IsSound b → IsSound (on_error s g b)
unfolding on_error
on_error-IsSound s g b v = ground arith

on_message-IsSound :
    (a : AuthStore) (t : Option Target) (s : ℕ) (p : Option Payload) (b : Bridge)
    → IsSound b
    → IsSound (on_message a t s p b)
unfolding on_message
on_message-IsSound a none s p b v = ground arith
on_message-IsSound a (some t) s p b v = ground arith

finish-IsSound : (g : ℕ) (b : Bridge) → IsSound b → IsSound (finish_connect_attempt g b)
unfolding finish_connect_attempt
finish-IsSound g b v = ground arith

drop_socket-IsSound :
    (s g : ℕ) (e : CloseEvent) (b : Bridge) → IsSound b → IsSound (drop_socket s g e b)
unfolding drop_socket
drop_socket-IsSound s g e b v = ground arith

after_drop-IsSound :
    (now : ℕ) (e : CloseEvent) (b : Bridge) → IsSound b → IsSound (after_drop now e b)
unfolding after_drop
after_drop-IsSound now e b v = ground arith

close-IsSound :
    (now s g : ℕ) (e : CloseEvent) (b : Bridge)
    → IsSound b
    → IsSound (handle_socket_close now s g e b)
unfolding handle_socket_close
close-IsSound now s g e b v = ground (
  arith,
  finish-IsSound g (record b { intentionally_closing = none }) (ground arith),
  after_drop-IsSound now e (drop_socket s g e b) (drop_socket-IsSound s g e b v),
)

token-IsSound :
    (s : ℕ) (t : Option (Option String)) (b : Bridge)
    → IsSound b
    → IsSound (resume_reauthenticate s t b)
unfolding resume_reauthenticate
token-IsSound s none b v = ground arith
token-IsSound s (some none) b v = ground arith
token-IsSound s (some (some t)) b v = ground arith

timer-IsSound : (b : Bridge) → IsSound b → IsSound (fire_reconnect_timer b)
unfolding fire_reconnect_timer
timer-IsSound b v = ground arith

subscription-IsSound :
    (o : Bool) (t : Option Target) (b : Bridge) → IsSound b → IsSound (subscription_effect o t b)
unfolding subscription_effect
subscription-IsSound o t b v = ground arith

countdown-IsSound : (now : ℕ) (b : Bridge) → IsSound b → IsSound (update_countdown now b)
unfolding update_countdown
countdown-IsSound now b v = ground arith

retry-IsSound : (b : Bridge) → IsSound b → IsSound (retry_now b)
unfolding retry_now
retry-IsSound b v = ground arith

handle-IsSound :
    (s : ℕ) (h : ℕ → String → Bridge → Bridge) (b : Bridge)
    → IsSound b
    → ((g : ℕ) (t : String) → IsSound (h g t b))
    → IsSound (handle s h b)
handle-IsSound s h b v f = elim (Option-cases (lookup ℕ_discrete s b.bound)) [
  | inl e ↦ rw (e, handle) v
  | inr ((g, t), e) ↦ rw (e, handle) (f g t)
]

step-IsSound : (b : Bridge) (e : Event) → IsSound b → IsSound (step b e)
unfolding step
step-IsSound b (mounts d) v = connect_effect-IsSound d b v
step-IsSound b (reruns d) v = connect_effect-IsSound d (clean_up b) (clean_up-IsSound b v)
step-IsSound b (ticket_arrives g r o now) v = ground (arith, resume_connect-IsSound g r o now b v)
step-IsSound b (opens s) v = handle-IsSound s (on_open s) b v (λ g t. on_open-IsSound s g t b v)
step-IsSound b (receives a t s p) v = on_message-IsSound a t s p b v
step-IsSound b (closes now s e) v =
    handle-IsSound s (λ g _. handle_socket_close now s g e) b v (λ g t. close-IsSound now s g e b v)
step-IsSound b (fails s) v =
    handle-IsSound s (λ g _. on_error s g) b v (λ g t. on_error-IsSound s g b v)
step-IsSound b (token_arrives s t) v = token-IsSound s t b v
step-IsSound b timer_fires v = timer-IsSound b v
step-IsSound b (subscribes o t) v = subscription-IsSound o t b v
step-IsSound b (counts_down now) v = countdown-IsSound now b v
step-IsSound b retries v = retry-IsSound b v

initial-IsSound : IsSound (initial false)
unfolding initial
initial-IsSound = ground arith

-- In every reachable state: once the page is leaving for the login, or no connection is wanted, no
-- socket is held and no reconnect is pending (and in the second case no attempt is in flight); a
-- countdown is shown only for the pending reconnect; and a socket in use has been created.
pub Reach-IsSound : {b : Bridge} → Reach b → IsSound b
Reach-IsSound start = initial-IsSound
Reach-IsSound (next {b} e r) = step-IsSound b e (Reach-IsSound r)
