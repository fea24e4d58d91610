-- ===== src/Realtime/Steps/Recovery.antt =====
-- ws-auth-bridge.tsx: what `WsAuthBridge` holds in its runs while a connection is wanted.
use link_lynx_ai.Common.{
  ℕ, ◌≤◌, String, Bool, true, false, Option, none, some, ◌≡◌, arith, Option-cases, inl, inr,
  Bool-cases, is_some, ◌||◌, lookup, ℕ_discrete, not, ◌==◌, is_empty, trim,
}
use link_lynx_ai.Realtime.Bridge.{
  Bridge, initial, finish_connect_attempt, redirect_to_login, is_current,
  handle_ticket_issue_failure, clear_reconnect_timer,
}
use link_lynx_ai.Auth.WsTicket
use link_lynx_ai.Auth.WsTicket.{issued, refused}
use link_lynx_ai.Net.Url.{UrlResult, ok, err}
use link_lynx_ai.Timeline.Contract.{AuthStore}
use link_lynx_ai.Realtime.Target.{Target}
use link_lynx_ai.Realtime.Handlers.{
  CloseEvent, Payload, drop_socket, after_drop, resume_reauthenticate, handle_socket_close, on_open,
  on_error, on_message,
}
use link_lynx_ai.Realtime.Connect.{
  connect, open_socket, resume_connect, fire_reconnect_timer, subscription_effect, update_countdown,
  clean_up, connect_effect, retry_now,
}
use link_lynx_ai.Realtime.Steps.{
  Event, mounts, reruns, ticket_arrives, opens, receives, closes, fails, token_arrives, timer_fires,
  subscribes, counts_down, retries, handle, step, Reach, start, next,
}
use link_lynx_ai.Realtime.Connection.{is_deterministic_ws_ticket_auth_error}
use link_lynx_ai.Realtime.Steps.Tracked.{
  IsTracked, connect-IsTracked, clean_up-IsTracked, redirect-IsTracked, finish-IsTracked,
  drop_socket-IsTracked,
}

-- The flag alone is no request: it may stay set after the answer.
abbrev pub is_underway : Bridge → Bool
is_underway b = is_some b.socket || is_some b.reconnect_timer || b.connect_in_flight

abbrev IsUnderway : Bridge → Type 0
IsUnderway b = b.should_connect ≡ true → b.redirecting ≡ false → is_underway b ≡ true

record IsLive (b : Bridge) : Type 0 where
  tracked : IsTracked b
  underway : IsUnderway b

-- Whatever the state was, `connect` leaves an attempt in flight where it may.
connect-IsUnderway : (b : Bridge) → IsUnderway (connect b)
unfolding connect
connect-IsUnderway b = ground arith

redirect-redirecting : (b : Bridge) → (redirect_to_login b).redirecting ≡ true
unfolding redirect_to_login
redirect-redirecting b = ground arith

redirect-IsLive : (b : Bridge) → IsTracked b → IsLive (redirect_to_login b)
redirect-IsLive b v =
    let r = redirect-redirecting b in
    record { tracked = redirect-IsTracked b v; underway = λ _ h. cc (r, h) }

connect_effect-IsLive : (d : Bool) (b : Bridge) → IsTracked b → IsLive (connect_effect d b)
unfolding connect_effect
connect_effect-IsLive true b v = record {
  tracked = connect-IsTracked (record b { should_connect = true }) (ground arith);
  underway = connect-IsUnderway (record b { should_connect = true });
}
connect_effect-IsLive false b v =
    let c = clean_up-IsTracked (record b { should_connect = false }) (ground arith) in ground arith

-- A refused ticket ends in the redirect or in a pending reconnect.
failure-IsLive :
    (now : ℕ) (e : WsTicket.Error) (b : Bridge)
    → IsTracked b
    → IsLive (handle_ticket_issue_failure now e b)
unfolding handle_ticket_issue_failure
failure-IsLive now e b v = elim (Bool-cases (is_deterministic_ws_ticket_auth_error e.code)) [
  | inl auth ↦ rw auth (redirect-IsLive b v)
  | inr later ↦ rw later (ground arith)
]

open-IsLive :
    (g : ℕ) (t : String) (b : Bridge)
    → g ≤ b.connect_generation
    → IsTracked b
    → IsLive (open_socket g t b)
unfolding lookup
open-IsLive g t b h v = ground arith

resume_connect-IsLive :
    (g : ℕ) (r : WsTicket.Result) (o : UrlResult (Unit {0})) (now : ℕ) (b : Bridge)
    → g ≤ b.connect_generation
    → IsLive b
    → IsLive (resume_connect g r o now b)
unfolding resume_connect
resume_connect-IsLive g (refused e) o now b h v = ground (
  arith,
  finish-IsTracked g b v.tracked,
  failure-IsLive now e (finish_connect_attempt g b) (finish-IsTracked g b v.tracked),
)
resume_connect-IsLive g (issued t) (err m) now b h v = ground arith
resume_connect-IsLive g (issued t) (ok u) now b h v =
    ground (arith, open-IsLive g t.ticket b h v.tracked)

on_open-IsLive : (s g : ℕ) (t : String) (b : Bridge) → IsLive b → IsLive (on_open s g t b)
unfolding on_open
on_open-IsLive s g t b v = ground arith

on_error-IsLive : (s g : ℕ) (b : Bridge) → IsLive b → IsLive (on_error s g b)
unfolding on_error
on_error-IsLive s g b v = ground arith

on_message-IsLive :
    (a : AuthStore) (t : Option Target) (s : ℕ) (p : Option Payload) (b : Bridge)
    → IsLive b
    → IsLive (on_message a t s p b)
unfolding on_message
on_message-IsLive a none s p b v = ground arith
on_message-IsLive a (some t) s p b v = ground arith

after_drop-IsLive :
    (now : ℕ) (e : CloseEvent) (b : Bridge) → IsTracked b → IsLive (after_drop now e b)
unfolding after_drop
after_drop-IsLive now e b v = elim (Bool-cases (not b.should_connect || b.redirecting)) [
  | inl off ↦ rw off (record { tracked = v; underway = ground arith })
  | inr on ↦ elim (Bool-cases (e.code == 1008)) [
    | inl policy ↦ rw (on, policy) (redirect-IsLive b v)
    | inr code ↦ rw (on, code) (ground arith)
  ]
]

close-IsLive :
    (now s g : ℕ) (t : String) (e : CloseEvent) (b : Bridge)
    → lookup ℕ_discrete s b.bound ≡ some (g, t)
    → IsLive b
    → IsLive (handle_socket_close now s g e b)
unfolding handle_socket_close finish_connect_attempt
close-IsLive now s g t e b h v = elim (Bool-cases (is_current b.intentionally_closing s)) [
  | inl meant ↦ ground (arith)
  | inr other ↦
      rw other
        (after_drop-IsLive now e (drop_socket s g e b) (drop_socket-IsTracked s g e b v.tracked))
]

token-IsLive :
    (s : ℕ) (t : Option (Option String)) (b : Bridge)
    → IsLive b
    → IsLive (resume_reauthenticate s t b)
unfolding resume_reauthenticate
token-IsLive s none b v = redirect-IsLive b v.tracked
token-IsLive s (some none) b v = redirect-IsLive b v.tracked
token-IsLive s (some (some t)) b v = elim (Bool-cases (is_empty (trim t))) [
  | inl e ↦ rw e (redirect-IsLive b v.tracked)
  | inr e ↦ rw e (ground arith)
]

timer-IsLive : (b : Bridge) → IsLive b → IsLive (fire_reconnect_timer b)
unfolding fire_reconnect_timer
timer-IsLive b v = record {
  tracked = connect-IsTracked (clear_reconnect_timer b) (ground arith);
  underway = connect-IsUnderway (clear_reconnect_timer b);
}

subscription-IsLive :
    (o : Bool) (t : Option Target) (b : Bridge) → IsLive b → IsLive (subscription_effect o t b)
unfolding subscription_effect
subscription-IsLive o t b v = ground arith

countdown-IsLive : (now : ℕ) (b : Bridge) → IsLive b → IsLive (update_countdown now b)
unfolding update_countdown
countdown-IsLive now b v = ground arith

retry-IsLive : (b : Bridge) → IsLive b → IsLive (retry_now b)
unfolding retry_now
retry-IsLive b v = ground (
  arith,
  connect-IsTracked (clear_reconnect_timer b),
  connect-IsUnderway (clear_reconnect_timer b),
)

handle-IsLive :
    (s : ℕ) (h : ℕ → String → Bridge → Bridge) (b : Bridge)
    → IsLive b
    → ((g : ℕ) (t : String) → lookup ℕ_discrete s b.bound ≡ some (g, t) → IsLive (h g t b))
    → IsLive (handle s h b)
handle-IsLive s h b v f = elim (Option-cases (lookup ℕ_discrete s b.bound)) [
  | inl e ↦ rw (e, handle) v
  | inr ((g, t), e) ↦ rw (e, handle) (f g t e)
]

step-IsLive : (b : Bridge) (e : Event) → IsLive b → IsLive (step b e)
unfolding step
step-IsLive b (mounts d) v = connect_effect-IsLive d b v.tracked
step-IsLive b (reruns d) v = connect_effect-IsLive d (clean_up b) (clean_up-IsTracked b v.tracked)
step-IsLive b (ticket_arrives g r o now) v = ground (arith, resume_connect-IsLive g r o now b)
step-IsLive b (opens s) v = handle-IsLive s (on_open s) b v (λ g t _. on_open-IsLive s g t b v)
step-IsLive b (receives a t s p) v = on_message-IsLive a t s p b v
step-IsLive b (closes now s e) v =
    handle-IsLive s (λ g _. handle_socket_close now s g e) b v
      (λ g t h. close-IsLive now s g t e b h v)
step-IsLive b (fails s) v =
    handle-IsLive s (λ g _. on_error s g) b v (λ g t _. on_error-IsLive s g b v)
step-IsLive b (token_arrives s t) v = token-IsLive s t b v
step-IsLive b timer_fires v = timer-IsLive b v
step-IsLive b (subscribes o t) v = subscription-IsLive o t b v
step-IsLive b (counts_down now) v = countdown-IsLive now b v
step-IsLive b retries v = retry-IsLive b v

initial-IsLive : IsLive (initial false)
unfolding initial
initial-IsLive = ground arith

Reach-IsLive : {b : Bridge} → Reach b → IsLive b
Reach-IsLive start = initial-IsLive
Reach-IsLive (next {b} e r) = step-IsLive b e (Reach-IsLive r)

pub Reach-IsTracked : {b : Bridge} → Reach b → IsTracked b
Reach-IsTracked r = (Reach-IsLive r).tracked

-- In every reachable state in which a connection is wanted and the page is not leaving for the
-- login, there is a socket or a pending reconnect, or the flag of an attempt in flight is set.
pub Reach-is_underway :
    {b : Bridge} → Reach b → b.should_connect ≡ true → b.redirecting ≡ false → is_underway b ≡ true
Reach-is_underway r wanted here = (Reach-IsLive r).underway wanted here
