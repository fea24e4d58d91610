-- ===== src/Realtime/Connect.antt =====
-- ws-auth-bridge.tsx: `connect`, the effects of `WsAuthBridge`, its timers and its button.
use link_lynx_ai.Common.{
  ℕ, suc, ◌-◌, String, Bool, true, false, not, ◌||◌, ◌∷◌, Option, none, some, if◌then◌else◌,
}
use link_lynx_ai.Auth.WsTicket
use link_lynx_ai.Auth.WsTicket.{issued, refused}
use link_lynx_ai.Net.Url.{UrlResult, ok, err}
use link_lynx_ai.Realtime.Connection.{Phase, ready, create_initial_ws_connection_state, seconds_of}
use link_lynx_ai.Realtime.Target.{Target, same_target}
use link_lynx_ai.Realtime.Bridge.{
  subscribe, unsubscribe, send, request_ticket, Bridge, clear_reconnect_timer, close_current_socket,
  start_connect_attempt, finish_connect_attempt, cancel_connect_attempts, set_connecting_state,
  schedule_dependency_unavailable_reconnect, handle_ticket_issue_failure,
}
use link_lynx_ai.Realtime.Handlers.{emit}

abbrev begin_attempt : Bridge → Option (Bridge × ℕ) → Bridge
begin_attempt b none = b
begin_attempt b (some (started, generation)) =
    emit (request_ticket generation)
      (set_connecting_state (close_current_socket (clear_reconnect_timer started)))

-- `connect` up to `await issueWsTicket()`.
unfoldable pub connect : Bridge → Bridge
unfolding start_connect_attempt clear_reconnect_timer close_current_socket set_connecting_state
connect b =
    if not b.should_connect || b.redirecting then b else begin_attempt b (start_connect_attempt b)

-- `bindSocketHandlers` with the new socket.
abbrev pub open_socket : ℕ → String → Bridge → Bridge
open_socket generation ticket b = record b {
  socket = some b.next_socket;
  next_socket = suc b.next_socket;
  bound = (b.next_socket, (generation, ticket)) ∷ b.bound;
}

-- The rest of `connect`. `opening` is the outcome of `resolveWebSocketUrl` and of `new WebSocket`,
-- whose errors are caught alike.
abbrev with_ticket : ℕ → WsTicket.Result → UrlResult (Unit {0}) → ℕ → Bridge → Bridge
with_ticket generation (refused error) opening now b =
    handle_ticket_issue_failure now error (finish_connect_attempt generation b)
with_ticket generation (issued ticket) (err message) now b =
    schedule_dependency_unavailable_reconnect now none message true
      (finish_connect_attempt generation b)
with_ticket generation (issued ticket) (ok done) now b = open_socket generation ticket.ticket b

unfoldable pub resume_connect : ℕ → WsTicket.Result → UrlResult (Unit {0}) → ℕ → Bridge → Bridge
unfolding finish_connect_attempt handle_ticket_issue_failure
    schedule_dependency_unavailable_reconnect
resume_connect generation result opening now b =
    if not b.should_connect || b.redirecting
    then finish_connect_attempt generation b
    else with_ticket generation result opening now b

-- The callback of the reconnect timer.
unfoldable pub fire_reconnect_timer : Bridge → Bridge
unfolding connect clear_reconnect_timer
fire_reconnect_timer b = connect (clear_reconnect_timer b)

abbrev subscribe_to : ℕ → Target → Bridge → Bridge
subscribe_to socket target b =
    emit (send socket (subscribe target)) (record b { subscribed_target = some target })

abbrev unsubscribe_from : ℕ → Target → Bridge → Bridge
unsubscribe_from socket target b =
    emit (send socket (unsubscribe target)) (record b { subscribed_target = none })

-- From the previous target to the active one.
abbrev move_subscription : ℕ → Option Target → Option Target → Bridge → Bridge
move_subscription socket none none b = b
move_subscription socket none (some active) b = subscribe_to socket active b
move_subscription socket (some previous) none b = unsubscribe_from socket previous b
move_subscription socket (some previous) (some active) b =
    if same_target previous active
    then b
    else subscribe_to socket active (unsubscribe_from socket previous b)

abbrev is_ready : Phase → Bool
is_ready ready = true
is_ready _ = false

abbrev subscription_on : Option ℕ → Bool → Option Target → Bridge → Bridge
subscription_on none is_open active b = b
subscription_on (some socket) is_open active b =
    if is_open then move_subscription socket b.subscribed_target active b else b

-- The effect on the active target and the phase; `is_open` tests `socket.readyState`.
unfoldable pub subscription_effect : Bool → Option Target → Bridge → Bridge
subscription_effect is_open active b =
    if is_ready b.connection.phase
    then subscription_on b.socket is_open active b
    else record b { subscribed_target = none }

abbrev countdown : Option ℕ → ℕ → Option ℕ
countdown none now = none
countdown (some deadline) now = some (seconds_of (deadline - now))

-- The effect on the retry deadline, and each round of its interval.
unfoldable pub update_countdown : ℕ → Bridge → Bridge
update_countdown now b = record b { retry_seconds_remaining = countdown b.retry_deadline_at_ms now }

-- The clean-up of the connect effect.
unfoldable pub clean_up : Bridge → Bridge
unfolding cancel_connect_attempts clear_reconnect_timer close_current_socket
clean_up b = close_current_socket (clear_reconnect_timer (cancel_connect_attempts b))

abbrev reset : Bridge → Bridge
reset b = record b {
  reconnect_attempt = 0;
  subscribed_target = none;
  redirecting = false;
  had_ready_connection = false;
  is_service_unavailable = false;
  retry_deadline_at_ms = none;
  retry_seconds_remaining = none;
  connection = create_initial_ws_connection_state;
}

-- The connect effect, behind the one that sets `shouldConnectRef`.
unfoldable pub connect_effect : Bool → Bridge → Bridge
unfolding clean_up connect
connect_effect should_connect b =
    if should_connect
    then connect (record b { should_connect = true })
    else reset (clean_up (record b { should_connect = false }))

unfoldable pub retry_now : Bridge → Bridge
unfolding connect clear_reconnect_timer
retry_now b =
    if not b.is_service_unavailable || b.connect_in_flight
    then b
    else connect (clear_reconnect_timer b)
