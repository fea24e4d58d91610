-- ===== src/Realtime/Bridge.antt =====
-- ws-auth-bridge.tsx: the state of `WsAuthBridge`, its `useState` values and refs in one record, and
-- the small operations on it. Sockets are numbers, in the order of their creation. What the
-- component does outside is a list of effects, the latest first.
use link_lynx_ai.Common.{
  ℕ, suc, ◌+◌, String, Bool, true, false, not, ◌||◌, List, [], ◌∷◌, Option, none, some,
  if◌then◌else◌, ◌==◌,
}
use link_lynx_ai.Timeline.{MessagesQueryKey}
use link_lynx_ai.Timeline.Data.{MessagePagesData}
use link_lynx_ai.Auth.WsTicket
use link_lynx_ai.Realtime.Connection.{
  connecting, closed, CloseKind, dependency_unavailable, ConnectionState,
  create_initial_ws_connection_state, compute_reconnect_delay_ms,
  is_deterministic_ws_ticket_auth_error, should_show_banner_for_ticket_error, seconds_of,
}
use link_lynx_ai.Realtime.Target.{Target}

-- The texts that `createIdentifyMessage` and its siblings make.
pub data Frame : Type 0 where
  identify : String → Frame
  reauthenticate : String → Frame
  subscribe : Target → Frame
  unsubscribe : Target → Frame

pub data Effect : Type 0 where
  close_socket : ℕ → Effect
  send : ℕ → Frame → Effect
  request_ticket : ℕ → Effect
  request_token : ℕ → Effect
  sign_out : Effect
  invalidate : MessagesQueryKey → Effect

pub record Bridge : Type 0 where
  pub connection : ConnectionState
  pub is_service_unavailable : Bool
  pub retry_deadline_at_ms : Option ℕ
  pub retry_seconds_remaining : Option ℕ
  pub socket : Option ℕ
  -- When the pending timer is due.
  pub reconnect_timer : Option ℕ
  pub reconnect_attempt : ℕ
  pub connect_in_flight : Bool
  pub connect_generation : ℕ
  pub should_connect : Bool
  pub intentionally_closing : Option ℕ
  pub subscribed_target : Option Target
  pub had_ready_connection : Bool
  pub redirecting : Bool
  pub next_socket : ℕ
  -- The generation and the ticket that `bindSocketHandlers` bound to each socket.
  pub bound : List (ℕ × (ℕ × String))
  pub effects : List Effect
  pub cache : List (MessagesQueryKey × MessagePagesData)

unfoldable pub initial : Bool → Bridge
initial should_connect = record {
  connection = create_initial_ws_connection_state;
  is_service_unavailable = false;
  retry_deadline_at_ms = none;
  retry_seconds_remaining = none;
  socket = none;
  reconnect_timer = none;
  reconnect_attempt = 0;
  connect_in_flight = false;
  connect_generation = 0;
  should_connect = should_connect;
  intentionally_closing = none;
  subscribed_target = none;
  had_ready_connection = false;
  redirecting = false;
  next_socket = 0;
  bound = [];
  effects = [];
  cache = [];
}

-- `socketRef.current === socket`
abbrev pub is_current : Option ℕ → ℕ → Bool
is_current none s = false
is_current (some t) s = t == s

unfoldable pub clear_reconnect_timer : Bridge → Bridge
clear_reconnect_timer b = record b {
  reconnect_timer = none;
  retry_deadline_at_ms = none;
  retry_seconds_remaining = none;
}

abbrev close_socket_of : Option ℕ → Bridge → Bridge
close_socket_of none b = b
close_socket_of (some current) b = record b {
  intentionally_closing = some current;
  socket = none;
  subscribed_target = none;
  effects = close_socket current ∷ b.effects;
}

unfoldable pub close_current_socket : Bridge → Bridge
close_current_socket b = close_socket_of b.socket b

-- The state in which the attempt has started, with its generation, or `none` for a refusal.
unfoldable pub start_connect_attempt : Bridge → Option (Bridge × ℕ)
start_connect_attempt b =
    if b.connect_in_flight
    then none
    else some (
      record b { connect_in_flight = true; connect_generation = suc b.connect_generation },
      suc b.connect_generation,
    )

unfoldable pub finish_connect_attempt : ℕ → Bridge → Bridge
finish_connect_attempt generation b =
    if b.connect_generation == generation then record b { connect_in_flight = false } else b

unfoldable pub cancel_connect_attempts : Bridge → Bridge
cancel_connect_attempts b = record b {
  connect_generation = suc b.connect_generation;
  connect_in_flight = false;
}

-- Up to the call of `signOutCurrentUser`; the page is then left.
unfoldable pub redirect_to_login : Bridge → Bridge
unfolding cancel_connect_attempts clear_reconnect_timer close_current_socket
redirect_to_login b =
    if b.redirecting
    then b
    else let c =
        close_current_socket
          (clear_reconnect_timer (cancel_connect_attempts (record b { redirecting = true }))) in
      record c { effects = sign_out ∷ c.effects }

pub record Closing : Type 0 where
  pub close_code : Option ℕ
  pub close_reason : Option String
  pub close_kind : CloseKind
  pub show_banner : Bool

-- `now` is `Date.now()`.
unfoldable pub schedule_reconnect : ℕ → Closing → Bridge → Bridge
unfolding clear_reconnect_timer compute_reconnect_delay_ms
schedule_reconnect now p b =
    if not b.should_connect || b.redirecting
    then b
    else let delay = compute_reconnect_delay_ms (suc b.reconnect_attempt) in
      record b {
        reconnect_attempt = suc b.reconnect_attempt;
        is_service_unavailable = p.show_banner;
        retry_deadline_at_ms = if p.show_banner then some (now + delay) else none;
        retry_seconds_remaining = if p.show_banner then some (seconds_of delay) else none;
        connection = record {
          phase = closed;
          close_code = p.close_code;
          close_reason = p.close_reason;
          close_kind = some p.close_kind;
          reconnect_attempt = suc b.reconnect_attempt;
          next_retry_in_ms = some delay;
        };
        reconnect_timer = some (now + delay);
      }

unfoldable pub set_connecting_state : Bridge → Bridge
set_connecting_state b = record b {
  connection = record {
    phase = connecting;
    close_code = none;
    close_reason = none;
    close_kind = none;
    reconnect_attempt = b.reconnect_attempt;
    next_retry_in_ms = none;
  };
}

unfoldable pub schedule_dependency_unavailable_reconnect :
    ℕ → Option ℕ → String → Bool → Bridge → Bridge
unfolding schedule_reconnect
schedule_dependency_unavailable_reconnect now status message show_banner =
    schedule_reconnect now (record {
      close_code = status;
      close_reason = some message;
      close_kind = dependency_unavailable;
      show_banner = show_banner;
    })

unfoldable pub handle_ticket_issue_failure : ℕ → WsTicket.Error → Bridge → Bridge
unfolding redirect_to_login schedule_dependency_unavailable_reconnect
handle_ticket_issue_failure now error b =
    if is_deterministic_ws_ticket_auth_error error.code
    then redirect_to_login b
    else schedule_dependency_unavailable_reconnect now error.status error.message
        (should_show_banner_for_ticket_error error.code) b
