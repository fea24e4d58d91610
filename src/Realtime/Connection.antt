-- ===== src/Realtime/Connection.antt =====
-- entities/auth/model/ws-connection.ts, and the tables of ws-auth-bridge.tsx: reconnect delays, the
-- kinds of a close, and what is done about a ticket that was refused.
use link_lynx_ai.Common.{
  ℕ, ◌+◌, ◌-◌, ◌*◌, ◌/◌, ◌^◌, min, max, String, Bool, true, false, Option, none, if◌then◌else◌,
  ◌==◌,
}
use link_lynx_ai.Auth.WsTicket

pub data Phase : Type 0 where
  idle connecting identifying ready closed : Phase

pub data CloseKind : Type 0 where
  policy_violation dependency_unavailable normal transport_error manual : CloseKind

pub record ConnectionState : Type 0 where
  pub phase : Phase
  pub close_code : Option ℕ
  pub close_reason : Option String
  pub close_kind : Option CloseKind
  pub reconnect_attempt : ℕ
  pub next_retry_in_ms : Option ℕ

abbrev pub create_initial_ws_connection_state : ConnectionState
create_initial_ws_connection_state = record {
  phase = idle;
  close_code = none;
  close_reason = none;
  close_kind = none;
  reconnect_attempt = 0;
  next_retry_in_ms = none;
}

abbrev pub base_reconnect_delay_ms : ℕ
base_reconnect_delay_ms = 1000

abbrev pub max_reconnect_delay_ms : ℕ
max_reconnect_delay_ms = 30000

unfoldable pub compute_reconnect_delay_ms : ℕ → ℕ
compute_reconnect_delay_ms attempt =
    min (base_reconnect_delay_ms * 2 ^ (max attempt 1 - 1)) max_reconnect_delay_ms

unfoldable pub resolve_ws_close_kind : ℕ → Bool → CloseKind
resolve_ws_close_kind code was_clean =
    if code == 1008
    then policy_violation
    else if code == 1011
    then dependency_unavailable
    else if was_clean
    then normal
    else transport_error

abbrev pub is_deterministic_ws_ticket_auth_error : WsTicket.ErrorCode → Bool
is_deterministic_ws_ticket_auth_error WsTicket.ErrorCode.unauthenticated = true
is_deterministic_ws_ticket_auth_error WsTicket.ErrorCode.token_unavailable = true
is_deterministic_ws_ticket_auth_error WsTicket.ErrorCode.forbidden = true
is_deterministic_ws_ticket_auth_error _ = false

abbrev pub should_show_banner_for_ticket_error : WsTicket.ErrorCode → Bool
should_show_banner_for_ticket_error WsTicket.ErrorCode.temporarily_unavailable = true
should_show_banner_for_ticket_error WsTicket.ErrorCode.unknown = true
should_show_banner_for_ticket_error WsTicket.ErrorCode.unexpected_response = true
should_show_banner_for_ticket_error _ = false

-- `Math.ceil(ms / 1_000)`
abbrev pub seconds_of : ℕ → ℕ
seconds_of ms = (ms + 999) / 1000
