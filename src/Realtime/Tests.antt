-- ===== src/Realtime/Tests.antt =====
-- `WsAuthBridge` in concrete states.
use link_lynx_ai.Common.{
  ◌+◌, ◌≤◌, true, false, [], ◌∷◌, none, some, ◌≡◌, ◌≢◌, refl, arith, str_discrete, ap,
}
use link_lynx_ai.Net.Url.{Url, UrlApi, ok, resolve_api_base_url, to_ws_ticket_url}
use link_lynx_ai.Net.Fetch.{Network}
use link_lynx_ai.Timeline.{MessagesQueryKey, build_messages_query_key, same}
use link_lynx_ai.Timeline.Append.{items_of, Upserts}
use link_lynx_ai.Timeline.Contract.{AuthStore, MessageItem, map_message_item, is_positive_decimal}
use link_lynx_ai.Auth.WsTicket
use link_lynx_ai.Auth.WsTicket.{issued, refused, issue_ws_ticket}
use link_lynx_ai.Realtime.Connection.{
  ready, closed, compute_reconnect_delay_ms, should_show_banner_for_ticket_error,
  create_initial_ws_connection_state,
}
use link_lynx_ai.Realtime.Target.{guild, dm, resolve_active_subscription_target}
use link_lynx_ai.Realtime.Bridge.{Bridge, subscribe}
use link_lynx_ai.Realtime.Frames.{text_of, read_subscription, read_subscription-resolve}
use link_lynx_ai.Realtime.Handlers.{
  CloseEvent, message_created, on_message, handle_socket_close, target_key,
}
use link_lynx_ai.Realtime.Connect.{
  connect, resume_connect, fire_reconnect_timer, retry_now, subscription_effect,
}
use link_lynx_ai.Realtime.Delay.{compute_reconnect_delay_ms-bounds}
use link_lynx_ai.Realtime.Staleness.{handle_socket_close-foreign, fire_reconnect_timer-stuck}
use link_lynx_ai.Realtime.Refusal.{
  HasLeft, IsRetried, resume_connect-refused, handle_socket_close-unintended,
}
use link_lynx_ai.Realtime.Delivery.{cached, moved, on_message-Upserts, subscription_effect_lem}
use link_lynx_ai.Realtime.Session.{resume_connect-signed_out}

-- The socket 1 of the second attempt is in use and ready.
abbrev live : Bridge
live = record {
  connection = record create_initial_ws_connection_state { phase = ready };
  is_service_unavailable = false;
  retry_deadline_at_ms = none;
  retry_seconds_remaining = none;
  socket = some 1;
  reconnect_timer = none;
  reconnect_attempt = 0;
  connect_in_flight = false;
  connect_generation = 2;
  should_connect = true;
  intentionally_closing = none;
  subscribed_target = some (dm "5");
  had_ready_connection = true;
  redirecting = false;
  next_socket = 2;
  bound = (1, (2, "t2")) ∷ (0, (1, "t1")) ∷ [];
  effects = [];
  cache = [];
}

abbrev closing : Bridge
closing = record live { intentionally_closing = some 0 }

abbrev auth : AuthStore
auth = record { current_user = none; current_principal_id = some "9" }

abbrev item : MessageItem
item = record {
  message_id = "10";
  guild_id = "1";
  channel_id = "3";
  author_id = "7";
  content = "hello";
  created_at = "2026-01-01T00:00:00Z";
  version = "1";
  edited_at = none;
  is_deleted = none;
}

abbrev lost : CloseEvent
lost = record { code = 1006; reason = ""; was_clean = false }

abbrev busy : WsTicket.Error
busy = record {
  code = WsTicket.ErrorCode.temporarily_unavailable;
  message = "busy";
  backend_code = none;
  request_id = none;
  status = some 503;
}

abbrev ticket : WsTicket.Ticket
ticket = record { ticket = "t3"; expires_at = "2026-01-01T00:00:00Z" }

compute_reconnect_delay_ms-bounds_example :
    (1000 ≤ compute_reconnect_delay_ms 2)
    × (compute_reconnect_delay_ms 2 ≤ compute_reconnect_delay_ms 9)
    × (compute_reconnect_delay_ms 9 ≤ 30000)
compute_reconnect_delay_ms-bounds_example = compute_reconnect_delay_ms-bounds 2 9 (omega arith)

handle_socket_close-foreign_example :
    let c = handle_socket_close 5000 0 1 lost live in
    (c.socket ≡ some 1)
    × (c.subscribed_target ≡ none)
    × (c.connection.phase ≡ closed)
    × (c.reconnect_timer ≡ some (5000 + compute_reconnect_delay_ms 1))
handle_socket_close-foreign_example =
    handle_socket_close-foreign 5000 0 1 1 lost live refl (ground arith) refl refl refl
      (ground arith)

-- The third attempt waits for its ticket, and that of the second comes.
abbrev waiting : Bridge
waiting = record live { connect_in_flight = true; connect_generation = 3; socket = none }

fire_reconnect_timer-stuck_example :
    let opened = resume_connect 2 (issued ticket) (ok tt) 5000 waiting in
    let c = fire_reconnect_timer (handle_socket_close 9000 2 2 lost opened) in
    (c.socket ≡ none)
    × (c.reconnect_timer ≡ none)
    × (c.effects ≡ [])
    × (c.connect_in_flight ≡ true)
    × (connect c ≡ c)
    × (retry_now c ≡ c)
fire_reconnect_timer-stuck_example =
    fire_reconnect_timer-stuck 2 5000 9000 ticket tt lost waiting (ground arith) refl refl refl
      (ground arith) (ground arith)

resume_connect-refused_example :
    IsRetried 5000
      (should_show_banner_for_ticket_error busy.code)
      0
      (resume_connect 2 (refused busy) (ok tt) 5000 live)
resume_connect-refused_example = resume_connect-refused 2 5000 busy (ok tt) live refl refl refl

handle_socket_close-unintended_example :
    IsRetried 5000 false 0 (handle_socket_close 5000 1 2 lost live)
handle_socket_close-unintended_example =
    handle_socket_close-unintended 5000 1 2 lost live refl (ground arith) refl refl

other-key : target_key (guild "1" "3") ≢ ("dm", "3")
unfolding build_messages_query_key str_discrete
other-key p = let e : true ≡ false = ap (λ (k : MessagesQueryKey). same "1" k.0) p in cc

on_message-Upserts_example :
    let after = on_message auth none 1 (some (message_created "1" "3" item)) live in
    Upserts
      (map_message_item auth item)
      (items_of (cached (target_key (guild "1" "3")) live))
      (items_of (cached (target_key (guild "1" "3")) after))
    × (cached ("dm", "3") after ≡ cached ("dm", "3") live)
on_message-Upserts_example =
    on_message-Upserts auth none 1 (message_created "1" "3" item) (guild "1" "3") item ("dm", "3")
      live refl refl other-key

subscription_effect_example :
    let after = subscription_effect true (some (guild "1" "3")) live in
    (after.subscribed_target ≡ some (guild "1" "3"))
    × (after.effects ≡ moved 1 (some (dm "5")) (some (guild "1" "3")) [])
    × (subscription_effect true (some (guild "1" "3")) after ≡ after)
subscription_effect_example = subscription_effect_lem (some (guild "1" "3")) 1 live refl refl

read_subscription-resolve_example :
    read_subscription (text_of (λ s. s) (subscribe (dm "42"))) ≡ some (dm "42")
unfolding resolve_active_subscription_target is_positive_decimal str_discrete
read_subscription-resolve_example =
    read_subscription-resolve some (λ s. s) "/channels/me/42" none none (dm "42") refl

text_test :
    text_of (λ s. s) (subscribe (guild "1" "3"))
    ≡ "{\"type\":\"message.subscribe\",\"d\":{\"guild_id\":1,\"channel_id\":3}}"
unfolding text_of
text_test = refl

abbrev base : Url
base = record {
  protocol = "https:";
  username = "";
  password = "";
  hostname = "api.example";
  port = "8080";
  pathname = "/";
  search = "";
  hash = "";
}

-- A platform that knows one URL.
abbrev api : UrlApi
api = record {
  parse = λ s. ok base;
  format = λ u. u.pathname;
  encode = λ s. s;
  url_issue = λ s. none;
}

abbrev nobody : Network
nobody = record { current_user = none; fetch = λ r. none }

resume_connect-signed_out_example : HasLeft (
    resume_connect 2
      (issue_ws_ticket api (some "https://api.example/") nobody none)
      (ok tt)
      5000
      live)
unfolding resolve_api_base_url to_ws_ticket_url
resume_connect-signed_out_example =
    resume_connect-signed_out api (some "https://api.example/") "/auth/ws-ticket" nobody none 2 5000
      (ok tt) live refl refl refl refl refl
