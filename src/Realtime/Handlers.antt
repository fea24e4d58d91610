-- ===== src/Realtime/Handlers.antt =====
-- ws-auth-bridge.tsx: the handlers of `WsAuthBridge`, each up to its next `await`.
use link_lynx_ai.Common.{
  ℕ, String, Bool, true, false, not, ◌||◌, ◌∷◌, Option, none, some, if◌then◌else◌, ◌==◌, is_empty,
  trim, lookup, insert,
}
use link_lynx_ai.Timeline.{
  MessagesQueryKey, build_messages_query_key, append_message_to_pages, key_discrete,
}
use link_lynx_ai.Timeline.Contract.{AuthStore, MessageItem, map_message_item}
use link_lynx_ai.Realtime.Connection.{
  identifying, ready, closed, transport_error, resolve_ws_close_kind,
}
use link_lynx_ai.Realtime.Target.{Target, guild, dm}
use link_lynx_ai.Realtime.Bridge.{
  identify, reauthenticate, Effect, send, request_token, invalidate, Bridge, is_current,
  finish_connect_attempt, redirect_to_login, schedule_reconnect,
}

abbrev pub emit : Effect → Bridge → Bridge
emit e b = record b { effects = e ∷ b.effects }

abbrev pub target_key : Target → MessagesQueryKey
target_key (guild g c) = build_messages_query_key (some g) c
target_key (dm c) = build_messages_query_key none c

abbrev recover_history : Option Target → Bridge → Bridge
recover_history none b = b
recover_history (some t) b = emit (invalidate (target_key t)) b

abbrev ready_state : Bridge → Bridge
ready_state b = record b {
  had_ready_connection = true;
  reconnect_attempt = 0;
  is_service_unavailable = false;
  connection = record {
    phase = ready;
    close_code = none;
    close_reason = none;
    close_kind = none;
    reconnect_attempt = 0;
    next_retry_in_ms = none;
  };
}

-- `active` is the `activeSubscriptionTarget` of the render that made the handler.
unfoldable pub handle_socket_ready : Option Target → Bridge → Bridge
unfolding build_messages_query_key
handle_socket_ready active b =
    if b.had_ready_connection then recover_history active (ready_state b) else ready_state b

-- `handleSocketReauthenticate` up to `session.getIdToken(true)`, and its rest: the outer `none` is
-- a rejection.
abbrev handle_socket_reauthenticate : ℕ → Bridge → Bridge
handle_socket_reauthenticate socket b = emit (request_token socket) b

abbrev send_token : ℕ → String → Bridge → Bridge
send_token socket token b =
    if is_empty (trim token)
    then redirect_to_login b
    else if is_current b.socket socket
    then emit (send socket (reauthenticate token)) b
    else b

unfoldable pub resume_reauthenticate : ℕ → Option (Option String) → Bridge → Bridge
unfolding redirect_to_login is_empty trim
resume_reauthenticate socket none b = redirect_to_login b
resume_reauthenticate socket (some none) b = redirect_to_login b
resume_reauthenticate socket (some (some token)) b = send_token socket token b

pub record CloseEvent : Type 0 where
  pub code : ℕ
  pub reason : String
  pub was_clean : Bool

abbrev reason_of : CloseEvent → Option String
reason_of event = if is_empty event.reason then none else some event.reason

-- The state of a close that was not asked for, before the decision on a reconnect.
unfoldable pub drop_socket : ℕ → ℕ → CloseEvent → Bridge → Bridge
unfolding finish_connect_attempt is_empty
drop_socket socket generation event b =
    let c = finish_connect_attempt generation (record b {
      socket = if is_current b.socket socket then none else b.socket;
      subscribed_target = none;
    }) in
    record c {
      connection = record {
        phase = closed;
        close_code = some event.code;
        close_reason = reason_of event;
        close_kind = some (resolve_ws_close_kind event.code event.was_clean);
        reconnect_attempt = c.reconnect_attempt;
        next_retry_in_ms = none;
      };
    }

unfoldable pub after_drop : ℕ → CloseEvent → Bridge → Bridge
unfolding redirect_to_login schedule_reconnect is_empty
after_drop now event b =
    if not b.should_connect || b.redirecting
    then b
    else if event.code == 1008
    then redirect_to_login b
    else schedule_reconnect now
        (record {
          close_code = some event.code;
          close_reason = reason_of event;
          close_kind = resolve_ws_close_kind event.code event.was_clean;
          show_banner = event.code == 1011;
        })
        b

unfoldable pub handle_socket_close : ℕ → ℕ → ℕ → CloseEvent → Bridge → Bridge
handle_socket_close now socket generation event b =
    if is_current b.intentionally_closing socket
    then finish_connect_attempt generation (record b { intentionally_closing = none })
    else after_drop now event (drop_socket socket generation event b)

abbrev identify_on : ℕ → String → Bridge → Bridge
identify_on socket ticket b = emit (send socket (identify ticket)) (record b {
  is_service_unavailable = false;
  connection = record b.connection {
    phase = identifying;
    close_code = none;
    close_reason = none;
    close_kind = none;
    next_retry_in_ms = none;
  };
})

unfoldable pub on_open : ℕ → ℕ → String → Bridge → Bridge
unfolding finish_connect_attempt
on_open socket generation ticket b =
    if is_current b.socket socket
    then identify_on socket ticket (finish_connect_attempt generation b)
    else b

abbrev mark_transport_error : Bridge → Bridge
mark_transport_error b = record b {
  connection = record b.connection { phase = closed; close_kind = some transport_error };
}

unfoldable pub on_error : ℕ → ℕ → Bridge → Bridge
unfolding finish_connect_attempt
on_error socket generation b =
    if is_current b.socket socket
    then mark_transport_error (finish_connect_attempt generation b)
    else b

-- The payloads that the schemas of the file tell apart; `other` is any other JSON, and `none` is
-- text that is no JSON, or no text.
pub data Payload : Type 0 where
  auth_ready auth_reauthenticate other : Payload
  message_created message_updated message_deleted : String → String → MessageItem → Payload
  dm_message_created : String → MessageItem → Payload

unfoldable pub apply_realtime_message_to_cache :
    AuthStore → Option String → String → MessageItem → Bridge → Bridge
unfolding map_message_item append_message_to_pages build_messages_query_key
apply_realtime_message_to_cache auth guild_id channel_id raw b =
    let key = build_messages_query_key guild_id channel_id in
    record b {
      cache =
          insert key_discrete key
            (append_message_to_pages (lookup key_discrete key b.cache) (map_message_item auth raw))
            b.cache;
    }

abbrev receive : AuthStore → Option Target → ℕ → Option Payload → Bridge → Bridge
receive auth active socket none b = b
receive auth active socket (some auth_ready) b = handle_socket_ready active b
receive auth active socket (some auth_reauthenticate) b = handle_socket_reauthenticate socket b
receive auth active socket (some other) b = b
receive auth active socket (some (message_created g c m)) b =
    apply_realtime_message_to_cache auth (some g) c m b
receive auth active socket (some (message_updated g c m)) b =
    apply_realtime_message_to_cache auth (some g) c m b
receive auth active socket (some (message_deleted g c m)) b =
    apply_realtime_message_to_cache auth (some g) c m b
receive auth active socket (some (dm_message_created c m)) b =
    apply_realtime_message_to_cache auth none c m b

unfoldable pub on_message : AuthStore → Option Target → ℕ → Option Payload → Bridge → Bridge
unfolding handle_socket_ready apply_realtime_message_to_cache
on_message auth active socket payload b =
    if is_current b.socket socket then receive auth active socket payload b else b
