-- ===== src/Realtime/Steps/Backed.antt =====
-- ws-auth-bridge.tsx: each handler and timer keeps what the flag of an attempt in flight stands for.
use link_lynx_ai.Common.{
  ℕ, ◌≤◌, String, Bool, true, false, Option, none, some, ◌≡◌, inl, inr, arith, Option-cases,
  Bool-cases, not, ◌||◌, is_empty, trim,
}
use link_lynx_ai.Auth.WsTicket
use link_lynx_ai.Auth.WsTicket.{issued, refused}
use link_lynx_ai.Timeline.Contract.{AuthStore}
use link_lynx_ai.Realtime.Connection.{is_deterministic_ws_ticket_auth_error}
use link_lynx_ai.Realtime.Target.{Target}
use link_lynx_ai.Realtime.Bridge.{
  Bridge, finish_connect_attempt, redirect_to_login, handle_ticket_issue_failure,
  clear_reconnect_timer,
}
use link_lynx_ai.Realtime.Handlers.{
  CloseEvent, Payload, drop_socket, after_drop, resume_reauthenticate, handle_socket_ready, on_open,
  on_error, on_message, apply_realtime_message_to_cache,
}
use link_lynx_ai.Realtime.Connect.{
  connect, fire_reconnect_timer, subscription_effect, update_countdown, clean_up, connect_effect,
  retry_now,
}
use link_lynx_ai.Realtime.Steps.{}
use link_lynx_ai.Realtime.Steps.Tracked.{HasBegun, generation_at}
use link_lynx_ai.Realtime.Steps.Prompt.{latest_request, awaits, holds, IsBacked}

module _ (a : ℕ) where
  pub connect-IsBacked :
      (b : Bridge)
      → latest_request b.effects ≤ b.connect_generation
      → a ≤ latest_request b.effects
      → HasBegun a b.bound
      → (b.connect_in_flight ≡ true
          → awaits b a || holds b.socket b.bound b.connect_generation ≡ true)
      → IsBacked (connect b) a
  unfolding connect latest_request
  connect-IsBacked b v w h k = elim (Option-cases b.socket) [
    | inl e ↦ ground arith
    | inr (s, e) ↦ ground arith
  ]

  pub redirect-IsBacked : (b : Bridge) → IsBacked b a → IsBacked (redirect_to_login b) a
  unfolding redirect_to_login latest_request
  redirect-IsBacked b v = elim (Option-cases b.socket) [
    | inl e ↦ ground arith
    | inr (s, e) ↦ ground arith
  ]

  pub connect_effect-IsBacked :
      (d : Bool) (b : Bridge)
      → latest_request b.effects ≤ b.connect_generation
      → a ≤ latest_request b.effects
      → HasBegun a b.bound
      → (b.connect_in_flight ≡ true
          → awaits b a || holds b.socket b.bound b.connect_generation ≡ true)
      → IsBacked (connect_effect d b) a
  unfolding connect_effect clean_up latest_request
  connect_effect-IsBacked true b v w h k =
      connect-IsBacked (record b { should_connect = true }) v w h k
  connect_effect-IsBacked false b v w h k = elim (Option-cases b.socket) [
    | inl e ↦ ground arith
    | inr (s, e) ↦ ground arith
  ]

  pub reruns-IsBacked :
      (d : Bool) (b : Bridge) → IsBacked b a → IsBacked (connect_effect d (clean_up b)) a
  unfolding clean_up latest_request
  reruns-IsBacked d b v = elim (Option-cases b.socket) [
    | inl e ↦ ground (arith, connect_effect-IsBacked d (clean_up b))
    | inr (s, e) ↦ ground (arith, connect_effect-IsBacked d (clean_up b))
  ]

  pub failure-IsBacked :
      (now : ℕ) (e : WsTicket.Error) (b : Bridge)
      → IsBacked b a
      → IsBacked (handle_ticket_issue_failure now e b) a
  unfolding handle_ticket_issue_failure
  failure-IsBacked now e b v = elim (Bool-cases (is_deterministic_ws_ticket_auth_error e.code)) [
    | inl auth ↦ rw auth (redirect-IsBacked b v)
    | inr later ↦ rw later (ground arith)
  ]

  pub on_open-IsBacked :
      (s g : ℕ) (t : String) (b : Bridge) → g ≤ a → IsBacked b a → IsBacked (on_open s g t b) a
  unfolding on_open finish_connect_attempt latest_request
  on_open-IsBacked s g t b h v = ground arith

  pub on_error-IsBacked :
      (s g : ℕ) (b : Bridge) → g ≤ a → IsBacked b a → IsBacked (on_error s g b) a
  unfolding on_error finish_connect_attempt
  on_error-IsBacked s g b h v = ground arith

  pub ready-IsBacked :
      (t : Option Target) (b : Bridge) → IsBacked b a → IsBacked (handle_socket_ready t b) a
  unfolding handle_socket_ready latest_request
  ready-IsBacked none b v = ground arith
  ready-IsBacked (some t) b v = ground arith

  pub on_message-IsBacked :
      (u : AuthStore) (t : Option Target) (s : ℕ) (p : Option Payload) (b : Bridge)
      → IsBacked b a
      → IsBacked (on_message u t s p b) a
  unfolding on_message apply_realtime_message_to_cache latest_request
  on_message-IsBacked u t s none b v = ground arith
  on_message-IsBacked u t s (some Payload.auth_ready) b v = ground (arith, ready-IsBacked t b v)
  on_message-IsBacked u t s (some Payload.auth_reauthenticate) b v = ground arith
  on_message-IsBacked u t s (some Payload.other) b v = ground arith
  on_message-IsBacked u t s (some (Payload.message_created g c m)) b v = ground arith
  on_message-IsBacked u t s (some (Payload.message_updated g c m)) b v = ground arith
  on_message-IsBacked u t s (some (Payload.message_deleted g c m)) b v = ground arith
  on_message-IsBacked u t s (some (Payload.dm_message_created c m)) b v = ground arith

  pub after_drop-IsBacked :
      (now : ℕ) (e : CloseEvent) (b : Bridge) → IsBacked b a → IsBacked (after_drop now e b) a
  unfolding after_drop
  after_drop-IsBacked now e b v = elim (Bool-cases (not b.should_connect || b.redirecting)) [
    | inl off ↦ rw off v
    | inr on ↦ rw on (ground (arith, redirect-IsBacked b v))
  ]

  pub drop_socket-IsBacked :
      (s : ℕ) (e : CloseEvent) (b : Bridge)
      → generation_at s b.bound ≤ a
      → IsBacked b a
      → IsBacked (drop_socket s (generation_at s b.bound) e b) a
  unfolding drop_socket finish_connect_attempt
  drop_socket-IsBacked s e b h v = elim (Option-cases b.socket) [
    | inl n ↦ ground arith
    | inr (r, n) ↦ ground arith
  ]

  pub token-IsBacked :
      (s : ℕ) (t : Option (Option String)) (b : Bridge)
      → IsBacked b a
      → IsBacked (resume_reauthenticate s t b) a
  unfolding resume_reauthenticate latest_request
  token-IsBacked s none b v = redirect-IsBacked b v
  token-IsBacked s (some none) b v = redirect-IsBacked b v
  token-IsBacked s (some (some t)) b v = elim (Bool-cases (is_empty (trim t))) [
    | inl e ↦ rw e (redirect-IsBacked b v)
    | inr e ↦ rw e (ground arith)
  ]

  pub timer-IsBacked : (b : Bridge) → IsBacked b a → IsBacked (fire_reconnect_timer b) a
  unfolding fire_reconnect_timer clear_reconnect_timer
  timer-IsBacked b v =
      connect-IsBacked (clear_reconnect_timer b) v.asked v.answered v.begun v.backed

  pub subscription-IsBacked :
      (o : Bool) (t : Option Target) (b : Bridge)
      → IsBacked b a
      → IsBacked (subscription_effect o t b) a
  unfolding subscription_effect latest_request
  subscription-IsBacked o t b v = ground arith

  pub countdown-IsBacked :
      (now : ℕ) (b : Bridge) → IsBacked b a → IsBacked (update_countdown now b) a
  unfolding update_countdown
  countdown-IsBacked now b v = ground arith

  pub retry-IsBacked : (b : Bridge) → IsBacked b a → IsBacked (retry_now b) a
  unfolding retry_now clear_reconnect_timer
  retry-IsBacked b v =
      ground (arith, connect-IsBacked (clear_reconnect_timer b) v.asked v.answered v.begun v.backed)
