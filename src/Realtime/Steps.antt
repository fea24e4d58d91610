-- ===== src/Realtime/Steps.antt =====
-- Runs of `WsAuthBridge`: its events in any order. A render that changes `connect`, as a new target
-- does, runs the connect effect anew; promises resolve whenever the network pleases, and a ticket
-- comes only for a generation that was begun.
pub mod Invariant
pub mod Tracked
pub mod Recovery
pub mod Prompt
pub mod Backed
pub mod Waiting
mod Tests
use link_lynx_ai.Common.{
  ℕ, String, Bool, false, Option, none, some, leb, lookup, ℕ_discrete, if◌then◌else◌,
}
use link_lynx_ai.Auth.WsTicket
use link_lynx_ai.Net.Url.{UrlResult}
use link_lynx_ai.Timeline.Contract.{AuthStore}
use link_lynx_ai.Realtime.Target.{Target}
use link_lynx_ai.Realtime.Bridge.{Bridge, initial, finish_connect_attempt}
use link_lynx_ai.Realtime.Handlers.{
  CloseEvent, Payload, drop_socket, after_drop, resume_reauthenticate, handle_socket_close, on_open,
  on_error, on_message,
}
use link_lynx_ai.Realtime.Connect.{
  resume_connect, fire_reconnect_timer, subscription_effect, update_countdown, clean_up,
  connect_effect, retry_now,
}

pub data Event : Type 0 where
  mounts reruns : Bool → Event
  ticket_arrives : ℕ → WsTicket.Result → UrlResult (Unit {0}) → ℕ → Event
  opens : ℕ → Event
  receives : AuthStore → Option Target → ℕ → Option Payload → Event
  closes : ℕ → ℕ → CloseEvent → Event
  fails : ℕ → Event
  token_arrives : ℕ → Option (Option String) → Event
  timer_fires : Event
  subscribes : Bool → Option Target → Event
  counts_down : ℕ → Event
  retries : Event

-- A handler of a socket runs with what it was bound to; there is none for a socket never made.
abbrev pub handle : ℕ → (ℕ → String → Bridge → Bridge) → Bridge → Bridge
handle socket handler b = elim (lookup ℕ_discrete socket b.bound) [
  | none ↦ b
  | some (generation, ticket) ↦ handler generation ticket b
]

unfoldable pub step : Bridge → Event → Bridge
unfolding resume_reauthenticate handle_socket_close drop_socket after_drop finish_connect_attempt
    on_open on_error on_message resume_connect fire_reconnect_timer subscription_effect
    update_countdown clean_up connect_effect retry_now
step b (mounts should_connect) = connect_effect should_connect b
step b (reruns should_connect) = connect_effect should_connect (clean_up b)
step b (ticket_arrives generation result opening now) =
    if leb generation b.connect_generation
    then resume_connect generation result opening now b
    else b
step b (opens socket) = handle socket (on_open socket) b
step b (receives auth active socket payload) = on_message auth active socket payload b
step b (closes now socket event) = handle socket (λ g _. handle_socket_close now socket g event) b
step b (fails socket) = handle socket (λ g _. on_error socket g) b
step b (token_arrives socket token) = resume_reauthenticate socket token b
step b timer_fires = fire_reconnect_timer b
step b (subscribes is_open active) = subscription_effect is_open active b
step b (counts_down now) = update_countdown now b
step b retries = retry_now b

-- All states that the component can come to.
pub data Reach : Bridge → Type 0 where
  start : Reach (initial false)
  next : {b : Bridge} (e : Event) → Reach b → Reach (step b e)
