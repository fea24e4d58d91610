-- ===== src/Realtime/Steps/Tests.antt =====
-- A run of `WsAuthBridge`: it mounts, gets a ticket, opens its socket and loses it.
use link_lynx_ai.Common.{true, false, some, ◌≡◌, refl, arith, lookup, ℕ_discrete, is_some, ◌||◌}
use link_lynx_ai.Auth.WsTicket
use link_lynx_ai.Auth.WsTicket.{issued}
use link_lynx_ai.Net.Url.{ok}
use link_lynx_ai.Realtime.Bridge.{Bridge, initial}
use link_lynx_ai.Realtime.Handlers.{CloseEvent}
use link_lynx_ai.Realtime.Steps.{mounts, ticket_arrives, opens, closes, step, Reach, start, next}
use link_lynx_ai.Realtime.Steps.Invariant.{IsSound, Reach-IsSound}
use link_lynx_ai.Realtime.Steps.Prompt.{Prompt, begin, then_, awaits, latest_request}
use link_lynx_ai.Realtime.Steps.Waiting.{Prompt-is_waiting}

abbrev ticket : WsTicket.Ticket
ticket = record { ticket = "t1"; expires_at = "2026-01-01T00:00:00Z" }

abbrev lost : CloseEvent
lost = record { code = 1006; reason = ""; was_clean = false }

abbrev opened : Bridge
opened =
    step (step (step (initial false) (mounts true)) (ticket_arrives 1 (issued ticket) (ok tt) 5000))
      (opens 0)

abbrev run : Reach (step opened (closes 9000 0 lost))
run = next (closes 9000 0 lost) (
    next (opens 0)
      (next (ticket_arrives 1 (issued ticket) (ok tt) 5000) (next (mounts true) start)))

requested : latest_request (step (initial false) (mounts true)).effects ≡ 1
unfolding step initial latest_request
requested = refl

abbrev prompt_run : Prompt (step opened (closes 9000 0 lost)) 1
prompt_run = then_ (closes 9000 0 lost) tt (
    then_ (opens 0) tt (
      then_ (ticket_arrives 1 (issued ticket) (ok tt) 5000) (requested, ground arith)
        (then_ (mounts true) tt begin)))

Prompt-is_waiting_example :
    let b = step opened (closes 9000 0 lost) in
    is_some b.socket || is_some b.reconnect_timer || awaits b 1 ≡ true
unfolding step initial lookup ℕ_discrete
Prompt-is_waiting_example = Prompt-is_waiting prompt_run refl refl

Reach-IsSound_example : IsSound (step opened (closes 9000 0 lost))
Reach-IsSound_example = Reach-IsSound run

reconnect_test : (step opened (closes 9000 0 lost)).reconnect_timer ≡ some 10000
unfolding step initial lookup ℕ_discrete
reconnect_test = refl
