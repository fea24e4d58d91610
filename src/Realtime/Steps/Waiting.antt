-- ===== src/Realtime/Steps/Waiting.antt =====
-- ws-auth-bridge.tsx: what `WsAuthBridge` waits for in runs where no ticket comes late.
use link_lynx_ai.Common.{
  ℕ, ◌≤◌, String, true, false, List, ◌≡◌, ◌≢◌, inl, inr, arith, Option-cases, Bool-cases, is_some,
  ◌||◌, lookup, ℕ_discrete, All-map, subst,
}
use link_lynx_ai.Auth.WsTicket
use link_lynx_ai.Auth.WsTicket.{issued, refused}
use link_lynx_ai.Net.Url.{UrlResult, ok, err}
use link_lynx_ai.Realtime.Bridge.{Bridge, initial, is_current, finish_connect_attempt}
use link_lynx_ai.Realtime.Handlers.{CloseEvent, drop_socket, handle_socket_close, on_open, on_error}
use link_lynx_ai.Realtime.Connect.{open_socket, resume_connect}
use link_lynx_ai.Realtime.Steps.{
  Event, mounts, reruns, ticket_arrives, opens, receives, closes, fails, token_arrives, timer_fires,
  subscribes, counts_down, retries, handle, step, Reach,
}
use link_lynx_ai.Realtime.Steps.Tracked.{
  IsTracked, HasBegun, generation_at, generation_of, generation_at-le,
}
use link_lynx_ai.Realtime.Steps.Recovery.{Reach-is_underway, Reach-IsTracked}
use link_lynx_ai.Realtime.Steps.Prompt.{
  latest_request, IsPrompt, answered_by, Prompt, begin, then_, Prompt-Reach, awaits, IsBacked,
}
use link_lynx_ai.Realtime.Steps.Backed.{
  connect_effect-IsBacked, reruns-IsBacked, failure-IsBacked, on_open-IsBacked, on_error-IsBacked,
  on_message-IsBacked, after_drop-IsBacked, drop_socket-IsBacked, token-IsBacked, timer-IsBacked,
  subscription-IsBacked, countdown-IsBacked, retry-IsBacked,
}

HasBegun-le :
    (m n : ℕ) (bound : List (ℕ × (ℕ × String))) → m ≤ n → HasBegun m bound → HasBegun n bound
HasBegun-le m n bound h = All-map (λ e. e.1.0 ≤ m) (λ e. e.1.0 ≤ n) (λ e k. omega arith) bound

-- The answer ends the attempt, if a connection is still wanted.
finish-IsBacked :
    (g a : ℕ) (b : Bridge)
    → latest_request b.effects ≡ g
    → a ≢ g
    → IsBacked b a
    → IsBacked (finish_connect_attempt g b) g
unfolding finish_connect_attempt
finish-IsBacked g a b p n v =
    let h = HasBegun-le a g b.bound (omega (arith, v.answered)) v.begun in
    elim (Option-cases b.socket) [
      | inl e ↦ ground arith
      | inr (s, e) ↦ ground (arith, generation_at-le a s b.bound v.begun)
    ]

open-IsBacked :
    (g a : ℕ) (t : String) (b : Bridge)
    → latest_request b.effects ≡ g
    → a ≢ g
    → b.should_connect ≡ true
    → b.redirecting ≡ false
    → IsBacked b a
    → IsBacked (open_socket g t b) g
unfolding lookup
open-IsBacked g a t b p n w d v =
    let h = HasBegun-le a g b.bound (omega (arith, v.answered)) v.begun in
    let f = present in ground arith
  where
    present : b.connect_generation ≡ g
    present = elim (Option-cases b.socket) [
      | inl e ↦ ground (arith, v.kept w d, v.backed)
      | inr (s, e) ↦ ground (arith, v.kept w d, v.backed, generation_at-le a s b.bound v.begun)
    ]

resume_connect-IsBacked :
    (g a : ℕ) (r : WsTicket.Result) (o : UrlResult (Unit {0})) (now : ℕ) (b : Bridge)
    → latest_request b.effects ≡ g
    → a ≢ g
    → IsBacked b a
    → IsBacked (resume_connect g r o now b) g
unfolding resume_connect
resume_connect-IsBacked g a (refused e) o now b p n v =
    let f = finish-IsBacked g a b p n v in
    ground (arith, failure-IsBacked g now e (finish_connect_attempt g b) f)
resume_connect-IsBacked g a (issued t) (err m) now b p n v =
    let f = finish-IsBacked g a b p n v in ground arith
resume_connect-IsBacked g a (issued t) (ok u) now b p n v =
    let f = finish-IsBacked g a b p n v in ground (arith, open-IsBacked g a t.ticket b p n)

module _ (a : ℕ) where
  -- A socket that is closed on purpose belongs to a past attempt.
  close-IsBacked :
      (now s : ℕ) (e : CloseEvent) (b : Bridge)
      → IsTracked b
      → generation_at s b.bound ≤ a
      → IsBacked b a
      → IsBacked (handle_socket_close now s (generation_at s b.bound) e b) a
  unfolding handle_socket_close finish_connect_attempt
  close-IsBacked now s e b k h v = elim (Bool-cases (is_current b.intentionally_closing s)) [
    | inl meant ↦ elim (Option-cases b.intentionally_closing) [
      | inl i ↦ absurd (ground arith)
      | inr (r, i) ↦ ground arith
    ]
    | inr other ↦ rw other (
        after_drop-IsBacked a now e (drop_socket s (generation_at s b.bound) e b)
          (drop_socket-IsBacked a s e b h v))
  ]

  handle-IsBacked :
      (s : ℕ) (h : ℕ → String → Bridge → Bridge) (b : Bridge)
      → IsBacked b a
      → ((t : String) → generation_at s b.bound ≤ a → IsBacked (h (generation_at s b.bound) t b) a)
      → IsBacked (handle s h b) a
  handle-IsBacked s h b v f = elim (Option-cases (lookup ℕ_discrete s b.bound)) [
    | inl e ↦ rw (e, handle) v
    | inr ((g, t), e) ↦
        rw (e, handle)
          (subst (λ o. IsBacked (h (generation_of o) t b) a) e
            (f t (generation_at-le a s b.bound v.begun)))
  ]

step-IsBacked :
    (b : Bridge) (a : ℕ) (e : Event)
    → Reach b
    → IsPrompt b a e
    → IsBacked b a
    → IsBacked (step b e) (answered_by e a)
unfolding step
step-IsBacked b a (mounts d) r p v =
    connect_effect-IsBacked a d b v.asked v.answered v.begun v.backed
step-IsBacked b a (reruns d) r p v = reruns-IsBacked a d b v
step-IsBacked b a (ticket_arrives g t o now) r (p, n) v =
    ground (arith, resume_connect-IsBacked g a t o now b p n v, v.asked)
step-IsBacked b a (opens s) r p v =
    handle-IsBacked a s (on_open s) b v (λ t h. on_open-IsBacked a s _ t b h v)
step-IsBacked b a (receives u t s m) r p v = on_message-IsBacked a u t s m b v
step-IsBacked b a (closes now s e) r p v =
    handle-IsBacked a s (λ g _. handle_socket_close now s g e) b v
      (λ t h. close-IsBacked a now s e b (Reach-IsTracked r) h v)
step-IsBacked b a (fails s) r p v =
    handle-IsBacked a s (λ g _. on_error s g) b v (λ t h. on_error-IsBacked a s _ b h v)
step-IsBacked b a (token_arrives s t) r p v = token-IsBacked a s t b v
step-IsBacked b a timer_fires r p v = timer-IsBacked a b v
step-IsBacked b a (subscribes o t) r p v = subscription-IsBacked a o t b v
step-IsBacked b a (counts_down now) r p v = countdown-IsBacked a now b v
step-IsBacked b a retries r p v = retry-IsBacked a b v

initial-IsBacked : IsBacked (initial false) 0
unfolding initial latest_request
initial-IsBacked = ground arith

Prompt-IsBacked : {b : Bridge} {a : ℕ} → Prompt b a → IsBacked b a
Prompt-IsBacked begin = initial-IsBacked
Prompt-IsBacked (then_ {b} {answered} e p r) =
    step-IsBacked b answered e (Prompt-Reach r) p (Prompt-IsBacked r)

-- In every run in which each ticket comes, or is refused, while its request is the latest one, and
-- once: whenever a connection is wanted and the page is not leaving for the login, there is a
-- socket, or a timer for the next attempt, or the ticket of the present attempt was asked for and
-- has not come. The flag of an attempt in flight alone does not count.
pub Prompt-is_waiting :
    {b : Bridge} {answered : ℕ}
    → Prompt b answered
    → b.should_connect ≡ true
    → b.redirecting ≡ false
    → is_some b.socket || is_some b.reconnect_timer || awaits b answered ≡ true
Prompt-is_waiting {b} {answered} r wanted here =
    let v = Prompt-IsBacked r in
    let u = Reach-is_underway (Prompt-Reach r) wanted here in
    let k = v.backed in
    elim (Option-cases b.socket) [ inl e ↦ ground arith | inr (s, e) ↦ ground arith ]
