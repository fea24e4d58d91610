-- ===== src/Realtime/Steps/Prompt.antt =====
-- ws-auth-bridge.tsx: runs of `WsAuthBridge` in which no ticket of a given-up attempt comes late, and
-- what the component waits for in them.
use link_lynx_ai.Common.{
  ℕ, ◌≤◌, String, Bool, true, false, List, [], ◌∷◌, Option, none, some, ◌≡◌, ◌≢◌, not, ◌&&◌, ◌||◌,
  ◌==◌,
}
use link_lynx_ai.Realtime.Bridge.{Bridge, Effect, request_ticket, initial}
use link_lynx_ai.Realtime.Handlers.{}
use link_lynx_ai.Realtime.Connect.{}
use link_lynx_ai.Realtime.Steps.{Event, ticket_arrives, step, Reach, start, next}
use link_lynx_ai.Realtime.Steps.Tracked.{HasBegun, generation_at}

-- The generation whose ticket was asked for last; generations count from 1.
unfoldable pub latest_request : List Effect → ℕ
latest_request [] = 0
latest_request (request_ticket g ∷ effects) = g
latest_request (_ ∷ effects) = latest_request effects

-- A ticket, or its refusal, comes for the latest request only, and once.
abbrev pub IsPrompt : Bridge → ℕ → Event → Type 0
IsPrompt b answered (ticket_arrives g r o now) = (latest_request b.effects ≡ g) × (answered ≢ g)
IsPrompt b answered _ = Unit

abbrev pub answered_by : Event → ℕ → ℕ
answered_by (ticket_arrives g r o now) answered = g
answered_by _ answered = answered

-- Such runs, with the generation that was answered last.
pub data Prompt : Bridge → ℕ → Type 0 where
  begin : Prompt (initial false) 0
  then_ :
      {b : Bridge} {answered : ℕ} (e : Event)
      → IsPrompt b answered e
      → Prompt b answered
      → Prompt (step b e) (answered_by e answered)

pub Prompt-Reach : {b : Bridge} {a : ℕ} → Prompt b a → Reach b
Prompt-Reach begin = start
Prompt-Reach (then_ e p r) = next e (Prompt-Reach r)

-- The ticket of the present attempt was asked for and has not come.
abbrev pub awaits : Bridge → ℕ → Bool
awaits b a = latest_request b.effects == b.connect_generation && not (a == b.connect_generation)

abbrev pub holds : Option ℕ → List (ℕ × (ℕ × String)) → ℕ → Bool
holds none bound n = false
holds (some s) bound n = generation_at s bound == n

-- What the flag of an attempt in flight stands for.
pub record IsBacked (b : Bridge) (a : ℕ) : Type 0 where
  pub asked : latest_request b.effects ≤ b.connect_generation
  pub answered : a ≤ latest_request b.effects
  pub begun : HasBegun a b.bound
  pub backed :
      b.connect_in_flight ≡ true → awaits b a || holds b.socket b.bound b.connect_generation ≡ true
  pub kept :
      b.should_connect ≡ true
      → b.redirecting ≡ false
      → latest_request b.effects ≢ a
      → b.connect_in_flight ≡ true
