-- ===== src/Realtime/Steps/Tracked.antt =====
-- ws-auth-bridge.tsx: which sockets and generations a state of `WsAuthBridge` may hold.
use link_lynx_ai.Common.{
  ℕ, suc, ◌≤◌, ◌<◌, String, List, [], ◌∷◌, Option, none, some, arith, Option-cases, inl, inr, All,
  All-map, lookup, ℕ_discrete,
}
use link_lynx_ai.Realtime.Bridge.{Bridge, finish_connect_attempt, redirect_to_login}
use link_lynx_ai.Realtime.Handlers.{CloseEvent, drop_socket}
use link_lynx_ai.Realtime.Connect.{connect, clean_up}
use link_lynx_ai.Realtime.Steps.{}
use link_lynx_ai.Realtime.Steps.Invariant.{IsBelow}

-- The generation that a socket was bound to.
abbrev pub generation_of : Option (ℕ × String) → ℕ
generation_of none = 0
generation_of (some (g, t)) = g

abbrev pub generation_at : ℕ → List (ℕ × (ℕ × String)) → ℕ
generation_at s bound = generation_of (lookup ℕ_discrete s bound)

abbrev pub IsPast : Option ℕ → List (ℕ × (ℕ × String)) → ℕ → Type 0
IsPast none bound n = Unit
IsPast (some s) bound n = generation_at s bound < n

abbrev pub HasBegun : ℕ → List (ℕ × (ℕ × String)) → Type 0
HasBegun n = All (λ e. e.1.0 ≤ n)

HasBegun-suc : (n : ℕ) (bound : List (ℕ × (ℕ × String))) → HasBegun n bound → HasBegun (suc n) bound
HasBegun-suc n bound = All-map (λ e. e.1.0 ≤ n) (λ e. e.1.0 ≤ suc n) (λ e h. omega arith) bound

pub generation_at-le :
    (n s : ℕ) (bound : List (ℕ × (ℕ × String))) → HasBegun n bound → generation_at s bound ≤ n
unfolding lookup
generation_at-le n s [] h = omega arith
generation_at-le n s ((r, (g, t)) ∷ bound) h = ground (arith, generation_at-le n s bound h.1)

-- The sockets and generations of a state fit: what is being closed belongs to a past generation.
pub record IsTracked (b : Bridge) : Type 0 where
  pub begun : HasBegun b.connect_generation b.bound
  pub past : IsPast b.intentionally_closing b.bound b.connect_generation
  pub closing : IsBelow b.intentionally_closing b.next_socket
  pub current : IsBelow b.socket b.next_socket

pub connect-IsTracked : (b : Bridge) → IsTracked b → IsTracked (connect b)
unfolding connect
connect-IsTracked b v = elim (Option-cases b.socket) [
  | inl e ↦ ground (arith, HasBegun-suc b.connect_generation b.bound v.begun)
  | inr (s, e) ↦ ground (
    arith,
    HasBegun-suc b.connect_generation b.bound v.begun,
    generation_at-le b.connect_generation s b.bound v.begun,
  )
]

pub clean_up-IsTracked : (b : Bridge) → IsTracked b → IsTracked (clean_up b)
unfolding clean_up
clean_up-IsTracked b v = elim (Option-cases b.socket) [
  | inl e ↦ ground (arith, HasBegun-suc b.connect_generation b.bound v.begun)
  | inr (s, e) ↦ ground (
    arith,
    HasBegun-suc b.connect_generation b.bound v.begun,
    generation_at-le b.connect_generation s b.bound v.begun,
  )
]

pub redirect-IsTracked : (b : Bridge) → IsTracked b → IsTracked (redirect_to_login b)
unfolding redirect_to_login
redirect-IsTracked b v = elim (Option-cases b.socket) [
  | inl e ↦ ground (arith, HasBegun-suc b.connect_generation b.bound v.begun)
  | inr (s, e) ↦ ground (
    arith,
    HasBegun-suc b.connect_generation b.bound v.begun,
    generation_at-le b.connect_generation s b.bound v.begun,
  )
]

pub finish-IsTracked : (g : ℕ) (b : Bridge) → IsTracked b → IsTracked (finish_connect_attempt g b)
unfolding finish_connect_attempt
finish-IsTracked g b v = ground arith

pub drop_socket-IsTracked :
    (s g : ℕ) (e : CloseEvent) (b : Bridge) → IsTracked b → IsTracked (drop_socket s g e b)
unfolding drop_socket
drop_socket-IsTracked s g e b v = ground arith
