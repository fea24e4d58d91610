-- ===== src/Realtime/Delay.antt =====
-- app/providers/ws-auth-bridge.tsx, `computeReconnectDelayMs`: the delays between the attempts to reconnect.
use link_lynx_ai.Common.{ℕ, zero, suc, ◌≤◌, ◌*◌, ◌+◌, ◌^◌, ◌-◌, min, max, ◌≡◌, arith}
use link_lynx_ai.Realtime.Connection.{compute_reconnect_delay_ms}

pow-suc : (n : ℕ) → 2 ^ suc n ≡ 2 * 2 ^ n
pow-suc n = ground arith

pow-pos : (n : ℕ) → 1 ≤ 2 ^ n
pow-pos zero = omega arith
pow-pos (suc n) = ground (arith, pow-suc n, pow-pos n)

pow_mono : (n k : ℕ) → 2 ^ n ≤ 2 ^ (k + n)
pow_mono n zero = let e : 0 + n ≡ n = omega arith in rw e (omega arith)
pow_mono n (suc k) = ground (arith, pow-suc (k + n), pow_mono n k)

-- The exponent of an attempt.
max_pred : (n : ℕ) → max (suc n) 1 - 1 ≡ n
max_pred n = omega arith

-- The first attempt waits one second, and each later one twice as long as the one before, up to
-- half a minute.
pub compute_reconnect_delay_ms-suc :
    (n : ℕ)
    → (compute_reconnect_delay_ms 1 ≡ 1000)
      × (compute_reconnect_delay_ms (suc (suc n))
          ≡ min (2 * compute_reconnect_delay_ms (suc n)) 30000)
unfolding compute_reconnect_delay_ms
compute_reconnect_delay_ms-suc n =
    rw (max_pred n, max_pred (suc n)) (ground (arith, pow-suc n, pow-pos n))

-- Every delay is between one second and half a minute, and a later attempt waits no shorter.
pub compute_reconnect_delay_ms-bounds :
    (n m : ℕ)
    → n ≤ m
    → (1000 ≤ compute_reconnect_delay_ms n)
      × (compute_reconnect_delay_ms n ≤ compute_reconnect_delay_ms m)
      × (compute_reconnect_delay_ms m ≤ 30000)
unfolding compute_reconnect_delay_ms
compute_reconnect_delay_ms-bounds n m h =
    let i = max n 1 - 1 in
    let j = max m 1 - 1 in
    let k = j - i in
    let e : k + i ≡ j = omega arith in
    let p = pow-pos i in let q : 2 ^ i ≤ 2 ^ j = rw⁻¹ e (pow_mono i k) in ground arith
