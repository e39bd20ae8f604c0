-- ===== src/Gateway/Backoff.antt =====
-- websocket.ts: the delays before the attempts to reconnect.
use native.Mathlib.Nat.{pow-suc, zero-add, le_refl}
use together.Base.{ℕ, zero, suc, ◌+◌, ◌*◌, ◌^◌, ◌≤◌, ◌≡◌, arith, min}
use together.Gateway.{backoff}

pow-pos : (n : ℕ) → 1 ≤ 2 ^ n
pow-pos zero = omega arith
pow-pos (suc n) = rw pow-suc (omega (arith, pow-pos n))

pow-ge : (n m : ℕ) → 2 ^ m ≤ 2 ^ (n + m)
pow-ge zero m = rw zero-add (le_refl _)
pow-ge (suc n) m =
    let e : suc n + m ≡ suc (n + m) = omega arith in rw (e, pow-suc) (omega (arith, pow-ge n m))

-- Each delay lies between one second and thirty, none is shorter than the one before it, each below the
-- limit doubles, and from the fifth failure in a row on it is thirty seconds.
backoff_bounds :
    (n m : ℕ)
    → (1000 ≤ backoff n)
      × (backoff n ≤ 30000)
      × (backoff n ≤ backoff (suc n))
      × (backoff (suc n) ≡ min (2 * backoff n) 30000)
      × (backoff (m + 5) ≡ 30000)
unfolding backoff
backoff_bounds n m = rw pow-suc (
  omega (arith, pow-pos n),
  omega arith,
  omega (arith, pow-pos n),
  omega (arith, pow-pos n),
  omega (arith, pow-ge m 5),
)
