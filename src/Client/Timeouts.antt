-- ===== src/Client/Timeouts.antt =====
-- The timeouts that the typed clients give to client-go.
use Prim.Native.Nat.{◌^◌}
use observability.Base.{ℕ, ◌*◌, ◌<◌, ◌≤◌, ◌≡◌, ◌↔◌, arith, some}
use observability.Client.Request.{timeout_of, seconds_duration}

-- For a timeout of seconds that is not negative in 64 bits, the duration that the clients give is
-- that many seconds in nanoseconds, and not negative, exactly when there are at most 9223372036
-- seconds.
pub timeout_exact :
    (s : ℕ)
    → s < 2 ^ 63
    → ((timeout_of (some s) ≡ s * 1000000000) × (timeout_of (some s) < 2 ^ 63)) ↔ (s ≤ 9223372036)
unfolding timeout_of seconds_duration
timeout_exact s l = (λ (e, b). omega arith, λ h. (omega arith, omega arith))
