-- ===== src/Store/Outbox/Backoff.antt =====
-- The retry schedule.
use trackdown.Prelude.{ℕ, zero, suc, ◌≤◌, ◌*◌, arith}
use trackdown.Store.Outbox.{alert_backoff, minute, hour}

-- The wait grows with the number of failures, from one minute to at most twelve hours.
pub alert_backoff_bounds :
    (n : ℕ)
    → (minute ≤ alert_backoff n)
      × (alert_backoff n ≤ alert_backoff (suc n))
      × (alert_backoff n ≤ 12 * hour)
unfolding alert_backoff
alert_backoff_bounds zero = omega arith
alert_backoff_bounds (suc zero) = omega arith
alert_backoff_bounds (suc (suc zero)) = omega arith
alert_backoff_bounds (suc (suc (suc zero))) = omega arith
alert_backoff_bounds (suc (suc (suc (suc zero)))) = omega arith
alert_backoff_bounds (suc (suc (suc (suc (suc zero))))) = omega arith
alert_backoff_bounds (suc (suc (suc (suc (suc (suc n)))))) = ground arith
