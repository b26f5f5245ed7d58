-- ===== src/ClearCore/Requests.antt =====
-- The counters of the client (src/finishing_line/devices/clearcore.py).
use finishing_line.ClearCore.{next_count}
use finishing_line.Common.{arith, ℕ, ◌≢◌, ◌≤◌}

-- A counter goes from 1 to 65535 and changes at each step, from any value of a register.
pub next_count-bounds : (n : ℕ) → (next_count n ≢ n) × (1 ≤ next_count n) × (next_count n ≤ 65535)
next_count-bounds n = ((λ h. omega (arith, h)), omega arith, omega arith)
