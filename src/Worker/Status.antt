-- ===== src/Worker/Status.antt =====
-- The reports of worker/voidz_worker/main.py on an instance: `instance_status` and
-- `instance_logs`.
use voidz.Prelude.{ℕ, ◌≡◌, ◌≤◌, Bool, true, false, Option, none, some, min, max, arith}
use voidz.Prelude.Integers.{ℤ, pos, negsuc}
use voidz.Prelude.Result.{Result, ok, raise, http}
use voidz.Worker.Driver.{Outcome, Report, done, driver_error, other_error}

-- `healthy` is there for an instance that runs.
pub record Health : Type 0 where
  pub known : Bool
  pub running : Bool
  pub healthy : Option Bool

-- `probed` says whether the probe of the core's port is answered.
unfoldable pub instance_status : Outcome Report → Bool → Result Health
instance_status (done none) probed = ok (record { known = false; running = false; healthy = none })
instance_status (done (some (false, port))) probed =
    ok (record { known = true; running = false; healthy = none })
instance_status (done (some (true, port))) probed =
    ok (record { known = true; running = true; healthy = some probed })
instance_status driver_error probed = raise (http 502)
instance_status other_error probed = raise (http 500)

-- `max(1, min(tail, 1000))`
unfoldable pub tail_lines : ℤ → ℕ
tail_lines (pos n) = max 1 (min n 1000)
tail_lines (negsuc n) = 1

-- A report says that an instance is healthy only if it runs and the probe was answered.
pub healthy_runs :
    (o : Outcome Report) (probed : Bool) (h : Health)
    → instance_status o probed ≡ ok h
    → h.healthy ≡ some true
    → (h.running ≡ true) × (probed ≡ true)
unfolding instance_status
healthy_runs (done none) probed h e t = absurd (ground (arith, e, t))
healthy_runs (done (some (false, port))) probed h e t = absurd (ground (arith, e, t))
healthy_runs (done (some (true, port))) probed h e t = ground (arith, e, t)
healthy_runs driver_error probed h e t = cc
healthy_runs other_error probed h e t = cc

pub tail_lines_bounds : (n : ℤ) → (1 ≤ tail_lines n) × (tail_lines n ≤ 1000)
unfolding tail_lines
tail_lines_bounds (pos n) = (omega arith, omega arith)
tail_lines_bounds (negsuc n) = (omega arith, omega arith)
