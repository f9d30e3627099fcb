-- ===== src/Console/Pipelines/Healthy.antt =====
-- What the health checks have seen (console/api/voidz_console/services/deployments.py).
use voidz.Prelude.{ℕ, zero, suc, ◌+◌, ◌≤◌, ◌<◌, ◌≡◌, refl, Bool, true, false, arith, ◌⊎◌, inl, inr}
use voidz.Prelude.Result.{Result, ok}
use voidz.Console.Deploy.{
  Probe, answered, no_answer, broken, after_probe, after_get, health_checks, public_checks,
}

-- An attempt that found it healthy.
abbrev pub IsHealthy : (ℕ → Probe) → ℕ → Type 0
IsHealthy probe n = (alive : Bool) × (probe n ≡ answered true alive)

abbrev pub WasHealthy : (ℕ → Probe) → ℕ → ℕ → Type 0
WasHealthy probe from left = (n : ℕ) × (from ≤ n) × (n < from + left) × IsHealthy probe n

after_probe-true :
    (p : Probe) (rest : Result Bool)
    → after_probe p rest ≡ ok true
    → ((alive : Bool) × (p ≡ answered true alive)) ⊎ (rest ≡ ok true)
unfolding after_probe
after_probe-true (answered true alive) rest h = inl (alive, refl)
after_probe-true (answered false true) rest h = inr h
after_probe-true (answered false false) rest h = cc
after_probe-true no_answer rest h = inr h
after_probe-true (broken e) rest h = cc

after_get-true :
    (p : Probe) (rest : Result Bool)
    → after_get p rest ≡ ok true
    → ((alive : Bool) × (p ≡ answered true alive)) ⊎ (rest ≡ ok true)
unfolding after_get
after_get-true (answered true alive) rest h = inl (alive, refl)
after_get-true (answered false alive) rest h = inr h
after_get-true no_answer rest h = inr h
after_get-true (broken e) rest h = cc

-- one attempt more
WasHealthy-suc :
    (probe : ℕ → Probe) (from left : ℕ)
    → IsHealthy probe from ⊎ WasHealthy probe (from + 1) left
    → WasHealthy probe from (suc left)
WasHealthy-suc probe from left (inl now) = (from, omega arith, omega arith, now)
WasHealthy-suc probe from left (inr (n, after, before, then_healthy)) =
    (n, omega (arith, after), omega (arith, before), then_healthy)

pub health_checks-WasHealthy :
    (probe : ℕ → Probe) (left attempt : ℕ)
    → health_checks probe left attempt ≡ ok true
    → WasHealthy probe attempt left
unfolding health_checks
health_checks-WasHealthy probe zero attempt h = cc
health_checks-WasHealthy probe (suc left) attempt h =
    elim (after_probe-true (probe attempt) (health_checks probe left (attempt + 1)) h) [
      | inl now ↦ WasHealthy-suc probe attempt left (inl now)
      | inr later ↦
          WasHealthy-suc probe attempt left
            (inr (health_checks-WasHealthy probe left (attempt + 1) later))
    ]

pub public_checks-WasHealthy :
    (probe : ℕ → Probe) (left attempt : ℕ)
    → public_checks probe left attempt ≡ ok true
    → WasHealthy probe attempt left
unfolding public_checks
public_checks-WasHealthy probe zero attempt h = cc
public_checks-WasHealthy probe (suc left) attempt h =
    elim (after_get-true (probe attempt) (public_checks probe left (attempt + 1)) h) [
      | inl now ↦ WasHealthy-suc probe attempt left (inl now)
      | inr later ↦
          WasHealthy-suc probe attempt left
            (inr (public_checks-WasHealthy probe left (attempt + 1) later))
    ]
