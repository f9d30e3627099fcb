-- ===== src/Console/RateLimit.antt =====
-- The sliding-window rate limiter (console/api/voidz_console/security/ratelimit.py). Times are
-- milliseconds of `time.monotonic()`.
mod Windows
pub mod Sliding
use voidz.Prelude.{
  ℕ, zero, suc, ◌+◌, ◌-◌, ◌/◌, ◌≤◌, String, Bool, true, false, List, [], ◌∷◌, ◌++◌, Option, none,
  some, length, ltb, leb, if◌then◌else◌, string_eq,
}
use voidz.Prelude.Dict.{Dict, get, put}

pub record Rule : Type 0 where
  pub limit : ℕ
  pub window_ms : ℕ

-- What a check says: nothing, `HTTPException(429)` with its `Retry-After` in seconds, or the
-- `IndexError` of `window[0]` where the limit is 0 and the window empty.
pub data Verdict : Type 0 where
  allowed : Verdict
  too_many : ℕ → Verdict
  no_hit : Verdict

-- `_hits`, a `defaultdict(deque)`, oldest hit first
abbrev pub Hits : Type 0
Hits = Dict String (List ℕ)

unfoldable pub window_of : String → Hits → List ℕ
window_of key hits = elim (get key hits) [ none ↦ [] | some window ↦ window ]

-- The `popleft` loop.
unfoldable pub drop_old : Rule → ℕ → List ℕ → List ℕ
drop_old rule now [] = []
drop_old rule now (h ∷ window) =
    let rest = drop_old rule now window in if leb (h + rule.window_ms) now then rest else h ∷ window

unfoldable pub refuse : Rule → ℕ → List ℕ → Verdict
refuse rule now [] = no_hit
refuse rule now (h ∷ window) = too_many ((h + rule.window_ms - now) / 1000 + 1)

unfoldable pub check : String → Rule → ℕ → Hits → Verdict × Hits
check key rule now hits =
    let window = drop_old rule now (window_of key hits) in
    if leb rule.limit (length window)
    then (refuse rule now window, put key window hits)
    else (allowed, put key (window ++ now ∷ []) hits)

unfoldable pub is_allowed : Verdict → Bool
is_allowed allowed = true
is_allowed (too_many retry_after) = false
is_allowed no_hit = false

-- Checks one after another on a clock that does not go back: the hits that are kept, every
-- accepted request with its time, latest first, and the time of the last check.
pub data Served (rule : Rule) : Hits → List (String × ℕ) → ℕ → Type 0 where
  start : Served rule [] [] 0
  checked :
      {hits : Hits} {log : List (String × ℕ)} {last : ℕ} (key : String) (now : ℕ)
      → last ≤ now
      → Served rule hits log last
      → Served rule
          ((check key rule now hits).1)
          (if is_allowed ((check key rule now hits).0) then (key, now) ∷ log else log)
          now
