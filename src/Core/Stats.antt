-- ===== src/Core/Stats.antt =====
-- `RuntimeStats` of core/voidz_core/state.py. The hours of `hourly` are numbers here: their texts
-- (`%Y-%m-%dT%H:00`) compare as the hours do.
pub mod Bounds
use voidz.Prelude.{
  ℕ, ◌+◌, ◌-◌, List, [], ◌∷◌, ◌++◌, Option, none, some, length, take, drop, keep, ltb, leb, not,
  if◌then◌else◌, nat_eq,
}
use voidz.Prelude.Dict
use voidz.Prelude.Dict.{Dict}

pub record ErrorEntry : Type 0 where
  pub error : List ℕ
  pub time : ℕ

pub record RuntimeStats : Type 0 where
  pub total_bytes : ℕ
  pub total_requests : ℕ
  pub total_errors : ℕ
  pub hourly : Dict ℕ ℕ
  pub errors : List ErrorEntry

abbrev pub init : RuntimeStats
init = record { total_bytes = 0; total_requests = 0; total_errors = 0; hourly = []; errors = [] }

abbrev pub max_errors : ℕ
max_errors = 50

-- `self.hourly[hour] += n` of a `defaultdict(int)`
unfoldable pub add_traffic : ℕ → ℕ → RuntimeStats → RuntimeStats
add_traffic hour n stats =
    let old : ℕ = elim (Dict.get hour stats.hourly) [ none ↦ 0 | some m ↦ m ] in
    record stats {
      total_bytes = stats.total_bytes + n;
      hourly = Dict.put hour (old + n) stats.hourly;
    }

unfoldable pub add_request : RuntimeStats → RuntimeStats
add_request stats = record stats { total_requests = stats.total_requests + 1 }

-- `append` to a `deque(maxlen=n)`: the oldest entries fall out.
unfoldable pub push_bounded {ℓ} : {A : Type ℓ} → ℕ → A → List A → List A
push_bounded n a xs = let longer = xs ++ (a ∷ []) in drop (length longer - n) longer

unfoldable pub add_error : List ℕ → ℕ → RuntimeStats → RuntimeStats
unfolding push_bounded
add_error message time stats = record stats {
  total_errors = stats.total_errors + 1;
  errors = push_bounded max_errors (record { error = take 300 message; time = time }) stats.errors;
}

-- `now` is the current hour.
unfoldable pub prune_hourly : ℕ → ℕ → RuntimeStats → RuntimeStats
prune_hourly keep_hours now stats =
    if leb (length stats.hourly) keep_hours
    then stats
    else record stats { hourly = keep (λ e. not (ltb e.0 (now - keep_hours))) stats.hourly }
