-- ===== src/Relay/Gate.antt =====
-- `QuotaGate` of core/voidz_core/relay/base.py: batched accounting for one connection. Times are
-- milliseconds of a clock that does not go back.
pub mod Batches
pub mod Enforced
use voidz.Prelude.{
  ℕ, ◌+◌, ◌-◌, ◌*◌, String, Bool, true, false, not, ◌&&◌, ◌||◌, Option, none, some, min, max, ltb,
  leb, eqb, if◌then◌else◌,
}
use voidz.Core.Link.{Time}
use voidz.Core.Store
use voidz.Core.Store.{LinkStore}
use voidz.Core.Tracker
use voidz.Core.Tracker.{Tracker}
use voidz.Core.Stats
use voidz.Core.Stats.{RuntimeStats}

abbrev pub quota_min_batch : ℕ
quota_min_batch = 32 * 1024

abbrev pub quota_max_batch : ℕ
quota_max_batch = 2 * 1024 * 1024

abbrev pub quota_start_batch : ℕ
quota_start_batch = 128 * 1024

abbrev pub quota_check_interval : ℕ
quota_check_interval = 250

-- The floating-point part: `flush / elapsed`, `0.7 * a + 0.3 * b` and
-- `int(r * QUOTA_CHECK_INTERVAL)`, which is not negative.
pub record Rates : Type 1 where
  pub Rate : Type 0
  pub zero_rate : Rate
  pub is_zero : Rate → Bool
  pub per_elapsed : ℕ → ℕ → Rate
  pub smooth : Rate → Rate → Rate
  pub window_bytes : Rate → ℕ

-- `RelayContext`: the stores that a relay handler shares with the others.
pub record Context : Type 0 where
  pub links : LinkStore
  pub connections : Tracker
  pub stats : RuntimeStats

-- The clock readings of one call: monotonic, the hour for the traffic buckets, and the wall clock.
pub record Now : Type 0 where
  pub monotonic : ℕ
  pub hour : ℕ
  pub time : Time

-- `max(QUOTA_MIN_BATCH, min(QUOTA_MAX_BATCH, target or QUOTA_MIN_BATCH))`
unfoldable pub next_batch : ℕ → ℕ
next_batch target =
    max quota_min_batch (min quota_max_batch (if eqb target 0 then quota_min_batch else target))

module _ (r : Rates) where
  open r use {Rate, zero_rate, is_zero, per_elapsed, smooth, window_bytes}

  pub record Gate : Type 0 where
    pub uuid : String
    pub conn_id : Option String
    pub pending : ℕ
    pub last_check : ℕ
    pub open_now : Bool
    pub batch_bytes : ℕ
    pub rate_ewma : Rate

  unfoldable pub init : String → Option String → ℕ → Gate
  init uuid conn_id now = record {
    uuid = uuid;
    conn_id = conn_id;
    pending = 0;
    last_check = now;
    open_now = true;
    batch_bytes = quota_start_batch;
    rate_ewma = zero_rate;
  }

  -- `_account`
  unfoldable pub account : Now → Gate → ℕ → Context → Bool × Context
  account now gate n ctx =
      let (allowed, links) = Store.use_bytes now.time gate.uuid n ctx.links in
      (
        allowed,
        record {
          links = links;
          connections = elim gate.conn_id [
            | none ↦ ctx.connections
            | some conn_id ↦ Tracker.add_bytes conn_id n ctx.connections
          ];
          stats = Stats.add_traffic now.hour n ctx.stats;
        },
      )

  -- The rate and the batch size after `n` bytes in `elapsed` milliseconds.
  unfoldable pub adapt : ℕ → ℕ → Gate → Gate
  unfolding next_batch
  adapt n elapsed gate =
      let rate = per_elapsed n elapsed in
      let ewma = if is_zero gate.rate_ewma then rate else smooth gate.rate_ewma rate in
      if ltb 0 elapsed
      then record gate { rate_ewma = ewma; batch_bytes = next_batch (window_bytes ewma) }
      else gate

  -- `add` from the point where a flush is due.
  unfoldable pub flush_due : Now → Gate → ℕ → Context → Bool × Gate × Context
  flush_due now gate n ctx =
      let adapted = adapt n (now.monotonic - gate.last_check) gate in
      let (allowed, ctx') = account now gate n ctx in
      (
        allowed,
        record adapted { pending = 0; last_check = now.monotonic; open_now = allowed },
        ctx',
      )

  unfoldable pub add : Now → ℕ → Gate → Context → Bool × Gate × Context
  add now nbytes gate ctx =
      let pending = gate.pending + nbytes in
      if not gate.open_now
      then (false, gate, ctx)
      else if leb gate.batch_bytes pending
          || leb quota_check_interval (now.monotonic - gate.last_check)
      then flush_due now gate pending ctx
      else (true, record gate { pending = pending }, ctx)

  unfoldable pub flush : Now → Gate → Context → Bool × Gate × Context
  flush now gate ctx =
      let (allowed, ctx') = account now gate gate.pending ctx in
      if eqb gate.pending 0
      then (gate.open_now, gate, ctx)
      else if gate.open_now
      then (allowed, record gate { pending = 0; open_now = allowed }, ctx')
      else (false, record gate { pending = 0 }, ctx)
