-- ===== src/Relay/Downlink.antt =====
-- The downlink of an xHTTP session (core/voidz_core/relay/xhttp.py): `_pump_tcp_to_queue` reads
-- from the target into the session's queue, and the generator of `xhttp_downlink` sends what is
-- there to the client. The queue is bounded: a put waits for room, but the end mark of
-- `teardown`, `put_nowait(None)`, is dropped where there is none.
pub mod Fifo
pub mod LostEnd
pub mod Route
use voidz.Prelude.{
  ℕ, zero, suc, ◌≡◌, ◌<◌, Bool, true, false, ◌&&◌, List, [], ◌∷◌, ◌++◌, Option, none, some, length,
  leb, ◌==◌, list_eq, nat_eq, if◌then◌else◌,
}
use voidz.Relay.Bytes.{Bytes}
use voidz.Relay.Gate
use voidz.Relay.Gate.{Rates, Context, Now, Gate}

abbrev pub downlink_queue_max : ℕ
downlink_queue_max = 512

-- The first data of a VLESS session is put with the answer's header in front.
unfoldable pub framed : Bool → Bool → Bytes → Bytes
framed vless_prefix first chunk = if vless_prefix && first then 0 ∷ 0 ∷ chunk else chunk

-- `put_nowait(None)`, whose `QueueFull` is passed over
unfoldable pub put_end : List (Option Bytes) → List (Option Bytes)
put_end queue = if leb downlink_queue_max (length queue) then queue else queue ++ none ∷ []

-- The two sides and the queue between them. `taken` is what the pump has read and put.
pub record Downlink (r : Rates) : Type 0 where
  pub first : Bool
  pub queue : List (Option Bytes)
  pub taken : Bytes
  pub delivered : Bytes
  pub pumping : Bool
  pub reading : Bool
  pub gate : Gate r
  pub ctx : Context

module _ (r : Rates) (vless_prefix : Bool) where
  -- The end of the pump, for whatever reason: the last flush and the teardown.
  unfoldable pub finished : Now → Downlink r → Downlink r
  unfolding put_end
  finished now d =
      let (allowed, gate, ctx) = Gate.flush r now d.gate d.ctx in
      record d { queue = put_end d.queue; pumping = false; gate = gate; ctx = ctx }

  -- The data behind the gate.
  unfoldable pub passed : Now → Bytes → Downlink r → Bool × Gate r × Context → Downlink r
  unfolding finished framed
  passed now chunk d (false, gate, ctx) = finished now (record d { gate = gate; ctx = ctx })
  passed now chunk d (true, gate, ctx) = record d {
    first = false;
    queue = d.queue ++ some (framed vless_prefix d.first chunk) ∷ [];
    taken = d.taken ++ chunk;
    gate = gate;
    ctx = ctx;
  }

  -- A read returns: with no data at the end of the stream.
  unfoldable pub received : Now → Bytes → Downlink r → Downlink r
  unfolding passed
  received now chunk d =
      if chunk == []
      then finished now d
      else passed now chunk d (Gate.add r now (length chunk) d.gate d.ctx)

  -- The generator takes the next item, and waits if there is none.
  unfoldable pub fetched_from : List (Option Bytes) → Downlink r → Downlink r
  fetched_from [] d = d
  fetched_from (some chunk ∷ queue) d = record d { queue = queue; delivered = d.delivered ++ chunk }
  fetched_from (none ∷ queue) d = record d { queue = queue; reading = false }

  unfoldable pub fetched : Downlink r → Downlink r
  unfolding fetched_from
  fetched d = fetched_from d.queue d

  -- The steps of the two sides, in any order.
  pub data Reach : Downlink r → Type 0 where
    opened :
        (gate : Gate r) (ctx : Context)
        → Reach (record {
          first = true;
          queue = [];
          taken = [];
          delivered = [];
          pumping = true;
          reading = true;
          gate = gate;
          ctx = ctx;
        })
    read :
        {d : Downlink r} (now : Now) (chunk : Bytes)
        → d.pumping ≡ true
        → length d.queue < downlink_queue_max
        → Reach d
        → Reach (received now chunk d)
    failed : {d : Downlink r} (now : Now) → d.pumping ≡ true → Reach d → Reach (finished now d)
    sent : {d : Downlink r} → d.reading ≡ true → Reach d → Reach (fetched d)
