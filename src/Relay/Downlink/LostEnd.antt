-- ===== src/Relay/Downlink/LostEnd.antt =====
-- The end mark of an xHTTP session whose queue is full (core/voidz_core/relay/xhttp.py).
use voidz.Prelude.{
  ℕ, zero, suc, ◌≡◌, ◌≤◌, ◌∙◌, refl, Bool, true, false, List, [], ◌∷◌, Option, none, some, length,
  leb, arith,
}
use voidz.Relay.Bytes.{Bytes}
use voidz.Relay.Gate.{Rates, Now}
use voidz.Relay.Downlink.{Downlink, downlink_queue_max, put_end, finished, fetched, fetched_from}
use voidz.Relay.Downlink.Fifo.{has_end}

module _ (r : Rates) (vless_prefix : Bool) where
  -- The generator takes up to `n` items.
  unfoldable pub fetch_all : ℕ → Downlink r → Downlink r
  fetch_all zero d = d
  fetch_all (suc n) d = fetch_all n (fetched r vless_prefix d)

  fetched_from-reading :
      (queue : List (Option Bytes)) (d : Downlink r)
      → has_end queue ≡ false
      → (fetched_from r vless_prefix queue d).reading ≡ d.reading
  unfolding fetched_from has_end
  fetched_from-reading [] d h = refl
  fetched_from-reading (some chunk ∷ queue) d h = refl
  fetched_from-reading (none ∷ queue) d h = cc

  fetched_from-has_end :
      (queue : List (Option Bytes)) (d : Downlink r)
      → d.queue ≡ queue
      → has_end queue ≡ false
      → has_end (fetched_from r vless_prefix queue d).queue ≡ false
  unfolding fetched_from has_end
  fetched_from-has_end [] d e h = rw e refl
  fetched_from-has_end (some chunk ∷ queue) d e h = h
  fetched_from-has_end (none ∷ queue) d e h = cc

  waits_on :
      (n : ℕ) (d : Downlink r)
      → has_end d.queue ≡ false
      → d.reading ≡ true
      → (fetch_all n d).reading ≡ true
  unfolding fetch_all fetched
  waits_on zero d h reads = reads
  waits_on (suc n) d h reads =
      waits_on n _ (fetched_from-has_end d.queue d refl h)
        (fetched_from-reading d.queue d h ∙ reads)

  -- Where the queue is full of data when the pump ends, the end mark is lost: however many items
  -- the generator takes after that, the answer to the client does not end.
  pub end_lost :
      (now : Now) (d : Downlink r) (n : ℕ)
      → downlink_queue_max ≤ length d.queue
      → has_end d.queue ≡ false
      → d.reading ≡ true
      → (fetch_all n (finished r vless_prefix now d)).reading ≡ true
  unfolding finished put_end
  end_lost now d n full h reads =
      let is_full : leb downlink_queue_max (length d.queue) ≡ true = ground (arith, full) in
      waits_on n (finished r vless_prefix now d) (rw is_full h) reads
