-- ===== src/Relay/Flow/Range.antt =====
-- Where the high water of a flow lies, and how fast it gets there
-- (core/voidz_core/relay/xhttp.py).
use voidz.Prelude.{ℕ, ◌+◌, ◌*◌, ◌/◌, ◌≤◌, ◌<◌, ◌≡◌, min, max, List, [], ◌∷◌, arith}
use voidz.Relay.Flow.{
  flow_min_hw, flow_max_hw, flow_start_hw, flow_fast_drain, flow_slow_drain, adjust, adjust_all,
}

adjust_range :
    (elapsed h : ℕ)
    → flow_min_hw ≤ h
    → h ≤ flow_max_hw
    → (flow_min_hw ≤ adjust elapsed h) × (adjust elapsed h ≤ flow_max_hw)
unfolding adjust
adjust_range elapsed h low high = ground arith

adjust_all_range :
    (drains : List ℕ) (h : ℕ)
    → flow_min_hw ≤ h
    → h ≤ flow_max_hw
    → (flow_min_hw ≤ adjust_all drains h) × (adjust_all drains h ≤ flow_max_hw)
unfolding adjust_all
adjust_all_range [] h low high = (low, high)
adjust_all_range (elapsed ∷ rest) h low high =
    let (low', high') = adjust_range elapsed h low high in
    adjust_all_range rest (adjust elapsed h) low' high'

adjust-fast :
    (elapsed h : ℕ) → elapsed < flow_fast_drain → adjust elapsed h ≡ min flow_max_hw (h * 2 + 65536)
unfolding adjust
adjust-fast elapsed h fast = ground arith

adjust-slow :
    (elapsed h : ℕ) → flow_slow_drain < elapsed → adjust elapsed h ≡ max flow_min_hw (h / 2)
unfolding adjust
adjust-slow elapsed h slow = ground arith

-- Whatever drains a flow has had, its high water lies between 256 KiB and 32 MiB; seven fast
-- drains after them lift it to the top, and seven slow ones bring it down to the bottom.
pub adjust_all_settles :
    (drains : List ℕ) (fast slow : ℕ)
    → fast < flow_fast_drain
    → flow_slow_drain < slow
    → (let h = adjust_all drains flow_start_hw in
        (flow_min_hw ≤ h)
        × (h ≤ flow_max_hw)
        × (adjust_all (fast ∷ fast ∷ fast ∷ fast ∷ fast ∷ fast ∷ fast ∷ []) h ≡ flow_max_hw)
        × (adjust_all (slow ∷ slow ∷ slow ∷ slow ∷ slow ∷ slow ∷ slow ∷ []) h ≡ flow_min_hw))
unfolding adjust_all
adjust_all_settles drains fast slow quick late =
    let h = adjust_all drains flow_start_hw in
    let (low, high) = adjust_all_range drains flow_start_hw (omega arith) (omega arith) in
    let u1 = adjust fast h in
    let u2 = adjust fast u1 in
    let u3 = adjust fast u2 in
    let u4 = adjust fast u3 in
    let u5 = adjust fast u4 in
    let u6 = adjust fast u5 in
    let u7 = adjust fast u6 in
    let d1 = adjust slow h in
    let d2 = adjust slow d1 in
    let d3 = adjust slow d2 in
    let d4 = adjust slow d3 in
    let d5 = adjust slow d4 in
    let d6 = adjust slow d5 in
    let d7 = adjust slow d6 in
    (
      low,
      high,
      omega (
        arith,
        low,
        high,
        adjust-fast fast h quick,
        adjust-fast fast u1 quick,
        adjust-fast fast u2 quick,
        adjust-fast fast u3 quick,
        adjust-fast fast u4 quick,
        adjust-fast fast u5 quick,
        adjust-fast fast u6 quick,
      ),
      omega (
        arith,
        low,
        high,
        adjust-slow slow h late,
        adjust-slow slow d1 late,
        adjust-slow slow d2 late,
        adjust-slow slow d3 late,
        adjust-slow slow d4 late,
        adjust-slow slow d5 late,
        adjust-slow slow d6 late,
      ),
    )
