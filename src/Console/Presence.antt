-- ===== src/Console/Presence.antt =====
-- Which addresses of a customer hold a device slot: `_live_ips_by_region`, `_update_presence` and
-- the lock of console/api/voidz_console/services/quota.py. Times are milliseconds since the epoch.
pub mod Arrivals
pub mod Slots
use Prim.Native.Nat.{Ordering}
use Prim.Native.String.{compare}
use voidz.Prelude.{
  ℕ, ◌-◌, min, String, Bool, true, false, not, ◌&&◌, List, [], ◌∷◌, Option, none, some, map, keep,
  length, take, ltb, leb, if◌then◌else◌, ◌==◌, string_eq,
}
use voidz.Prelude.Result.{Result, ok, raise, value_error, ◌>>=◌}
use voidz.Prelude.Sorting.{sorted}
use voidz.Prelude.Dict
use voidz.Prelude.Dict.{Dict}
use voidz.Console.Fleet.{World, Delivery, delivered, lost, unanswered, garbled}

abbrev pub linger_ms : ℕ
linger_ms = 8000

abbrev pub confirm_ms : ℕ
confirm_ms = 4000

-- When an address arrived and when it was last there.
pub record Seen : Type 0 where
  pub first : ℕ
  pub last : ℕ

-- The addresses of one region with the start of their earliest connection, if it parsed.
abbrev pub Ips : Type 0
Ips = Dict String (Option ℕ)

-- Whether a start is earlier than the one that is kept.
unfoldable pub is_earlier : Option ℕ → Option ℕ → Bool
is_earlier none kept = false
is_earlier (some t) none = true
is_earlier (some t) (some k) = ltb t k

-- One row of a region's answer: an address, maybe empty, and its parsed start.
unfoldable pub add_conn : String × Option ℕ → Ips → Ips
add_conn (ip, ts) ips = if ip == "" then ips else elim (Dict.get ip ips) [
  | none ↦ Dict.put ip ts ips
  | some kept ↦ if is_earlier ts kept then Dict.put ip ts ips else ips
]

unfoldable pub add_conns : List (String × Option ℕ) → Ips → Ips
add_conns [] ips = ips
add_conns (row ∷ rows) ips = add_conns rows (add_conn row ips)

abbrev pub Regions : Type 0
Regions = Dict String Ips

-- What the query of one region leaves of the regions so far.
unfoldable pub add_region : Delivery → String → Ips → Regions → Result Regions
add_region delivered i ips regions = ok (Dict.put i ips regions)
add_region lost i ips regions = ok regions
add_region unanswered i ips regions = ok regions
add_region (garbled reached) i ips regions = raise value_error

-- `answer` is what the core of a region answers to the query of its connections.
unfoldable pub live_ips_by_region :
    World → (String → List (String × Option ℕ)) → List String → Regions → Result Regions
live_ips_by_region queries answer [] regions = ok regions
live_ips_by_region queries answer (i ∷ is) regions = do
  next ←
      if queries.running i
      then add_region (queries.delivery i "") i (add_conns (answer i) []) regions
      else ok regions
  live_ips_by_region queries answer is next

-- The addresses that are live in some region, with their earliest start; a start that did not
-- parse is now.
unfoldable pub add_live : ℕ → Ips → Dict String ℕ → Dict String ℕ
add_live now [] live = live
add_live now ((ip, ts) ∷ ips) live =
    let start : ℕ = elim ts [ none ↦ now | some t ↦ t ] in
    let kept : ℕ = elim (Dict.get ip live) [ none ↦ start | some t ↦ t ] in
    add_live now ips (Dict.put ip (min kept start) live)

unfoldable pub live_of : ℕ → Regions → Dict String ℕ → Dict String ℕ
live_of now [] live = live
live_of now ((i, ips) ∷ regions) live = live_of now regions (add_live now ips live)

abbrev pub Presence : Type 0
Presence = Dict String Seen

-- The loop that records the live addresses.
unfoldable pub arrive : ℕ → Dict String ℕ → Presence → Presence
arrive now [] presence = presence
arrive now ((ip, start) ∷ live) presence =
    let seen : Seen = elim (Dict.get ip presence) [
      | none ↦ record { first = start; last = now }
      | some old ↦ record old { last = now }
    ] in
    arrive now live (Dict.put ip seen presence)

-- Whether an address has been gone for long.
unfoldable pub is_gone : ℕ → Dict String ℕ → String × Seen → Bool
is_gone now live (ip, seen) =
    (elim (Dict.get ip live) [ none ↦ true | some t ↦ false ]) && ltb linger_ms (now - seen.last)

unfoldable pub is_confirmed : ℕ → String × Seen → Bool
is_confirmed now (ip, seen) = leb confirm_ms (now - seen.first)

-- `sorted` by the arrival, which is stable
unfoldable pub place : String × Seen → Presence → Presence
place row [] = row ∷ []
place row (other ∷ rows) =
    let rest = place row rows in
    if leb row.1.first other.1.first then row ∷ other ∷ rows else other ∷ rest

unfoldable pub by_arrival : Presence → Presence
by_arrival [] = []
by_arrival (row ∷ rows) = place row (by_arrival rows)

unfoldable pub updated : ℕ → Regions → Presence → Presence
updated now regions presence =
    let live = live_of now regions [] in
    keep (λ row. not (is_gone now live row)) (arrive now live presence)

-- The rows of the confirmed addresses, the earliest arrival first.
unfoldable pub holders : ℕ → Presence → Presence
holders now presence = by_arrival (keep (is_confirmed now) presence)

-- The lock for a cap: empty unless every slot is taken.
unfoldable pub desired_lock : ℕ → ℕ → Presence → List String
desired_lock cap now presence =
    let held = holders now presence in
    if leb cap (length held) then sorted (map (λ row. row.0) (take cap held)) else []
