-- ===== src/Core/Tracker.antt =====
-- `ConnectionTracker` of core/voidz_core/state.py: the live relay connections, and the callbacks
-- that close them. A callback only schedules a close, so its call is an entry in a list.
pub mod Devices
pub mod Kick
pub mod Called
use voidz.Prelude.{
  ℕ, ◌+◌, String, Bool, true, false, not, ◌&&◌, ◌||◌, List, [], ◌∷◌, Option, none, some, map,
  length, keep, contains, ltb, if◌then◌else◌, ◌==◌, string_eq,
}
use voidz.Prelude.Dict
use voidz.Prelude.Dict.{Dict}

pub record Conn : Type 0 where
  pub conn_id : String
  pub uuid : String
  pub ip : String
  pub transport : String
  pub connected_at : String
  pub bytes : ℕ

-- What a callback closes: a websocket (`ws_killer`), or an xHTTP session (`teardown`).
pub data Kill : Type 0 where
  close_ws : String → Kill
  teardown : String → String → Kill

pub record Tracker : Type 0 where
  pub conns : Dict String Conn
  pub kills : Dict String Kill

abbrev pub empty : Tracker
empty = record { conns = []; kills = [] }

-- `connected_at` is the text of the time.
unfoldable pub register : Conn → Option Kill → Tracker → Tracker
register conn kill tracker = record {
  conns = Dict.put conn.conn_id conn tracker.conns;
  kills = elim kill [ none ↦ tracker.kills | some k ↦ Dict.put conn.conn_id k tracker.kills ];
}

unfoldable pub add_bytes : String → ℕ → Tracker → Tracker
add_bytes conn_id n tracker = elim (Dict.get conn_id tracker.conns) [
  | none ↦ tracker
  | some conn ↦ record tracker {
    conns = Dict.put conn_id (record conn { bytes = conn.bytes + n }) tracker.conns;
  }
]

unfoldable pub remove : String → Tracker → Tracker
remove conn_id tracker = record {
  conns = Dict.remove conn_id tracker.conns;
  kills = Dict.remove conn_id tracker.kills;
}

abbrev pub count : Tracker → ℕ
count tracker = length tracker.conns

-- Whether `kick` passes a connection over.
unfoldable pub stays : String → List String → Conn → Bool
stays uuid keep_ips conn = not (conn.uuid == uuid) || contains keep_ips conn.ip

-- The loop of `kick` over the items: the callbacks called, in order, and those that are left.
unfoldable pub kick_loop :
    String → List String → Dict String Conn → Dict String Kill → List Kill × Dict String Kill
kick_loop uuid keep_ips [] kills = ([], kills)
kick_loop uuid keep_ips ((conn_id, conn) ∷ rest) kills =
    let passed = kick_loop uuid keep_ips rest kills in
    let (called, left) = kick_loop uuid keep_ips rest (Dict.remove conn_id kills) in
    if stays uuid keep_ips conn
    then passed
    else elim (Dict.get conn_id kills) [ none ↦ (called, left) | some kill ↦ (kill ∷ called, left) ]

-- The number of connections kicked, the callbacks called, and the tracker after it.
unfoldable pub kick : String → List String → Tracker → ℕ × List Kill × Tracker
kick uuid keep_ips tracker =
    let (called, left) = kick_loop uuid keep_ips tracker.conns tracker.kills in
    (length called, called, record tracker { kills = left })

-- A list with no element twice, as Python's `set` of it.
unfoldable pub as_set : List String → List String
as_set [] = []
as_set (x ∷ xs) = let rest = as_set xs in if contains xs x then rest else x ∷ rest

-- The addresses of the connections of a link, with repetitions.
unfoldable pub ips_of : String → Dict String Conn → List String
ips_of uuid [] = []
ips_of uuid ((_, c) ∷ rest) =
    let others = ips_of uuid rest in if c.uuid == uuid then c.ip ∷ others else others

unfoldable pub active_ips_for : String → Tracker → List String
unfolding ips_of as_set
active_ips_for uuid tracker = as_set (ips_of uuid tracker.conns)

unfoldable pub device_slot_available : String → String → ℕ → List String → Tracker → Bool
device_slot_available uuid ip max_devices allowed_ips tracker =
    let ips = active_ips_for uuid tracker in
    elim allowed_ips [
      | allowed ∷ others ↦ contains (allowed ∷ others) ip
      | [] ↦ not (ltb 0 max_devices) || (contains ips ip || ltb (length ips) max_devices)
    ]
