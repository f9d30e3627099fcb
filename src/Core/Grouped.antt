-- ===== src/Core/Grouped.antt =====
-- The report of the live connections by address: `grouped_by_ip` of core/voidz_core/state.py and
-- its handler in core/voidz_core/app.py.
use voidz.Prelude.{
  ℕ, ◌+◌, String, Bool, true, not, List, [], ◌∷◌, Option, none, some, map, keep, contains,
  if◌then◌else◌, ◌==◌, string_eq,
}
use voidz.Prelude.Sorting.{is_before, sorted}
use voidz.Prelude.Dict
use voidz.Prelude.Dict.{Dict}
use voidz.Core.Tracker.{Conn, as_set}
use voidz.Core.Admin.{Core}

pub record Group : Type 0 where
  pub ip : String
  pub sessions : ℕ
  pub bytes : ℕ
  pub transports : List String
  pub first_connected_at : String
  pub last_connected_at : String

unfoldable pub new_group : Conn → Group
new_group c = record {
  ip = c.ip;
  sessions = 0;
  bytes = 0;
  transports = [];
  first_connected_at = c.connected_at;
  last_connected_at = c.connected_at;
}

-- One connection more in its group.
unfoldable pub with_conn : Conn → Group → Group
with_conn c g = record g {
  sessions = g.sessions + 1;
  bytes = g.bytes + c.bytes;
  transports = c.transport ∷ g.transports;
  first_connected_at =
      if is_before c.connected_at g.first_connected_at
      then c.connected_at
      else g.first_connected_at;
  last_connected_at =
      if is_before g.last_connected_at c.connected_at then c.connected_at else g.last_connected_at;
}

unfoldable pub is_wanted : Option (List String) → Conn → Bool
is_wanted none c = true
is_wanted (some uuids) c = contains uuids c.uuid

-- The loop over the connections.
unfoldable pub group_conns :
    Option (List String) → Dict String Conn → Dict String Group → Dict String Group
group_conns wanted [] groups = groups
group_conns wanted ((_, c) ∷ conns) groups =
    let old : Group = elim (Dict.get c.ip groups) [ none ↦ new_group c | some g ↦ g ] in
    let others = group_conns wanted conns groups in
    let with = group_conns wanted conns (Dict.put c.ip (with_conn c old) groups) in
    if is_wanted wanted c then with else others

-- `out.sort(...)` by the last connection, the latest first, which keeps the order of equal ones
unfoldable pub place_group : Group → List Group → List Group
place_group g [] = g ∷ []
place_group g (h ∷ hs) =
    let rest = place_group g hs in
    if is_before g.last_connected_at h.last_connected_at then h ∷ rest else g ∷ h ∷ hs

unfoldable pub latest_first : List Group → List Group
latest_first [] = []
latest_first (g ∷ gs) = place_group g (latest_first gs)

unfoldable pub grouped_by_ip : Option (List String) → Dict String Conn → List Group
grouped_by_ip wanted conns = latest_first (
    map (λ (row : String × Group). record row.1 { transports = sorted (as_set row.1.transports) })
      (group_conns wanted conns []))

-- The handler: no uuid means every connection.
unfoldable pub core_connections : List String → Core → List Group
core_connections uuids core = elim (keep (λ u. not (u == "")) uuids) [
  | [] ↦ grouped_by_ip none core.connections.conns
  | u ∷ us ↦ grouped_by_ip (some (u ∷ us)) core.connections.conns
]
