-- ===== src/Console/Devices.antt =====
-- The device limit of a customer over all regions: `enforce_device_limits` of
-- console/api/voidz_console/services/quota.py.
pub mod Locks
use voidz.Prelude.{
  ℕ, String, Bool, true, false, not, ◌&&◌, List, [], ◌∷◌, ◌++◌, Option, none, some, map, keep, any,
  contains, ltb, if◌then◌else◌, ◌==◌, string_eq, pair_eq, list_eq,
}
use voidz.Prelude.Result.{Result, ok, raise, ◌>>=◌}
use voidz.Prelude.Dict
use voidz.Prelude.Dict.{Dict}
use voidz.Core.Admin.{Core}
use voidz.Core.Grouped.{Group, core_connections}
use voidz.Console.Fleet.{Cores, World}
use voidz.Console.Quota.{
  Customer, Customers, Plans, Uuid5, link_uuid, plan_protocols, plan_instances, push_allowed_ips,
}
use voidz.Console.Presence.{Ips, Regions, Presence, live_ips_by_region, updated, desired_lock}

-- `_device_presence`, `_device_allowed_ips` and the cores
pub record Devices : Type 0 where
  pub presence : Dict String Presence
  pub locks : Dict (String × String) (List String)
  pub cores : Cores

unfoldable pub is_cached : Option (List String) → List String → Bool
is_cached none lock = false
is_cached (some ips) lock = ips == lock

-- Whether an address outside the lock is live in the region.
unfoldable pub has_intruder : List String → Option Ips → Bool
has_intruder [] region = false
has_intruder (ip ∷ ips) none = false
has_intruder (ip ∷ ips) (some region) = any (λ row. not (contains (ip ∷ ips) row.0)) region

-- The cache after a push, and the rest of the loop unless the push raised.
unfoldable pub after_push :
    String × String → List String → Result Bool → Devices → Result (Unit {0}) × Devices
after_push key lock (raise e) d = (raise e, d)
after_push key lock (ok true) d = (ok tt, record d { locks = Dict.put key lock d.locks })
after_push key lock (ok false) d = (ok tt, record d { locks = Dict.remove key d.locks })

unfoldable pub then_do :
    Result (Unit {0}) × Devices
    → (Devices → Result (Unit {0}) × Devices)
    → Result (Unit {0}) × Devices
then_do (raise e, d) next = (raise e, d)
then_do (ok _, d) next = next d

module _ (w : World) (uuid5 : Uuid5) where
  -- The body of the loop over the regions.
  unfoldable pub enforce_region :
      String
      → String
      → List String
      → List String
      → Regions
      → String
      → Devices
      → Result (Unit {0}) × Devices
  enforce_region id cred_uuid protos lock regions i d =
      let (pushed, cores) = push_allowed_ips w uuid5 i cred_uuid protos lock d.cores in
      if is_cached (Dict.get (id, i) d.locks) lock && not (has_intruder lock (Dict.get i regions))
      then (ok tt, d)
      else after_push (id, i) lock pushed (record d { cores = cores })

  unfoldable pub enforce_regions :
      String
      → String
      → List String
      → List String
      → Regions
      → List String
      → Devices
      → Result (Unit {0}) × Devices
  enforce_regions id cred_uuid protos lock regions [] d = (ok tt, d)
  enforce_regions id cred_uuid protos lock regions (i ∷ is) d =
      then_do (enforce_region id cred_uuid protos lock regions i d)
        (enforce_regions id cred_uuid protos lock regions is)

-- The customers that a tick has seen, with the keys of their regions.
pub record Seens : Type 0 where
  pub keys : List (String × String)
  pub customers : List String

-- During one tick: what happens to the queries and the pushes for a customer, and how a
-- start parses.
pub record Tick : Type 0 where
  pub queries : String → World
  pub pushes : String → World
  pub parse_ts : String → Option ℕ
  pub now : ℕ

unfoldable pub presence_of : String → Devices → Presence
presence_of id d = elim (Dict.get id d.presence) [ none ↦ [] | some presence ↦ presence ]

module _ (t : Tick) (uuid5 : Uuid5) (plans : Plans) where
  -- What follows the queries of one customer, which are logged if they raise.
  unfoldable pub enforce_live :
      String → Customer → Result Regions → Devices → Result (Unit {0}) × Devices
  enforce_live id c (raise e) d = (ok tt, d)
  enforce_live id c (ok regions) d =
      let presence = updated t.now regions (presence_of id d) in
      enforce_regions (t.pushes id) uuid5 id c.cred_uuid (plan_protocols plans c.plan_id)
        (desired_lock c.max_devices t.now presence) regions (plan_instances plans c.plan_id)
        (record d { presence = Dict.put id presence d.presence })

  -- The rows of a core's answer about the links of a customer.
  unfoldable pub answered_rows : Customer → Core → List (String × Option ℕ)
  answered_rows c core =
      map (λ (g : Group). (g.ip, t.parse_ts g.first_connected_at))
        (core_connections (map (link_uuid uuid5 c.cred_uuid) (plan_protocols plans c.plan_id)) core)

  unfoldable pub regions_of : String → Customer → Devices → Result Regions
  regions_of id c d =
      live_ips_by_region (t.queries id) (λ i. answered_rows c (d.cores i))
        (plan_instances plans c.plan_id) []

  -- What one customer adds to the keys that were seen.
  unfoldable pub add_seen : String → Customer → Result Regions → Seens → Seens
  add_seen id c (raise e) seen = record seen { customers = id ∷ seen.customers }
  add_seen id c (ok regions) seen = record {
    keys = map (λ i. (id, i)) (plan_instances plans c.plan_id) ++ seen.keys;
    customers = id ∷ seen.customers;
  }

  -- The end of a tick: the customers and regions that were not seen are forgotten.
  unfoldable pub forget_unseen : Seens → Devices → Devices
  forget_unseen seen d = record d {
    locks = keep (λ row. contains seen.keys row.0) d.locks;
    presence = keep (λ row. contains seen.customers row.0) d.presence;
  }

  unfoldable pub enforce_rows :
      List (String × Customer) → Seens → Devices → Result (Unit {0}) × Devices
  enforce_rows [] seen d = (ok tt, forget_unseen seen d)
  enforce_rows ((id, c) ∷ rows) seen d =
      let regions = regions_of id c d in
      let without = enforce_rows rows seen d in
      let with =
        then_do (enforce_live id c regions d) (enforce_rows rows (add_seen id c regions seen)) in
      if plan_protocols plans c.plan_id == [] then without else with

  unfoldable pub enforce_device_limits : Customers → Devices → Result (Unit {0}) × Devices
  enforce_device_limits customers d =
      enforce_rows (keep (λ row. row.1.active && ltb 0 row.1.max_devices) customers)
        (record { keys = []; customers = [] }) d

unfoldable pub forget_device_lock : String → Devices → Devices
forget_device_lock id d = record d {
  locks = keep (λ row. not (row.0.0 == id)) d.locks;
  presence = Dict.remove id d.presence;
}
