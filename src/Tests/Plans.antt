-- ===== src/Tests/Plans.antt =====
-- Plans with two regions (console/api/voidz_console/services/quota.py) at concrete inputs.
use voidz.Prelude.{
  String, ◌≤◌, ◌<◌, ◌≡◌, refl, true, false, [], ◌∷◌, none, some, keep, contains, length,
  if◌then◌else◌, ◌==◌, string_eq, pair_eq, pair_beq, arith, All,
}
use voidz.Prelude.Dict
use voidz.Prelude.Result.{ok}
use voidz.Core.Link.{Link, Time}
use voidz.Core.Store.{get_allowed}
use voidz.Core.Tracker.{empty}
use voidz.Core.Debounce.{idle}
use voidz.Core.Admin.{core_links_update, patched, value_or, enforce_lock, close_others}
use voidz.Core.Tracker.{kick, kick_loop}
use voidz.Console.Fleet.{
  push_plan, push_region, push_protocols, worker_call, next_call, next_region, put_core, failed,
  handled, Cores, World, delivered, lost,
}
use voidz.Console.Quota.{
  Plans, Customer, Uuid5, link_uuid, plan_protocols, plan_instances, set_customer_active,
  push_allowed_ips,
}
use voidz.Console.Reconcile.{
  Quota, Answers, reconcile_once, reconcile_rows, reconcile_row, after_usage, disable_row,
  after_disable, after_retry, retry_all, retry_disable, retry_row, next_row, sum_usage, add_usage,
  usage_of, update_customer, is_due, insert, discard,
}
use voidz.Console.Reconcile.Blocked.{disabled_everywhere}
use voidz.Console.Reconcile.Settled.{IsSettled}
use voidz.Console.Reconcile.Passes.{reconcile_once-IsSettled}
use voidz.Prelude.Sorting.{place_text, sorted}
use voidz.Console.Presence.{
  updated, live_of, arrive, is_gone, Seen, Presence, is_confirmed, desired_lock, holders,
  by_arrival, place,
}
use voidz.Console.Presence.Slots.{earliest_hold}
use voidz.Console.Devices.{
  Devices, Tick, enforce_live, enforce_regions, enforce_region, after_push, then_do, is_cached,
  has_intruder, presence_of,
}
use voidz.Console.Devices.Locks.{IsTrue, enforce_live-IsTrue}

abbrev plain_uuid : Uuid5
plain_uuid = λ name. name

abbrev link : Link
link = record {
  uuid = "voidz-link:u:vless-ws";
  label = [];
  protocol = "vless-ws";
  active = true;
  limit_bytes = 0;
  used_bytes = 60;
  created_at = "noon";
  expires_at = none;
  note = [];
  alpn = [];
  fingerprint = "chrome";
  ss_cipher = none;
  ss_password = none;
  max_devices = 0;
  allowed_ips = [];
}

-- Two regions, each with the link of the customer.
abbrev cores : Cores
cores = λ i. record {
  links = ("voidz-link:u:vless-ws", link) ∷ [];
  connections = empty;
  saver = idle;
  closed = [];
}

abbrev plans : Plans
plans =
    (
      "p",
      record { protocols = "vless-ws" ∷ []; instances = "eu" ∷ "us" ∷ []; region_label = λ i. [] },
    )
    ∷ []

abbrev customer : Customer
customer = record {
  plan_id = "p";
  name = [];
  sub_token = "t";
  cred_uuid = "u";
  ss_cipher = none;
  ss_password = none;
  limit_bytes = 100;
  used_bytes_cached = 0;
  expires_at = none;
  active = true;
  note = [];
  max_devices = 1;
}

abbrev all_up : World
all_up = record { running = λ i. true; delivery = λ i p. delivered }

-- The call to the second region is lost.
abbrev one_lost : World
one_lost = record { running = λ i. true; delivery = λ i p. if i == "us" then lost else delivered }

disabled_everywhere_example :
    All (λ i. true ≡ true) (plan_instances plans "p")
    × All
        (λ i.
          All
            (λ p.
              (t : Time)
              → get_allowed t
                  (link_uuid plain_uuid "u" p)
                  ((set_customer_active all_up plain_uuid plans "p" "u" false cores).1 i).links
                ≡ none)
            (plan_protocols plans "p"))
        (plan_instances plans "p")
unfolding set_customer_active plan_protocols plan_instances link_uuid push_plan push_region
    push_protocols worker_call next_call next_region put_core failed handled core_links_update
    patched value_or enforce_lock close_others Dict.get Dict.put
disabled_everywhere_example = disabled_everywhere all_up plain_uuid plans "p" "u" cores refl

abbrev quota : Quota
quota = record { customers = ("c", customer) ∷ []; pending = []; cores = cores }

-- 120 bytes are used of 100, and one region does not hear of it.
abbrev answers : Answers
answers = record { usage = λ id. all_up; disable = λ id. one_lost; retry = λ id. one_lost }

all_active : IsSettled plain_uuid plans quota
unfolding Dict.get
all_active id c found off = ground (arith, found, off)

reconcile_once-IsSettled_example :
    IsSettled plain_uuid plans (reconcile_once answers plain_uuid plans 9 quota).1
unfolding reconcile_once reconcile_rows reconcile_row after_usage disable_row after_disable
    after_retry retry_all retry_disable retry_row next_row sum_usage add_usage usage_of
    update_customer is_due insert discard contains keep set_customer_active plan_protocols
    plan_instances link_uuid push_plan push_region push_protocols worker_call next_call next_region
    put_core failed handled core_links_update patched value_or enforce_lock close_others Dict.get
    Dict.put
reconcile_once-IsSettled_example =
    reconcile_once-IsSettled answers plain_uuid plans 9 quota (refl, tt) all_active refl

-- The customer is off, and waits for the second region.
reconcile_once_waits : (reconcile_once answers plain_uuid plans 9 quota).1.pending ≡ "c" ∷ []
unfolding reconcile_once reconcile_rows reconcile_row after_usage disable_row after_disable
    after_retry retry_all retry_disable retry_row next_row sum_usage add_usage usage_of
    update_customer is_due insert discard contains keep set_customer_active plan_protocols
    plan_instances link_uuid push_plan push_region push_protocols worker_call next_call next_region
    put_core failed handled core_links_update patched value_or enforce_lock close_others Dict.get
    Dict.put
reconcile_once_waits = refl

abbrev presence : Presence
presence =
    ("10.0.0.2", record { first = 3000; last = 9000 })
    ∷ ("10.0.0.1", record { first = 1000; last = 9000 })
    ∷ []

earliest_hold_example :
    (1 ≤ length (keep (is_confirmed 9000) presence) → length (desired_lock 1 9000 presence) ≡ 1)
    × (length (keep (is_confirmed 9000) presence) < 1 → desired_lock 1 9000 presence ≡ [])
    × ((a : String)
        → contains (desired_lock 1 9000 presence) a ≡ true
        → (seen : Seen) × (Dict.get a presence ≡ some seen)
          × (is_confirmed 9000 (a, seen) ≡ true)
          × ((b : String) (other : Seen)
              → Dict.get b presence ≡ some other
              → is_confirmed 9000 (b, other) ≡ true
              → contains (desired_lock 1 9000 presence) b ≡ false
              → seen.first ≤ other.first))
unfolding Dict.get
earliest_hold_example = earliest_hold 1 9000 presence (refl, (refl, tt))

abbrev devices : Devices
devices = record { presence = ("c", presence) ∷ []; locks = []; cores = cores }

abbrev round : Tick
round = record { queries = λ id. all_up; pushes = λ id. one_lost; parse_ts = λ s. none; now = 9000 }

no_locks : IsTrue plain_uuid "c" "u" (plan_protocols plans "p") devices
unfolding Dict.get
no_locks i ips found = cc

enforce_live-IsTrue_example :
    IsTrue plain_uuid "c" "u"
      (plan_protocols plans "p")
      (enforce_live round plain_uuid plans "c" customer (ok []) devices).1
unfolding enforce_live enforce_regions enforce_region after_push then_do is_cached has_intruder
    push_allowed_ips updated live_of arrive is_gone presence_of desired_lock holders by_arrival
    place sorted place_text is_confirmed keep contains Dict.get Dict.put Dict.remove plan_protocols
    plan_instances link_uuid push_region push_protocols worker_call next_call put_core failed
    handled core_links_update patched value_or enforce_lock close_others kick kick_loop pair_beq
enforce_live-IsTrue_example =
    enforce_live-IsTrue round plain_uuid plans "c" customer (ok []) devices no_locks refl
