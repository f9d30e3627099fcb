-- ===== src/Console/Quota.antt =====
-- Plans and customers: the links of a customer on every core of a plan
-- (console/api/voidz_console/services/quota.py). The database answers with tables that are here.
pub mod Links
use Prim.Native.String.{◌++◌ as ◌⧺◌}
use voidz.Prelude.{
  ℕ, String, Bool, true, false, List, [], ◌∷◌, ◌++◌, Option, none, some, map, contains,
  if◌then◌else◌, ◌==◌, string_eq,
}
use voidz.Prelude.Integers.{ℤ, pos}
use voidz.Prelude.Result.{Result, ok, raise, ◌>>=◌}
use voidz.Prelude.Dict
use voidz.Prelude.Dict.{Dict}
use voidz.Relay.Bytes.{Text}
use voidz.Core.Alpn.{Str}
use voidz.Core.Admin.{Core, Body, Patch, core_links_create, core_links_update, core_links_delete}
use voidz.Console.Fleet.{Cores, put_core, World, push_region, push_plan}

-- A row of `plans` with its rows of `plan_instances`, in order. The protocols are split at the
-- commas, without empty parts; a region without a label has the empty one.
pub record Plan : Type 0 where
  pub protocols : List String
  pub instances : List String
  pub region_label : String → Text

-- A row of `customers`; times are milliseconds.
pub record Customer : Type 0 where
  pub plan_id : String
  pub name : Text
  pub sub_token : String
  pub cred_uuid : String
  pub ss_cipher : Option String
  pub ss_password : Option String
  pub limit_bytes : ℕ
  pub used_bytes_cached : ℕ
  pub expires_at : Option ℕ
  pub active : Bool
  pub note : Text
  pub max_devices : ℕ

abbrev pub Plans : Type 0
Plans = Dict String Plan

abbrev pub Customers : Type 0
Customers = Dict String Customer

unfoldable pub plan_protocols : Plans → String → List String
plan_protocols plans plan_id = elim (Dict.get plan_id plans) [
  | none ↦ []
  | some plan ↦ plan.protocols
]

unfoldable pub plan_instances : Plans → String → List String
plan_instances plans plan_id = elim (Dict.get plan_id plans) [
  | none ↦ []
  | some plan ↦ plan.instances
]

-- `uuid.uuid5` of a name in the URL namespace, as text
abbrev pub Uuid5 : Type 0
Uuid5 = String → String

unfoldable pub link_uuid : Uuid5 → String → String → String
link_uuid uuid5 cred_uuid protocol = uuid5 ("voidz-link:" ⧺ (cred_uuid ⧺ (":" ⧺ protocol)))

-- A patch that changes nothing.
abbrev pub no_change : Patch
no_change = record {
  label = none;
  active = none;
  note = none;
  reset_usage = none;
  limit_bytes = none;
  expires_at = none;
  max_devices = none;
  allowed_ips = none;
}

abbrev pub set_active : Bool → Patch
set_active active = record no_change { active = some active }

abbrev pub set_allowed_ips : List String → Patch
set_allowed_ips ips = record no_change { allowed_ips = some (some ips) }

-- The result of a loop that only logs a `WorkerError`.
unfoldable pub logged : Result Bool × Cores → Result (Unit {0}) × Cores
logged (result, cores) = ((do _ ← result; ok tt), cores)

-- The handler of a PATCH of the link of each protocol.
abbrev pub patch_link : Uuid5 → String → Patch → String → Core → Result Core
patch_link uuid5 cred_uuid patch proto core =
    core_links_update (link_uuid uuid5 cred_uuid proto) patch core

module _ (w : World) (uuid5 : Uuid5) where
  unfoldable pub push_allowed_ips :
      String → String → List String → List String → Cores → Result Bool × Cores
  push_allowed_ips i cred_uuid protos ips cores =
      let (result, core) =
        push_region w i (patch_link uuid5 cred_uuid (set_allowed_ips ips)) protos (cores i) in
      (result, put_core i core cores)

module _ (w : World) (uuid5 : Uuid5) (plans : Plans) where
  unfoldable pub set_customer_active : String → String → Bool → Cores → Result Bool × Cores
  set_customer_active plan_id cred_uuid active cores =
      push_plan w (patch_link uuid5 cred_uuid (set_active active)) (plan_protocols plans plan_id)
        (plan_instances plans plan_id) cores

  unfoldable pub patch_customer_links : String → String → Patch → Cores → Result (Unit {0}) × Cores
  patch_customer_links plan_id cred_uuid patch cores = logged (
      push_plan w (patch_link uuid5 cred_uuid patch) (plan_protocols plans plan_id)
        (plan_instances plans plan_id) cores)

  unfoldable pub delete_customer_links : String → String → Cores → Result (Unit {0}) × Cores
  delete_customer_links plan_id cred_uuid cores = logged (
      push_plan w (λ proto core. core_links_delete (link_uuid uuid5 cred_uuid proto) core)
        (plan_protocols plans plan_id) (plan_instances plans plan_id) cores)

-- " · "
abbrev pub label_dot : Text
label_dot = 32 ∷ 183 ∷ 32 ∷ []

-- `label or 'region'`
unfoldable pub region_name : Text → Text
region_name [] = 114 ∷ 101 ∷ 103 ∷ 105 ∷ 111 ∷ 110 ∷ []
region_name (c ∷ cs) = c ∷ cs

-- The cipher that every shadowsocks customer has.
abbrev pub customer_cipher : String
customer_cipher = "chacha20-ietf-poly1305"

-- The time as text.
unfoldable pub expiry_text : (ℕ → String) → Option ℕ → Option String
expiry_text isoformat none = none
expiry_text isoformat (some moment) = some (isoformat moment)

unfoldable pub link_body : Uuid5 → (ℕ → String) → Customer → Text → String → Body
link_body uuid5 isoformat customer label proto =
    let shadowsocks : Bool = proto == "shadowsocks" in
    record {
      uuid = some (link_uuid uuid5 customer.cred_uuid proto);
      label = some (customer.name ++ label_dot ++ region_name label);
      protocol = some proto;
      active = some customer.active;
      limit_bytes = some 0;
      used_bytes = none;
      expires_at = expiry_text isoformat customer.expires_at;
      note = none;
      alpn = none;
      fingerprint = none;
      ss_cipher = if shadowsocks then customer.ss_cipher else none;
      ss_password = if shadowsocks then customer.ss_password else none;
      max_devices = some customer.max_devices;
      allowed_ips = some [];
    }

-- What a core brings to a creation: its texts, its time, and the tokens it draws.
pub record Draws : Type 0 where
  pub str : Str
  pub now : String
  pub token : String
  pub password : String

module _ (w : World) (uuid5 : Uuid5) (isoformat : ℕ → String) (d : Draws) where
  -- The handler of the POST.
  unfoldable pub create_link : Plan → Customer → String → String → Core → Result Core
  create_link plan customer i proto core = do
    created ←
        core_links_create d.str d.now d.token d.password
          (link_body uuid5 isoformat customer (plan.region_label i) proto) core
    ok created.1

  -- The loop over the regions: `push_plan` with a handler that knows its region.
  unfoldable pub provision_customer_links :
      Plan → Customer → List String → Cores → Result (Unit {0}) × Cores
  provision_customer_links plan customer [] cores = (ok tt, cores)
  provision_customer_links plan customer (i ∷ is) cores =
      let (region, core) = push_region w i (create_link plan customer i) plan.protocols (cores i) in
      let rest = provision_customer_links plan customer is (put_core i core cores) in
      elim region [ raise e ↦ (raise e, put_core i core cores) | ok _ ↦ rest ]

  -- `cid` and the tokens of `customer` are drawn by the caller, who also computes its limit in
  -- bytes and its end; `ss_password` is drawn in any case.
  unfoldable pub create_customer :
      Plan → String → String → Customer → Customers → Cores → Result (Unit {0}) × Customers × Cores
  create_customer plan cid ss_password args customers cores =
      let shadowsocks : Bool = contains plan.protocols "shadowsocks" in
      let customer : Customer = record args {
        ss_cipher = if shadowsocks then some customer_cipher else none;
        ss_password = if shadowsocks then some ss_password else none;
        used_bytes_cached = 0;
        active = true;
      } in
      let (result, after) = provision_customer_links plan customer plan.instances cores in
      (result, Dict.put cid customer customers, after)
