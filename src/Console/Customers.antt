-- ===== src/Console/Customers.antt =====
-- The routes of console/api/voidz_console/routers/plans.py that change a customer: the patch, the
-- push of the credentials, and the deletion. The caller owns the plan. Times are milliseconds,
-- and amounts are not negative; a text that is no number is `none`.
pub mod Edits
pub mod Restored
use voidz.Prelude.{
  ℕ, ◌+◌, ◌-◌, ◌*◌, suc, String, Bool, true, false, not, ◌&&◌, ◌||◌, List, [], ◌∷◌, Option, none,
  some, take, ltb, leb, if◌then◌else◌, ◌==◌, string_eq, list_eq, nat_eq,
}
use voidz.Prelude.Integers.{ℤ, pos, negsuc}
use voidz.Prelude.Result.{Result, ok, raise, http}
use voidz.Prelude.Dict
use voidz.Relay.Bytes.{Text}
use voidz.Core.Admin.{Patch}
use voidz.Console.Fleet.{Cores, World}
use voidz.Console.Quota.{
  Customer, Plan, Plans, Draws, provision_customer_links, Uuid5, no_change, patch_customer_links,
  set_customer_active, delete_customer_links,
}
use voidz.Console.Reconcile.{Quota, update_customer, forget_pending_disable}
use voidz.Console.Presence.{Presence}
use voidz.Console.Devices.{forget_device_lock}

-- The fields of a patch, where they stand in the body. The name is stripped and cut.
-- `limit_bytes` is what `int(float(limit_gb) * 1024**3)` gives for a `limit_gb` that is not negative;
-- a negative one, which the route does not refuse, is outside.
pub record CustomerPatch : Type 0 where
  pub name : Option Text
  pub extend : Option (Option ℤ)
  pub limit_bytes : Option (Option ℕ)
  pub max_devices : Option (Option ℤ)
  pub reset_usage : Bool
  pub active : Option Bool

-- The state of the routes: the tables, `_pending_disable` and the cores; `_device_presence` and
-- `_device_allowed_ips`.
pub record Desk : Type 0 where
  pub quota : Quota
  pub presence : Dict.Dict String Presence
  pub locks : Dict.Dict (String × String) (List String)

abbrev pub Step : Type 0
Step = Result (Unit {0}) × Desk

unfoldable pub after : Step → (Desk → Step) → Step
after (raise e, d) next = (raise e, d)
after (ok v, d) next = next d

-- `UPDATE customers SET ... WHERE id = ...`
unfoldable pub set_row : String → (Customer → Customer) → Desk → Desk
set_row id f d = record d {
  quota = record d.quota { customers = update_customer id f d.quota.customers };
}

-- A call to the cores of the plan.
unfoldable pub called : {A : Type 0} → Result A × Cores → Desk → Step
called (raise e, cores) d = (raise e, record d { quota = record d.quota { cores = cores } })
called (ok v, cores) d = (ok tt, record d { quota = record d.quota { cores = cores } })

unfoldable pub unlock : String → Desk → Desk
unlock id d =
    let forgotten =
      forget_device_lock id
        (record { presence = d.presence; locks = d.locks; cores = d.quota.cores }) in
    record d { presence = forgotten.presence; locks = forgotten.locks }

-- `base + timedelta(...)`
unfoldable pub moved : ℕ → ℤ → ℕ
moved base (pos n) = base + n
moved base (negsuc n) = base - suc n

-- What follows an end that is still to come, or now.
unfoldable pub base_of : ℕ → Option ℕ → ℕ
base_of now none = now
base_of now (some moment) = if ltb now moment then moment else now

-- The values behind the edits.
unfoldable pub expiry_behind : ℕ → Option (Option ℤ) → Option ℕ → Option ℕ
unfolding moved base_of
expiry_behind now none expires_at = expires_at
expiry_behind now (some none) expires_at = expires_at
expiry_behind now (some (some span)) expires_at = some (moved (base_of now expires_at) span)

unfoldable pub limit_behind : Option (Option ℕ) → ℕ → ℕ
limit_behind none limit = limit
limit_behind (some none) limit = limit
limit_behind (some (some n)) limit = n

unfoldable pub used_behind : Bool → ℕ → ℕ
used_behind reset used = if reset then 0 else used

unfoldable pub given : {A : Type 0} → Option A → Bool
given none = false
given (some a) = true

unfoldable pub touched_lifecycle : CustomerPatch → Bool
unfolding given
touched_lifecycle p = given p.extend || given p.limit_bytes || p.reset_usage

unfoldable pub still_expired : ℕ → Option ℕ → Bool
still_expired now none = false
still_expired now (some moment) = ltb moment now

unfoldable pub still_over_quota : ℕ → ℕ → Bool
still_over_quota limit used = ltb 0 limit && leb limit used

-- What happens to the calls of each edit, and when the end of the customer is compared.
pub record Calls : Type 0 where
  pub expiry : World
  pub devices : World
  pub reset : World
  pub active : World
  pub checked_at : ℕ

module _ (uuid5 : Uuid5) (isoformat : ℕ → String) (plans : Plans) (calls : Calls) (now : ℕ)
    (id : String) (c : Customer) where
  unfoldable pub set_name : Option Text → Desk → Step
  unfolding set_row
  set_name none d = (ok tt, d)
  set_name (some []) d = (ok tt, d)
  set_name (some (ch ∷ name)) d =
      (ok tt, set_row id (λ x. record x { name = take 60 (ch ∷ name) }) d)

  unfoldable pub patch_links : World → Patch → Desk → Step
  unfolding called
  patch_links w patch d =
      called (patch_customer_links w uuid5 plans c.plan_id c.cred_uuid patch d.quota.cores) d

  unfoldable pub extend : Option (Option ℤ) → Desk → Step
  unfolding set_row patch_links moved base_of
  extend none d = (ok tt, d)
  extend (some none) d = (raise (http 400), d)
  extend (some (some span)) d =
      let moment = moved (base_of now c.expires_at) span in
      patch_links calls.expiry (record no_change { expires_at = some (some (isoformat moment)) })
        (set_row id (λ x. record x { expires_at = some moment }) d)

  unfoldable pub set_limit : Option (Option ℕ) → Desk → Step
  unfolding set_row
  set_limit none d = (ok tt, d)
  set_limit (some none) d = (raise (http 400), d)
  set_limit (some (some n)) d = (ok tt, set_row id (λ x. record x { limit_bytes = n }) d)

  unfoldable pub set_max_devices : Option (Option ℤ) → Desk → Step
  unfolding set_row patch_links unlock
  set_max_devices none d = (ok tt, d)
  set_max_devices (some none) d = (raise (http 400), d)
  set_max_devices (some (some (negsuc n))) d = (raise (http 400), d)
  set_max_devices (some (some (pos n))) d =
      let pushed =
        patch_links calls.devices
          (record no_change { max_devices = some (some (pos n)); allowed_ips = some (some []) })
          (set_row id (λ x. record x { max_devices = n }) d) in
      if ltb 50 n then (raise (http 400), d) else after pushed (λ d'. (ok tt, unlock id d'))

  unfoldable pub reset : Bool → Desk → Step
  unfolding set_row patch_links
  reset false d = (ok tt, d)
  reset true d =
      patch_links calls.reset (record no_change { reset_usage = some true })
        (set_row id (λ x. record x { used_bytes_cached = 0 }) d)

  -- The row is set, a pending disable forgotten, and the regions are told; whether all of them
  -- confirmed it is not looked at.
  unfoldable pub set_activity : Bool → Desk → Step
  unfolding set_row called
  set_activity active d =
      let row = set_row id (λ x. record x { active = active }) d in
      let free =
        if active then record row { quota = forget_pending_disable id row.quota } else row in
      called
        (set_customer_active calls.active uuid5 plans c.plan_id c.cred_uuid active free.quota.cores)
        free

  -- Whether the edits undo what a customer was disabled for.
  unfoldable pub is_restored : CustomerPatch → Bool
  unfolding expiry_behind limit_behind used_behind touched_lifecycle still_expired still_over_quota
  is_restored p =
      touched_lifecycle p
      && not c.active
      && not (still_expired calls.checked_at (expiry_behind now p.extend c.expires_at))
      && not (
          still_over_quota (limit_behind p.limit_bytes c.limit_bytes)
            (used_behind p.reset_usage c.used_bytes_cached))

  unfoldable pub finish : CustomerPatch → Option Bool → Desk → Step
  unfolding set_activity is_restored
  finish p (some active) d = set_activity active d
  finish p none d = if is_restored p then set_activity true d else (ok tt, d)

  -- `update_customer`, with `c` the row that was fetched.
  unfoldable pub patch_customer : CustomerPatch → Desk → Step
  unfolding set_name extend set_limit set_max_devices reset finish after
  patch_customer p d = after (set_name p.name d) (λ d1. after (extend p.extend d1) (λ d2.
      after (set_limit p.limit_bytes d2) (λ d3.
        after (set_max_devices p.max_devices d3)
          (λ d4. after (reset p.reset_usage d4) (finish p p.active)))))

-- `reprovision_customer`: the links are created again, and the device lock is forgotten.
unfoldable pub reprovision_customer :
    World → Uuid5 → (ℕ → String) → Draws → Plan → String → Customer → Desk → Step
unfolding called after unlock
reprovision_customer w uuid5 isoformat draws plan id c d =
    after
      (called (provision_customer_links w uuid5 isoformat draws plan c plan.instances d.quota.cores)
        d)
      (λ d'. (ok tt, unlock id d'))

-- `delete_customer`: the row goes when the regions have been told, confirmed or not.
unfoldable pub delete_customer : World → Uuid5 → Plans → String → Customer → Desk → Step
unfolding called after
delete_customer w uuid5 plans id c d =
    after (called (delete_customer_links w uuid5 plans c.plan_id c.cred_uuid d.quota.cores) d)
      (λ d'. (
        ok tt,
        record d' { quota = record d'.quota { customers = Dict.remove id d'.quota.customers } },
      ))
