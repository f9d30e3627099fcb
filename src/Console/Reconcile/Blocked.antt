-- ===== src/Console/Reconcile/Blocked.antt =====
-- A customer whose links are off in every region of the plan
-- (console/api/voidz_console/services/quota.py with core/voidz_core/app.py).
use voidz.Prelude.{◌≡◌, refl, String, Bool, true, false, none, string_eq, All}
use voidz.Prelude.Result.{ok}
use voidz.Core.Link.{Link, Time, is_allowed}
use voidz.Core.Store.{get_allowed}
use voidz.Core.Admin.{Core, patched, value_or}
use voidz.Console.Fleet.{Cores, World}
use voidz.Console.Fleet.Sweeps.{Keeps, push_plan-keeps}
use voidz.Console.Fleet.Confirmed.{push_plan-done, All-weaken}
use voidz.Console.Quota.Links.{HasLink, patch-Keeps, patch-makes}
use voidz.Console.Quota.{
  Plans, Uuid5, link_uuid, plan_protocols, plan_instances, set_active, patch_link,
  set_customer_active,
}

-- The core has the link, switched on or off.
abbrev pub IsSwitched : Bool → String → Core → Type 0
IsSwitched active uuid core = HasLink (λ link. link.active ≡ active) uuid core

patched-active : (active : Bool) (link : Link) → (patched (set_active active) link).active ≡ active
unfolding patched value_or
patched-active active link = refl

switch-Keeps :
    (uuid5 : Uuid5) (cred_uuid uuid : String) (active : Bool)
    → Keeps (IsSwitched active uuid) (patch_link uuid5 cred_uuid (set_active active))
switch-Keeps uuid5 cred_uuid uuid active =
    patch-Keeps (λ link. link.active ≡ active) (set_active active) (patched-active active) uuid5
      cred_uuid uuid

switch-makes :
    (uuid5 : Uuid5) (cred_uuid : String) (active : Bool) (proto : String) (core after : Core)
    → patch_link uuid5 cred_uuid (set_active active) proto core ≡ ok after
    → IsSwitched active (link_uuid uuid5 cred_uuid proto) after
switch-makes uuid5 cred_uuid active =
    patch-makes (λ link. link.active ≡ active) (set_active active) (patched-active active) uuid5
      cred_uuid

module _ (uuid5 : Uuid5) (plans : Plans) (plan_id cred_uuid : String) (active : Bool) where
  -- Every link of the customer is there and switched, in one region, and in all of the plan.
  abbrev pub IsSwitchedIn : Cores → String → Type 0
  IsSwitchedIn cores i =
      All (λ p. IsSwitched active (link_uuid uuid5 cred_uuid p) (cores i))
        (plan_protocols plans plan_id)

  abbrev pub IsSwitchedAll : Cores → Type 0
  IsSwitchedAll cores = All (IsSwitchedIn cores) (plan_instances plans plan_id)

  -- every region took the change
  pub set_customer_active-confirmed :
      (w : World) (cores : Cores)
      → (set_customer_active w uuid5 plans plan_id cred_uuid active cores).0 ≡ ok true
      → All (λ i. w.running i ≡ true) (plan_instances plans plan_id)
        × IsSwitchedAll (set_customer_active w uuid5 plans plan_id cred_uuid active cores).1
  unfolding set_customer_active
  set_customer_active-confirmed w cores e =
      let done =
        push_plan-done (λ p. IsSwitched active (link_uuid uuid5 cred_uuid p))
          (patch_link uuid5 cred_uuid (set_active active))
          (λ p core after h. switch-makes uuid5 cred_uuid active p core after h)
          (λ p. switch-Keeps uuid5 cred_uuid (link_uuid uuid5 cred_uuid p) active) w
          (plan_protocols plans plan_id) (plan_instances plans plan_id) cores e in
      let after = (set_customer_active w uuid5 plans plan_id cred_uuid active cores).1 in
      let Both : String → Type 0 = λ i. (w.running i ≡ true) × IsSwitchedIn after i in
      (
        All-weaken Both (λ i. w.running i ≡ true) (plan_instances plans plan_id) (λ i h. h.0) done,
        All-weaken Both (IsSwitchedIn after) (plan_instances plans plan_id) (λ i h. h.1) done,
      )

  -- The same switch of another customer changes nothing of it.
  pub other-IsSwitchedAll :
      (w : World) (other_plan other_cred : String) (cores : Cores)
      → IsSwitchedAll cores
      → IsSwitchedAll (set_customer_active w uuid5 plans other_plan other_cred active cores).1
  unfolding set_customer_active
  other-IsSwitchedAll w other_plan other_cred cores h =
      let after = (set_customer_active w uuid5 plans other_plan other_cred active cores).1 in
      All-weaken (IsSwitchedIn cores) (IsSwitchedIn after) (plan_instances plans plan_id)
        (λ i region.
          All-weaken (λ p. IsSwitched active (link_uuid uuid5 cred_uuid p) (cores i))
            (λ p. IsSwitched active (link_uuid uuid5 cred_uuid p) (after i))
            (plan_protocols plans plan_id)
            (λ p at_p.
              push_plan-keeps (IsSwitched active (link_uuid uuid5 cred_uuid p))
                (patch_link uuid5 other_cred (set_active active))
                (switch-Keeps uuid5 other_cred (link_uuid uuid5 cred_uuid p) active) w
                (plan_protocols plans other_plan) (plan_instances plans other_plan) cores i at_p)
            region)
        h

refused :
    (t : Time) (uuid : String) (core : Core)
    → IsSwitched false uuid core
    → get_allowed t uuid core.links ≡ none
unfolding get_allowed is_allowed
refused t uuid core (link, there, off) = rw (there, get_allowed, is_allowed, off)

-- When `set_customer_active` says that every region took a disable, every instance of the plan
-- ran, and from then on its core refuses the link of each protocol of the plan to every relay, at
-- any time.
pub disabled_everywhere :
    (w : World) (uuid5 : Uuid5) (plans : Plans) (plan_id cred_uuid : String) (cores : Cores)
    → (set_customer_active w uuid5 plans plan_id cred_uuid false cores).0 ≡ ok true
    → let after = (set_customer_active w uuid5 plans plan_id cred_uuid false cores).1 in
      All (λ i. w.running i ≡ true) (plan_instances plans plan_id)
      × All
          (λ i.
            All
              (λ p. (t : Time) → get_allowed t (link_uuid uuid5 cred_uuid p) (after i).links ≡ none)
              (plan_protocols plans plan_id))
          (plan_instances plans plan_id)
disabled_everywhere w uuid5 plans plan_id cred_uuid cores e =
    let (running, off) =
      set_customer_active-confirmed uuid5 plans plan_id cred_uuid false w cores e in
    let after = (set_customer_active w uuid5 plans plan_id cred_uuid false cores).1 in
    let Refused : String → String → Type 0 =
      λ i p. (t : Time) → get_allowed t (link_uuid uuid5 cred_uuid p) (after i).links ≡ none in
    (
      running,
      All-weaken (IsSwitchedIn uuid5 plans plan_id cred_uuid false after)
          (λ i. All (Refused i) (plan_protocols plans plan_id)) (plan_instances plans plan_id)
          (λ i region.
            All-weaken (λ p. IsSwitched false (link_uuid uuid5 cred_uuid p) (after i)) (Refused i)
              (plan_protocols plans plan_id)
              (λ p h t. refused t (link_uuid uuid5 cred_uuid p) (after i) h) region)
          off,
    )
