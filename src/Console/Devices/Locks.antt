-- ===== src/Console/Devices/Locks.antt =====
-- What the cache of device locks knows of the cores
-- (console/api/voidz_console/services/quota.py with core/voidz_core/app.py).
use voidz.Prelude.{
  ◌≡◌, ◌≢◌, refl, sym, ap, String, Bool, true, false, not, ◌&&◌, List, [], ◌∷◌, some, if◌then◌else◌,
  ==_iff, string_eq, pair_eq, All, arith, Bool-cases, inl, inr,
}
use mathlib.Core.Path.{subst}
use voidz.Prelude.Result.{Result, ok, raise}
use voidz.Prelude.Dict
use voidz.Prelude.Dict.{Dict, get-put-some, get-remove-some}
use voidz.Core.Link.{Link}
use voidz.Core.Admin.{Core, patched, value_or}
use voidz.Console.Fleet.{Cores, World, put_core, push_region}
use voidz.Console.Fleet.Confirmed.{put_core_same, push_region-done}
use voidz.Console.Quota.{
  Customer, Plans, Uuid5, link_uuid, plan_protocols, plan_instances, set_allowed_ips, patch_link,
  push_allowed_ips,
}
use voidz.Console.Quota.Links.{HasLink, patch-Keeps, patch-makes}
use voidz.Console.Presence.{Regions, updated, desired_lock}
use voidz.Console.Devices.{
  Devices, Tick, is_cached, has_intruder, after_push, then_do, enforce_region, enforce_regions,
  enforce_live, presence_of,
}

patched-allowed_ips :
    (ips : List String) (link : Link) → (patched (set_allowed_ips ips) link).allowed_ips ≡ ips
unfolding patched value_or
patched-allowed_ips ips link = refl

then_do-ok :
    (first : Result (Unit {0}) × Devices) (next : Devices → Result (Unit {0}) × Devices)
    → (then_do first next).0 ≡ ok tt
    → (first.0 ≡ ok tt) × (then_do first next ≡ next first.1)
unfolding then_do
then_do-ok (raise e, d) next h = cc
then_do-ok (ok tt, d) next h = (refl, refl)

module _ (uuid5 : Uuid5) (id cred_uuid : String) (protos : List String) where
  -- Every link of the customer in a region carries the lock.
  abbrev pub IsLocked : List String → Core → Type 0
  IsLocked ips core =
      All (λ p. HasLink (λ link. link.allowed_ips ≡ ips) (link_uuid uuid5 cred_uuid p) core) protos

  abbrev pub IsTrueAt : String → Devices → Type 0
  IsTrueAt i d =
      (ips : List String) → Dict.get (id, i) d.locks ≡ some ips → IsLocked ips (d.cores i)

  -- Each lock in the cache stands in its region.
  abbrev pub IsTrue : Devices → Type 0
  IsTrue d = (i : String) → IsTrueAt i d

  after_push-IsTrue :
      (i : String) (lock : List String) (pushed : Result Bool) (d : Devices)
      → (pushed ≡ ok true → IsLocked lock (d.cores i))
      → ((j : String) → j ≢ i → IsTrueAt j d)
      → (after_push (id, i) lock pushed d).0 ≡ ok tt
      → IsTrue (after_push (id, i) lock pushed d).1
  unfolding after_push
  after_push-IsTrue i lock (raise e) d locked others returns j ips found = cc
  after_push-IsTrue i lock (ok true) d locked others returns j ips found =
      elim (get-put-some (id, i) (id, j) lock ips d.locks found) [
        | inl (same, new) ↦
            let here : j ≡ i = ap (λ k. k.1) same in
            subst (λ k. IsLocked ips (d.cores k)) (sym here)
              (subst (λ l. IsLocked l (d.cores i)) (sym new) (locked refl))
        | inr (other, old) ↦ others j (λ e. other (ap (λ k. (id, k)) e)) ips old
      ]
  after_push-IsTrue i lock (ok false) d locked others returns j ips found =
      let (other, old) = get-remove-some (id, i) (id, j) ips d.locks found in
      others j (λ e. other (ap (λ k. (id, k)) e)) ips old

  push-locks :
      (w : World) (i : String) (lock : List String) (cores : Cores)
      → (push_allowed_ips w uuid5 i cred_uuid protos lock cores).0 ≡ ok true
      → IsLocked lock ((push_allowed_ips w uuid5 i cred_uuid protos lock cores).1 i)
  unfolding push_allowed_ips put_core
  push-locks w i lock cores e =
      let Q : Link → Type 0 = λ link. link.allowed_ips ≡ lock in
      let sets = patched-allowed_ips lock in
      let done =
        push_region-done (λ p. HasLink Q (link_uuid uuid5 cred_uuid p))
          (patch_link uuid5 cred_uuid (set_allowed_ips lock))
          (patch-makes Q (set_allowed_ips lock) sets uuid5 cred_uuid)
          (λ p.
            patch-Keeps Q (set_allowed_ips lock) sets uuid5 cred_uuid (link_uuid uuid5 cred_uuid p))
          w i protos (cores i) e in
      let after =
        (push_region w i (patch_link uuid5 cred_uuid (set_allowed_ips lock)) protos (cores i)).1 in
      subst (IsLocked lock) (sym (put_core_same i after cores)) done.1

  push-elsewhere :
      (w : World) (i j : String) (lock : List String) (cores : Cores)
      → j ≢ i
      → (push_allowed_ips w uuid5 i cred_uuid protos lock cores).1 j ≡ cores j
  unfolding push_allowed_ips put_core
  push-elsewhere w i j lock cores other = ground (arith, other, ==_iff i j)

  enforce_region-IsTrue :
      (w : World) (lock : List String) (regions : Regions) (i : String) (d : Devices)
      → IsTrue d
      → (enforce_region w uuid5 id cred_uuid protos lock regions i d).0 ≡ ok tt
      → IsTrue (enforce_region w uuid5 id cred_uuid protos lock regions i d).1
  unfolding enforce_region
  enforce_region-IsTrue w lock regions i d true_before returns =
      let pushed = push_allowed_ips w uuid5 i cred_uuid protos lock d.cores in
      let moved : Devices = record d { cores = pushed.1 } in
      let skips : Bool =
        is_cached (Dict.get (id, i) d.locks) lock && not (has_intruder lock (Dict.get i regions)) in
      let branch : Bool → Result (Unit {0}) × Devices =
        λ b. if b then (ok tt, d) else after_push (id, i) lock pushed.0 moved in
      elim (Bool-cases skips) [
        | inl unchanged ↦ subst (λ b. IsTrue (branch b).1) (sym unchanged) true_before
        | inr changed ↦
            subst (λ b. IsTrue (branch b).1) (sym changed)
              (after_push-IsTrue i lock pushed.0 moved (push-locks w i lock d.cores)
                (λ j other ips found.
                  subst (IsLocked ips) (sym (push-elsewhere w i j lock d.cores other))
                    (true_before j ips found))
                (subst (λ b. (branch b).0 ≡ ok tt) changed returns))
      ]

  enforce_regions-IsTrue :
      (w : World) (lock : List String) (regions : Regions) (is : List String) (d : Devices)
      → IsTrue d
      → (enforce_regions w uuid5 id cred_uuid protos lock regions is d).0 ≡ ok tt
      → IsTrue (enforce_regions w uuid5 id cred_uuid protos lock regions is d).1
  unfolding enforce_regions
  enforce_regions-IsTrue w lock regions [] d true_before returns = true_before
  enforce_regions-IsTrue w lock regions (i ∷ is) d true_before returns =
      let first = enforce_region w uuid5 id cred_uuid protos lock regions i d in
      let (first_ok, same) =
        then_do-ok first (enforce_regions w uuid5 id cred_uuid protos lock regions is) returns in
      subst (λ r. IsTrue r.1) (sym same)
        (enforce_regions-IsTrue w lock regions is first.1
          (enforce_region-IsTrue w lock regions i d true_before first_ok)
          (subst (λ r. r.0 ≡ ok tt) same returns))

-- If each lock in the cache of a customer stands on every link of the customer in its region, and
-- a tick for the customer ends without an exception, the same holds after the tick: whichever
-- regions were down, and whichever calls or answers were lost.
pub enforce_live-IsTrue :
    (t : Tick) (uuid5 : Uuid5) (plans : Plans) (id : String) (c : Customer)
    (regions : Result Regions) (d : Devices)
    → IsTrue uuid5 id c.cred_uuid (plan_protocols plans c.plan_id) d
    → (enforce_live t uuid5 plans id c regions d).0 ≡ ok tt
    → IsTrue uuid5 id c.cred_uuid
        (plan_protocols plans c.plan_id)
        (enforce_live t uuid5 plans id c regions d).1
unfolding enforce_live
enforce_live-IsTrue t uuid5 plans id c (raise e) d true_before returns = true_before
enforce_live-IsTrue t uuid5 plans id c (ok regions) d true_before returns =
    let presence = updated t.now regions (presence_of id d) in
    enforce_regions-IsTrue uuid5 id c.cred_uuid (plan_protocols plans c.plan_id) (t.pushes id)
      (desired_lock c.max_devices t.now presence) regions (plan_instances plans c.plan_id)
      (record d { presence = Dict.put id presence d.presence }) true_before returns
