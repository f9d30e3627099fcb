-- ===== src/Console/Reconcile/Settled.antt =====
-- A customer that is switched off stays off: the passes of `reconcile_once`
-- (console/api/voidz_console/services/quota.py).
use voidz.Prelude.{
  ℕ, ◌≡◌, ◌≢◌, refl, sym, String, Bool, true, false, some, contains, ◌==◌, ==_iff, string_eq, arith,
  Bool-cases, ◌⊎◌, inl, inr,
}
use mathlib.Core.Path.{subst}
use voidz.Prelude.Result.{Result, ok, raise}
use voidz.Prelude.Dict
use voidz.Prelude.Dict.{Dict, Distinct, get-put, get-put-some}
use voidz.Console.Fleet.{Cores, World}
use voidz.Console.Quota.{Customer, Plans, Uuid5, set_customer_active}
use voidz.Console.Reconcile.{
  Quota, insert, update_customer, deactivated, synced, after_disable, Answers, disable_row,
}
use voidz.Console.Reconcile.Rows.{
  contains-discard, contains-insert, insert-contains, get-update_customer, IsSame, HasRow,
  update_customer-HasRow,
}
use voidz.Console.Reconcile.Blocked.{
  IsSwitchedAll, set_customer_active-confirmed, other-IsSwitchedAll,
}

module _ (uuid5 : Uuid5) (plans : Plans) where
  -- the links of a row are off in every region
  abbrev pub IsBlocked : Customer → Cores → Type 0
  IsBlocked c cores = IsSwitchedAll uuid5 plans c.plan_id c.cred_uuid false cores

  -- A row that is inactive will be retried, or its links are off everywhere.
  abbrev pub IsSettledAt : String → Quota → Type 0
  IsSettledAt id q =
      (c : Customer)
      → Dict.get id q.customers ≡ some c
      → c.active ≡ false
      → (contains q.pending id ≡ true) ⊎ IsBlocked c q.cores

  abbrev pub IsSettled : Quota → Type 0
  IsSettled q = (id : String) → IsSettledAt id q

  IsBlocked-same :
      (c d : Customer) (cores : Cores) → IsSame c d → IsBlocked c cores → IsBlocked d cores
  IsBlocked-same c d cores (plan, cred) h =
      subst (λ p. IsSwitchedAll uuid5 plans p d.cred_uuid false cores) plan
        (subst (λ u. IsSwitchedAll uuid5 plans c.plan_id u false cores) cred h)

  after_disable-IsSettled :
      (id : String) (c : Customer) (confirmed : Result Bool) (q : Quota)
      → HasRow q.customers (id, c)
      → (confirmed ≡ ok true → IsBlocked c q.cores)
      → ((j : String) → j ≢ id → IsSettledAt j q)
      → (after_disable id confirmed q).0 ≡ ok tt
      → IsSettled (after_disable id confirmed q).1
  unfolding after_disable
  after_disable-IsSettled id c (raise e) q (d, there, fields) blocked others returns j row found
        off =
      cc
  after_disable-IsSettled id c (ok true) q (d, there, fields) blocked others returns j row found
        off =
      elim (Bool-cases (j == id)) [
        | inl here ↦ inr (
            IsBlocked-same c row q.cores (ground (arith, here, ==_iff j id, there, found, fields))
              (blocked refl))
        | inr other ↦
            let no : j ≢ id = ground (arith, other, ==_iff j id) in
            elim (others j no row found off) [
              | inl waits ↦ inl (contains-discard id j q.pending no waits)
              | inr blocked_j ↦ inr blocked_j
            ]
      ]
  after_disable-IsSettled id c (ok false) q (d, there, fields) blocked others returns j row found
        off =
      elim (Bool-cases (j == id)) [
        | inl here ↦ inl (
            subst (λ k. contains (insert id q.pending) k ≡ true) (sym ((==_iff j id).0 here))
              (insert-contains id q.pending))
        | inr other ↦ elim (others j (ground (arith, other, ==_iff j id)) row found off) [
          | inl waits ↦ inl (contains-insert id j q.pending waits)
          | inr blocked_j ↦ inr blocked_j
        ]
      ]

  -- The pass over another customer, whose row is updated.
  other-IsSettledAt :
      (w : World) (id j : String) (c : Customer) (f : Customer → Customer) (q : Quota)
      → j ≢ id
      → IsSettledAt j q
      → IsSettledAt j (record q {
        customers = update_customer id f q.customers;
        cores = (set_customer_active w uuid5 plans c.plan_id c.cred_uuid false q.cores).1;
      })
  other-IsSettledAt w id j c f q other settled row found off =
      elim (get-update_customer id j f q.customers row found) [
        | inl here ↦ absurd (other here.0)
        | inr there ↦ elim (settled row there.1 off) [
          | inl waits ↦ inl waits
          | inr blocked ↦ inr (
              other-IsSwitchedAll uuid5 plans row.plan_id row.cred_uuid false w c.plan_id
                c.cred_uuid q.cores blocked)
        ]
      ]

  pub synced-IsSettled :
      (id : String) (used : ℕ) (q : Quota)
      → IsSettled q
      → IsSettled (record q { customers = update_customer id (synced used) q.customers })
  synced-IsSettled id used q settled j row found off =
      elim (get-update_customer id j (synced used) q.customers row found) [
        | inl (here, old, there, new) ↦ elim (settled id old there (ground (arith, new, off))) [
          | inl waits ↦ inl (rw here waits)
          | inr blocked ↦ inr (IsBlocked-same old row q.cores (ground (arith, new)) blocked)
        ]
        | inr there ↦ settled j row there.1 off
      ]

pub disable_row-IsSettled :
    (a : Answers) (uuid5 : Uuid5) (plans : Plans) (now : ℕ) (id : String) (c : Customer) (q : Quota)
    → HasRow q.customers (id, c)
    → IsSettled uuid5 plans q
    → (disable_row a uuid5 plans now id c q).0 ≡ ok tt
    → IsSettled uuid5 plans (disable_row a uuid5 plans now id c q).1
unfolding disable_row
disable_row-IsSettled a uuid5 plans now id c q has settled returns =
    let pushed =
      set_customer_active (a.disable id) uuid5 plans c.plan_id c.cred_uuid false q.cores in
    after_disable-IsSettled uuid5 plans id c pushed.0
      (record q { customers = update_customer id deactivated q.customers; cores = pushed.1 })
      (update_customer-HasRow id deactivated q.customers (id, c) (λ d. (refl, refl)) has)
      (λ e.
        (set_customer_active-confirmed uuid5 plans c.plan_id c.cred_uuid false (a.disable id)
          q.cores e).1)
      (λ j other.
        other-IsSettledAt uuid5 plans (a.disable id) id j c deactivated q other (settled j))
      returns
