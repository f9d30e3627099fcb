-- ===== src/Console/Reconcile/Passes.antt =====
-- A whole pass of `reconcile_once` (console/api/voidz_console/services/quota.py).
use voidz.Prelude.{
  ℕ, ◌≡◌, refl, sym, String, Bool, true, false, List, [], ◌∷◌, none, some, keep, keep-All, Option,
  if◌then◌else◌, ◌==◌, ==_iff, string_eq, All, arith, Bool-cases, inl, inr, map,
}
use mathlib.Core.Path.{subst}
use voidz.Prelude.Result.{Result, ok, raise}
use voidz.Prelude.Dict
use voidz.Prelude.Dict.{Dict, Distinct}
use voidz.Prelude.Dict.Rows.{get-row}
use voidz.Console.Fleet.{World}
use voidz.Console.Fleet.Confirmed.{All-weaken}
use voidz.Console.Quota.{
  Customer, Plans, Uuid5, set_customer_active, link_uuid, plan_protocols, plan_instances,
}
use voidz.Console.Reconcile.{
  Quota, update_customer, deactivated, synced, sum_usage, is_due, after_disable, after_retry,
  after_usage, Answers, next_row, disable_row, reconcile_row, reconcile_rows, retry_row,
  retry_disable, retry_all, reconcile_once,
}
use voidz.Console.Reconcile.Rows.{contains-discard, HasRow, update_customer-HasRow}
use voidz.Console.Reconcile.Blocked.{
  IsSwitchedAll, set_customer_active-confirmed, other-IsSwitchedAll,
}
use voidz.Console.Reconcile.Settled.{IsSettled, disable_row-IsSettled, synced-IsSettled}

after_disable-customers :
    (id : String) (confirmed : Result Bool) (q : Quota)
    → (after_disable id confirmed q).1.customers ≡ q.customers
unfolding after_disable
after_disable-customers id (raise e) q = refl
after_disable-customers id (ok true) q = refl
after_disable-customers id (ok false) q = refl

next_row-ok :
    (first rest : Result (Unit {0}) × Quota)
    → (next_row first rest).0 ≡ ok tt
    → (first.0 ≡ ok tt) × (next_row first rest ≡ rest)
unfolding next_row
next_row-ok (raise e, q) rest h = cc
next_row-ok (ok tt, q) rest h = (refl, refl)

module _ (a : Answers) (uuid5 : Uuid5) (plans : Plans) (now : ℕ) where
  after_usage-HasRow :
      (id : String) (c : Customer) (used : Result ℕ) (q : Quota) (row : String × Customer)
      → HasRow q.customers row
      → HasRow (after_usage a uuid5 plans now id c used q).1.customers row
  unfolding after_usage disable_row
  after_usage-HasRow id c (raise e) q row has = has
  after_usage-HasRow id c (ok used) q row has =
      let cached =
        update_customer-HasRow id (synced used) q.customers row (λ d. (refl, refl)) has in
      let off =
        update_customer-HasRow id deactivated (update_customer id (synced used) q.customers) row
          (λ d. (refl, refl)) cached in
      elim (Bool-cases (is_due now used c)) [
        | inl due ↦ rw (due, after_disable-customers) off
        | inr fine ↦ rw fine cached
      ]

  after_usage-IsSettled :
      (id : String) (c : Customer) (used : Result ℕ) (q : Quota)
      → HasRow q.customers (id, c)
      → IsSettled uuid5 plans q
      → (after_usage a uuid5 plans now id c used q).0 ≡ ok tt
      → IsSettled uuid5 plans (after_usage a uuid5 plans now id c used q).1
  unfolding after_usage
  after_usage-IsSettled id c (raise e) q has settled returns = settled
  after_usage-IsSettled id c (ok used) q has settled returns =
      let cached : Quota = record q { customers = update_customer id (synced used) q.customers } in
      let still = synced-IsSettled uuid5 plans id used q settled in
      elim (Bool-cases (is_due now used c)) [
        | inl due ↦
            subst
              (λ b.
                IsSettled uuid5 plans
                  (if b then disable_row a uuid5 plans now id c cached else (ok tt, cached)).1)
              (sym due)
              (disable_row-IsSettled a uuid5 plans now id c cached
                (update_customer-HasRow id (synced used) q.customers (id, c) (λ d. (refl, refl))
                  has)
                still (rw due at returns))
        | inr fine ↦
            subst
              (λ b.
                IsSettled uuid5 plans
                  (if b then disable_row a uuid5 plans now id c cached else (ok tt, cached)).1)
              (sym fine) still
      ]

  reconcile_rows-IsSettled :
      (rows : List (String × Customer)) (q : Quota)
      → All (HasRow q.customers) rows
      → IsSettled uuid5 plans q
      → (reconcile_rows a uuid5 plans now rows q).0 ≡ ok tt
      → IsSettled uuid5 plans (reconcile_rows a uuid5 plans now rows q).1
  unfolding reconcile_rows reconcile_row
  reconcile_rows-IsSettled [] q has settled returns = settled
  reconcile_rows-IsSettled ((id, c) ∷ rows) q has settled returns =
      let used =
        sum_usage (a.usage id) (map (link_uuid uuid5 c.cred_uuid) (plan_protocols plans c.plan_id))
          (plan_instances plans c.plan_id) q.cores in
      let done = after_usage a uuid5 plans now id c used q in
      let rest = reconcile_rows a uuid5 plans now rows done.1 in
      let (first, same) = next_row-ok done rest returns in
      subst (λ r. IsSettled uuid5 plans r.1) (sym same)
        (reconcile_rows-IsSettled rows done.1
          (All-weaken (HasRow q.customers) (HasRow done.1.customers) rows
            (λ row. after_usage-HasRow id c used q row) has.1)
          (after_usage-IsSettled id c used q has.0 settled first)
          (subst (λ r. r.0 ≡ ok tt) same returns))

  moved-IsSettled :
      (w : World) (c : Customer) (q : Quota)
      → IsSettled uuid5 plans q
      → IsSettled uuid5 plans (record q {
        cores = (set_customer_active w uuid5 plans c.plan_id c.cred_uuid false q.cores).1;
      })
  moved-IsSettled w c q settled j row found off = elim (settled j row found off) [
    | inl waits ↦ inl waits
    | inr blocked ↦ inr (
        other-IsSwitchedAll uuid5 plans row.plan_id row.cred_uuid false w c.plan_id c.cred_uuid
          q.cores blocked)
  ]

  after_retry-IsSettled :
      (id : String) (c : Customer) (confirmed : Result Bool) (q : Quota)
      → Dict.get id q.customers ≡ some c
      → (confirmed ≡ ok true → IsSwitchedAll uuid5 plans c.plan_id c.cred_uuid false q.cores)
      → IsSettled uuid5 plans q
      → IsSettled uuid5 plans (after_retry id confirmed q)
  unfolding after_retry
  after_retry-IsSettled id c (raise e) q there blocked settled j row found off =
      settled j row found off
  after_retry-IsSettled id c (ok false) q there blocked settled j row found off =
      settled j row found off
  after_retry-IsSettled id c (ok true) q there blocked settled j row found off =
      elim (Bool-cases (j == id)) [
        | inl here ↦
            let same : c ≡ row = ground (arith, here, ==_iff j id, there, found) in
            inr (
              subst
                (λ (r : Customer). IsSwitchedAll uuid5 plans r.plan_id r.cred_uuid false q.cores)
                same (blocked refl))
        | inr other ↦ elim (settled j row found off) [
          | inl waits ↦
              inl (contains-discard id j q.pending (ground (arith, other, ==_iff j id)) waits)
          | inr blocked_j ↦ inr blocked_j
        ]
      ]

  retry_row-IsSettled :
      (id : String) (fetched : Option Customer) (q : Quota)
      → Dict.get id q.customers ≡ fetched
      → IsSettled uuid5 plans q
      → IsSettled uuid5 plans (retry_row a uuid5 plans now id fetched q)
  unfolding retry_row
  retry_row-IsSettled id none q absent settled j row found off = elim (settled j row found off) [
    | inl waits ↦
        inl (contains-discard id j q.pending (λ e. (let no = rw (e, absent) at found in cc)) waits)
    | inr blocked ↦ inr blocked
  ]
  retry_row-IsSettled id (some c) q there settled j row found off =
      let pushed =
        set_customer_active (a.retry id) uuid5 plans c.plan_id c.cred_uuid false q.cores in
      after_retry-IsSettled id c pushed.0 (record q { cores = pushed.1 }) there
        (λ e.
          let confirmed =
            set_customer_active-confirmed uuid5 plans c.plan_id c.cred_uuid false (a.retry id)
              q.cores e in
          confirmed.1)
        (moved-IsSettled (a.retry id) c q settled) j row found off

  retry_all-IsSettled :
      (ids : List String) (q : Quota)
      → IsSettled uuid5 plans q
      → IsSettled uuid5 plans (retry_all a uuid5 plans now ids q)
  unfolding retry_all retry_disable
  retry_all-IsSettled [] q settled = settled
  retry_all-IsSettled (id ∷ ids) q settled =
      retry_all-IsSettled ids (retry_disable a uuid5 plans now id q)
        (retry_row-IsSettled id (Dict.get id q.customers) q refl settled)

-- If before a pass every inactive customer is off in all regions or waits in the set of pending
-- disables, and the pass ends without an exception, the same holds after it: those whom the pass
-- disabled included, whichever regions were down and whichever calls were lost.
pub reconcile_once-IsSettled :
    (a : Answers) (uuid5 : Uuid5) (plans : Plans) (now : ℕ) (q : Quota)
    → Distinct q.customers
    → IsSettled uuid5 plans q
    → (reconcile_once a uuid5 plans now q).0 ≡ ok tt
    → IsSettled uuid5 plans (reconcile_once a uuid5 plans now q).1
unfolding reconcile_once
reconcile_once-IsSettled a uuid5 plans now q distinct settled returns =
    let active : List (String × Customer) = keep (λ row. row.1.active) q.customers in
    let swept = reconcile_rows a uuid5 plans now active q in
    let rest : Result (Unit {0}) × Quota =
      (ok tt, retry_all a uuid5 plans now swept.1.pending swept.1) in
    let (first, same) = next_row-ok swept rest returns in
    let rows =
      keep-All (HasRow q.customers) (λ row. row.1.active) q.customers
        (All-weaken (λ row. Dict.get row.0 q.customers ≡ some row.1) (HasRow q.customers)
          q.customers (λ row there. (row.1, there, (refl, refl))) (get-row q.customers distinct)) in
    subst (λ r. IsSettled uuid5 plans r.1) (sym same)
      (retry_all-IsSettled a uuid5 plans now swept.1.pending swept.1
        (reconcile_rows-IsSettled a uuid5 plans now active q rows settled first))
