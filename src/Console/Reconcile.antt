-- ===== src/Console/Reconcile.antt =====
-- Pooled quotas: `reconcile_once` of console/api/voidz_console/services/quota.py.
pub mod Blocked
pub mod Rows
pub mod Settled
pub mod Passes
use voidz.Prelude.{
  ℕ, ◌+◌, String, Bool, true, false, not, ◌&&◌, ◌||◌, List, [], ◌∷◌, Option, none, some, map, keep,
  contains, ltb, leb, if◌then◌else◌, ◌==◌, string_eq,
}
use voidz.Prelude.Result.{Result, ok, raise, value_error, ◌>>=◌}
use voidz.Prelude.Dict
use voidz.Prelude.Dict.{Dict}
use voidz.Core.Link.{Link}
use voidz.Core.Store.{LinkStore}
use voidz.Console.Fleet.{Cores, World, Delivery, delivered, lost, unanswered, garbled}
use voidz.Console.Quota.{
  Customer, Customers, Plans, Uuid5, plan_protocols, plan_instances, link_uuid, set_customer_active,
}

-- The table of customers, the set `_pending_disable`, and the cores.
pub record Quota : Type 0 where
  pub customers : Customers
  pub pending : List String
  pub cores : Cores

-- `set.discard` and `set.add`
unfoldable pub discard : String → List String → List String
discard id set = keep (λ x. not (x == id)) set

unfoldable pub insert : String → List String → List String
insert id set = if contains set id then set else id ∷ set

unfoldable pub forget_pending_disable : String → Quota → Quota
forget_pending_disable id q = record q { pending = discard id q.pending }

-- The bytes that the wanted links of one core have used.
unfoldable pub usage_of : List String → LinkStore → ℕ
usage_of wanted [] = 0
usage_of wanted ((uuid, link) ∷ links) =
    (if contains wanted link.uuid then link.used_bytes else 0) + usage_of wanted links

-- What the answer to a query adds.
unfoldable pub add_usage : Delivery → ℕ → Result ℕ → Result ℕ
add_usage delivered n rest = do total ← rest; ok (n + total)
add_usage lost n rest = rest
add_usage unanswered n rest = rest
add_usage (garbled reached) n rest = raise value_error

-- `queries` tells what happens to the query of an instance, under the protocol "".
unfoldable pub sum_usage : World → List String → List String → Cores → Result ℕ
sum_usage queries wanted [] cores = ok 0
sum_usage queries wanted (i ∷ is) cores =
    let rest = sum_usage queries wanted is cores in
    if queries.running i
    then add_usage (queries.delivery i "") (usage_of wanted (cores i).links) rest
    else rest

-- `UPDATE customers SET ... WHERE id = ...`
unfoldable pub update_customer : String → (Customer → Customer) → Customers → Customers
update_customer id f customers = elim (Dict.get id customers) [
  | none ↦ customers
  | some c ↦ Dict.put id (f c) customers
]

abbrev pub deactivated : Customer → Customer
deactivated c = record c { active = false }

abbrev pub synced : ℕ → Customer → Customer
synced used c = record c { used_bytes_cached = used }

-- `expired or over_quota`
unfoldable pub is_due : ℕ → ℕ → Customer → Bool
is_due now used c =
    (elim c.expires_at [ none ↦ false | some moment ↦ ltb moment now ])
    || (ltb 0 c.limit_bytes && leb c.limit_bytes used)

-- The end of a disable, by whether every region confirmed it.
unfoldable pub after_disable : String → Result Bool → Quota → Result (Unit {0}) × Quota
after_disable id (raise e) q = (raise e, q)
after_disable id (ok true) q = (ok tt, record q { pending = discard id q.pending })
after_disable id (ok false) q = (ok tt, record q { pending = insert id q.pending })

-- The end of a retry; an exception is logged.
unfoldable pub after_retry : String → Result Bool → Quota → Quota
after_retry id (raise e) q = q
after_retry id (ok true) q = record q { pending = discard id q.pending }
after_retry id (ok false) q = q

-- During one pass: what happens to the query of the usage of a customer, to the disabling and
-- to the retry.
pub record Answers : Type 0 where
  pub usage : String → World
  pub disable : String → World
  pub retry : String → World

unfoldable pub next_row :
    Result (Unit {0}) × Quota → Result (Unit {0}) × Quota → Result (Unit {0}) × Quota
next_row (raise e, q) rest = (raise e, q)
next_row (ok _, q) rest = rest

module _ (a : Answers) (uuid5 : Uuid5) (plans : Plans) (now : ℕ) where
  -- The row of a customer is set inactive before the regions are told.
  unfoldable pub disable_row : String → Customer → Quota → Result (Unit {0}) × Quota
  disable_row id c q =
      let (confirmed, cores) =
        set_customer_active (a.disable id) uuid5 plans c.plan_id c.cred_uuid false q.cores in
      after_disable id confirmed
        (record q { customers = update_customer id deactivated q.customers; cores = cores })

  -- What follows the query of the usage.
  unfoldable pub after_usage : String → Customer → Result ℕ → Quota → Result (Unit {0}) × Quota
  after_usage id c (raise e) q = (ok tt, q)
  after_usage id c (ok used) q =
      let cached : Quota = record q { customers = update_customer id (synced used) q.customers } in
      if is_due now used c then disable_row id c cached else (ok tt, cached)

  -- The body of the first loop, on a row as it was selected.
  unfoldable pub reconcile_row : String → Customer → Quota → Result (Unit {0}) × Quota
  reconcile_row id c q =
      let wanted = map (link_uuid uuid5 c.cred_uuid) (plan_protocols plans c.plan_id) in
      after_usage id c (sum_usage (a.usage id) wanted (plan_instances plans c.plan_id) q.cores) q

  unfoldable pub reconcile_rows : List (String × Customer) → Quota → Result (Unit {0}) × Quota
  reconcile_rows [] q = (ok tt, q)
  reconcile_rows ((id, c) ∷ rows) q =
      let done = reconcile_row id c q in next_row done (reconcile_rows rows done.1)

  -- The body of the second loop, with the row that was fetched.
  unfoldable pub retry_row : String → Option Customer → Quota → Quota
  retry_row id none q = record q { pending = discard id q.pending }
  retry_row id (some c) q =
      let (confirmed, cores) =
        set_customer_active (a.retry id) uuid5 plans c.plan_id c.cred_uuid false q.cores in
      after_retry id confirmed (record q { cores = cores })

  unfoldable pub retry_disable : String → Quota → Quota
  retry_disable id q = retry_row id (Dict.get id q.customers) q

  unfoldable pub retry_all : List String → Quota → Quota
  retry_all [] q = q
  retry_all (id ∷ ids) q = retry_all ids (retry_disable id q)

  unfoldable pub reconcile_once : Quota → Result (Unit {0}) × Quota
  reconcile_once q =
      let swept = reconcile_rows (keep (λ row. row.1.active) q.customers) q in
      next_row swept (ok tt, retry_all swept.1.pending swept.1)
