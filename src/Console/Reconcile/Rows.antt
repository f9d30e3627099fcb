-- ===== src/Console/Reconcile/Rows.antt =====
-- The rows of customers and the set of pending ones under the updates of a pass
-- (console/api/voidz_console/services/quota.py).
use voidz.Prelude.{
  ◌≡◌, ◌≢◌, ◌∙◌, String, true, List, [], ◌∷◌, some, keep, contains, ◌==◌, ==_iff, ==_refl,
  string_eq, arith, Bool-cases, Option-cases, ◌⊎◌, inl, inr,
}
use voidz.Prelude.Dict
use voidz.Prelude.Dict.{Dict, Distinct, get-put, get-put-some}
use voidz.Console.Quota.{Customer, Customers}
use voidz.Console.Reconcile.{discard, insert, update_customer}

pub contains-discard :
    (id j : String) (set : List String)
    → j ≢ id
    → contains set j ≡ true
    → contains (discard id set) j ≡ true
unfolding discard keep contains
contains-discard id j [] other h = cc
contains-discard id j (x ∷ set) other h =
    ground (arith, ==_iff x id, ==_iff x j, contains-discard id j set other, h)

pub contains-insert :
    (id j : String) (set : List String) → contains set j ≡ true → contains (insert id set) j ≡ true
unfolding insert contains
contains-insert id j set h = ground (arith, h)

pub insert-contains : (id : String) (set : List String) → contains (insert id set) id ≡ true
unfolding insert contains
insert-contains id set = ground (arith, ==_refl id)

-- where a row comes from after an update, and where a row goes
pub get-update_customer :
    (id j : String) (f : Customer → Customer) (customers : Customers) (row : Customer)
    → Dict.get j (update_customer id f customers) ≡ some row
    → ((j ≡ id) × (old : Customer) × (Dict.get id customers ≡ some old) × (row ≡ f old))
      ⊎ ((j ≢ id) × (Dict.get j customers ≡ some row))
unfolding update_customer
get-update_customer id j f customers row h = elim (Option-cases (Dict.get id customers)) [
  | inl absent ↦ inr (
    λ e. (let no = rw (e, absent, update_customer) at h in cc),
    rw (absent, update_customer) at h,
  )
  | inr (old, there) ↦
      elim (get-put-some id j (f old) row customers (rw (there, update_customer) at h)) [
        | inl (same, new) ↦ inl (same, old, there, new)
        | inr (other, found) ↦ inr (other, found)
      ]
]

-- the fields by which the regions are found
abbrev pub IsSame : Customer → Customer → Type 0
IsSame c d = (c.plan_id ≡ d.plan_id) × (c.cred_uuid ≡ d.cred_uuid)

-- the row of the table that a selected row came from
abbrev pub HasRow : Customers → String × Customer → Type 0
HasRow customers (id, c) = (d : Customer) × (Dict.get id customers ≡ some d) × IsSame c d

pub update_customer-HasRow :
    (id : String) (f : Customer → Customer) (customers : Customers) (row : String × Customer)
    → ((d : Customer) → IsSame d (f d))
    → HasRow customers row
    → HasRow (update_customer id f customers) row
unfolding update_customer
update_customer-HasRow id f customers (j, c) same (d, there, fields) =
    elim (Option-cases (Dict.get id customers)) [
      | inl absent ↦ rw (absent, update_customer) (d, there, fields)
      | inr (old, found) ↦ elim (Bool-cases (id == j)) [
        | inl here ↦ (
          f old,
          rw (found, update_customer) (get-put id j (f old) customers ∙ rw here),
          ground (arith, here, ==_iff id j, there, found, fields, same old),
        )
        | inr other ↦ (
          d,
          rw (found, update_customer) (get-put id j (f old) customers ∙ rw (other, there)),
          fields,
        )
      ]
    ]
