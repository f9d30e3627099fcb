-- ===== src/Core/Store/Accounting.antt =====
-- What `LinkStore.use` charges, and how far a link can go over its quota
-- (core/voidz_core/state.py).
use voidz.Prelude.{
  ℕ, ◌+◌, ◌≤◌, ◌<◌, ◌≡◌, ◌≢◌, ◌⊎◌, inl, inr, String, true, false, List, [], ◌∷◌, none, some, map,
  sum_by, All, if◌then◌else◌, ◌&&◌, ◌==◌, string_eq, arith, Option-cases,
}
use text.Mathlib.TextEquality.{eq_iff}
use voidz.Prelude.Dict
use voidz.Prelude.Dict.{Dict, get-put}
use voidz.Core.Link.{Link, Time, is_allowed}
use voidz.Core.Store.{LinkStore, charged, use_bytes, totals}

-- Replacing the value of a key changes a sum over the values by the difference.
sum-put :
    (f : Link → ℕ) (k : String) (v w : Link) (d : LinkStore)
    → Dict.get k d ≡ some w
    → sum_by f (map (λ e. e.1) (Dict.put k v d)) + f w ≡ sum_by f (map (λ e. e.1) d) + f v
unfolding sum_by Dict.get Dict.put
sum-put f k v w [] h = cc
sum-put f k v w ((j, x) ∷ d) h = ground (arith, sum-put f k v w d)

sum-charged :
    (t : Time) (uuid : String) (n : ℕ) (links : LinkStore)
    → (totals t (use_bytes t uuid n links).1).used_bytes
      ≡ (totals t links).used_bytes + (if (use_bytes t uuid n links).0 then n else 0)
unfolding use_bytes totals
sum-charged t uuid n links = elim (Option-cases (Dict.get uuid links)) [
  | inl absent ↦ rw (absent, use_bytes) (omega arith)
  | inr (link, there) ↦
      let change = sum-put (λ l. l.used_bytes) uuid (charged n link) link links there in
      rw (there, use_bytes) (ground (arith, change))
]

-- A lookup after a charge.
pub get-use_bytes :
    (t : Time) (uuid : String) (n : ℕ) (links : LinkStore) (k : String)
    → Dict.get k (use_bytes t uuid n links).1 ≡ (elim (Dict.get uuid links) [
      | none ↦ Dict.get k links
      | some link ↦
          if is_allowed t link && uuid == k then some (charged n link) else Dict.get k links
    ])
unfolding use_bytes
get-use_bytes t uuid n links k = elim (Option-cases (Dict.get uuid links)) [
  | inl absent ↦ rw (absent, use_bytes)
  | inr (link, there) ↦
      rw (there, use_bytes) (ground (arith, get-put uuid k (charged n link) links))
]

-- The sum of the bytes charged to all links grows by exactly `n` if `use` returns True, and does
-- not change if it returns False; `use` returns True exactly if the link is there and
-- `is_allowed`; and no other link changes.
pub use_bytes_charges :
    (t : Time) (uuid : String) (n : ℕ) (links : LinkStore)
    → ((totals t (use_bytes t uuid n links).1).used_bytes
        ≡ (totals t links).used_bytes + (if (use_bytes t uuid n links).0 then n else 0))
      × ((use_bytes t uuid n links).0
          ≡ (elim (Dict.get uuid links) [ none ↦ false | some link ↦ is_allowed t link ]))
      × ((other : String)
          → other ≢ uuid
          → Dict.get other (use_bytes t uuid n links).1 ≡ Dict.get other links)
use_bytes_charges t uuid n links = (
  sum-charged t uuid n links,
  unfold use_bytes in ground arith,
  λ other differs. ground (arith, get-use_bytes t uuid n links other, eq_iff uuid other),
)

-- One call of `use`, at its time.
pub record Charge : Type 0 where
  pub time : Time
  pub uuid : String
  pub bytes : ℕ

-- A sequence of calls of `use`, whatever they return.
unfoldable pub charge_all : List Charge → LinkStore → LinkStore
charge_all [] links = links
charge_all (c ∷ rest) links = charge_all rest (use_bytes c.time c.uuid c.bytes links).1

-- Every link with a quota is below the quota and `slack`.
pub record IsWithin (slack : ℕ) (links : LinkStore) : Type 0 where
  pub at_link :
      (k : String) (link : Link)
      → Dict.get k links ≡ some link
      → (link.limit_bytes ≡ 0) ⊎ (link.used_bytes < link.limit_bytes + slack)

charged_within :
    (t : Time) (slack n : ℕ) (link : Link)
    → n ≤ slack
    → is_allowed t link ≡ true
    → (link.limit_bytes ≡ 0) ⊎ (link.used_bytes + n < link.limit_bytes + slack)
unfolding is_allowed
charged_within t slack n link small allowed = ground arith

pub use_bytes-IsWithin :
    (t : Time) (uuid : String) (slack n : ℕ) (links : LinkStore)
    → n ≤ slack
    → IsWithin slack links
    → IsWithin slack (use_bytes t uuid n links).1
unfolding use_bytes
use_bytes-IsWithin t uuid slack n links small h = record {
  at_link = λ k link there.
      let after = get-use_bytes t uuid n links k in
      elim (Option-cases (Dict.get uuid links)) [
        | inl absent ↦ h.at_link k link (ground (arith, after))
        | inr (found, present) ↦ ground (
          arith,
          after,
          charged_within t slack n found,
          h.at_link uuid found present,
          h.at_link k link,
        )
      ];
}

-- However many calls of `use` charge at most `slack` bytes each, no link with a quota reaches its
-- quota and `slack`: a link is over its quota by less than one charge.
pub charge_all-IsWithin :
    (slack : ℕ) (charges : List Charge) (links : LinkStore)
    → All (λ c. c.bytes ≤ slack) charges
    → IsWithin slack links
    → IsWithin slack (charge_all charges links)
unfolding charge_all
charge_all-IsWithin slack [] links small h = h
charge_all-IsWithin slack (c ∷ rest) links small h =
    charge_all-IsWithin slack rest (use_bytes c.time c.uuid c.bytes links).1 small.1
      (use_bytes-IsWithin c.time c.uuid slack c.bytes links small.0 h)
