-- ===== src/Core/Store.antt =====
-- `LinkStore` of core/voidz_core/state.py. Every method holds the lock from its first read to
-- its last write, so each is one step.
pub mod Accounting
use voidz.Prelude.{
  ℕ, ◌+◌, String, Bool, true, false, List, Option, none, some, map, length, keep, sum_by, count_if,
  if◌then◌else◌, string_eq,
}
use voidz.Prelude.Dict
use voidz.Prelude.Dict.{Dict}
use voidz.Core.Link.{Link, Time, is_allowed, is_expired}

abbrev pub LinkStore : Type 0
LinkStore = Dict String Link

unfoldable pub add : Link → LinkStore → LinkStore
add link links = Dict.put link.uuid link links

-- The link that was there, and the store without it.
unfoldable pub remove : String → LinkStore → Option Link × LinkStore
remove uuid links = (Dict.get uuid links, Dict.remove uuid links)

pub record Totals : Type 0 where
  pub count : ℕ
  pub active : ℕ
  pub expired : ℕ
  pub used_bytes : ℕ
  pub limit_bytes : ℕ

-- `link.used_bytes += n`
abbrev pub charged : ℕ → Link → Link
charged n link = record link { used_bytes = link.used_bytes + n }

module _ (t : Time) where
  unfoldable pub get_allowed : String → LinkStore → Option Link
  get_allowed uuid links = elim (Dict.get uuid links) [
    | none ↦ none
    | some link ↦ if is_allowed t link then some link else none
  ]

  -- Quota check and accounting.
  unfoldable pub use_bytes : String → ℕ → LinkStore → Bool × LinkStore
  use_bytes uuid n links = elim (Dict.get uuid links) [
    | none ↦ (false, links)
    | some link ↦
        if is_allowed t link then (true, Dict.put uuid (charged n link) links) else (false, links)
  ]

  unfoldable pub totals : LinkStore → Totals
  totals links =
      let values = map (λ (e : String × Link). e.1) links in
      record {
        count = length values;
        active = count_if (is_allowed t) values;
        expired = count_if (is_expired t) values;
        used_bytes = sum_by (λ (l : Link). l.used_bytes) values;
        limit_bytes = sum_by (λ (l : Link). l.limit_bytes) values;
      }
