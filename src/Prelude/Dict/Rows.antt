-- ===== src/Prelude/Dict/Rows.antt =====
-- The rows of a dict, as `d.items()` gives them.
use mathlib.Core.Path.{◌≡◌, refl}
use mathlib.Core.List.{[], ◌∷◌}
use mathlib.Core.Option.{some, none}
use native.Mathlib.Omega.{arith}
use voidz.Prelude.Lists.{All}
use voidz.Prelude.Equality.{Equality}
use voidz.Prelude.Dict.{Dict, Distinct, get, remove}

module _ {ℓ κ} {K : Type ℓ} {V : Type κ} ⦃e : Equality K⦄ where
  rows_behind :
      (k : K) (v : V) (whole part : Dict K V)
      → get k whole ≡ none
      → All (λ row. get row.0 whole ≡ some row.1) part
      → All (λ row. get row.0 ((k, v) ∷ whole) ≡ some row.1) part
  unfolding get
  rows_behind k v whole [] new h = tt
  rows_behind k v whole ((j, w) ∷ part) new h =
      (ground (arith, new, h.0, e.equals_iff k j), rows_behind k v whole part new h.1)

  -- Each row is found under its key.
  pub get-row : (d : Dict K V) → Distinct d → All (λ row. get row.0 d ≡ some row.1) d
  unfolding get
  get-row [] u = tt
  get-row ((k, v) ∷ d) u =
      (ground (arith, e.equals_iff k k), rows_behind k v d d u.0 (get-row d u.1))

  -- A key that is not there leaves nothing to remove.
  pub remove_absent : (k : K) (d : Dict K V) → get k d ≡ none → remove k d ≡ d
  unfolding get remove
  remove_absent k [] h = refl
  remove_absent k ((j, w) ∷ d) h = ground (arith, remove_absent k d)
