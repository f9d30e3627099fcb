-- ===== src/Core/Stats/Bounds.antt =====
-- What the counters of `RuntimeStats` agree on, and how large they grow
-- (core/voidz_core/state.py).
use voidz.Prelude.{
  ℕ, ◌+◌, ◌-◌, ◌≤◌, ◌≡◌, refl, List, [], ◌∷◌, ◌++◌, none, some, length, sum_by, length-drop, nat_eq,
  arith,
}
use voidz.Prelude.Dict
use voidz.Prelude.Dict.{Dict}
use voidz.Core.Stats.{
  RuntimeStats, add_traffic, add_error, add_request, init, push_bounded, max_errors,
}

sum-put :
    (k n : ℕ) (d : Dict ℕ ℕ)
    → sum_by
        (λ (e : ℕ × ℕ). e.1)
        (Dict.put k ((elim (Dict.get k d) [ none ↦ 0 | some m ↦ m ]) + n) d)
      ≡ sum_by (λ (e : ℕ × ℕ). e.1) d + n
unfolding sum_by Dict.get Dict.put
sum-put k n [] = omega arith
sum-put k n ((j, m) ∷ d) = ground (arith, sum-put k n d)

-- The hourly buckets add up to the total, and the ring of errors holds 50 at most.
pub record IsConsistent (stats : RuntimeStats) : Type 0 where
  pub buckets : sum_by (λ (e : ℕ × ℕ). e.1) stats.hourly ≡ stats.total_bytes
  pub ring : length stats.errors ≤ max_errors

length-push_bounded {ℓ} :
    {A : Type ℓ} (n : ℕ) (a : A) (xs : List A) → length (push_bounded n a xs) ≤ n
unfolding push_bounded
length-push_bounded n a xs =
    omega (arith, length-drop (length (xs ++ (a ∷ [])) - n) (xs ++ (a ∷ [])))

add_traffic-IsConsistent :
    (hour n : ℕ) (stats : RuntimeStats)
    → IsConsistent stats
    → IsConsistent (add_traffic hour n stats)
unfolding add_traffic
add_traffic-IsConsistent hour n stats h = record {
  buckets = omega (arith, sum-put hour n stats.hourly, h.buckets);
  ring = h.ring;
}

add_error-IsConsistent :
    (message : List ℕ) (time : ℕ) (stats : RuntimeStats)
    → IsConsistent stats
    → IsConsistent (add_error message time stats)
unfolding add_error
add_error-IsConsistent message time stats h = record {
  buckets = h.buckets;
  ring = length-push_bounded max_errors _ stats.errors;
}

new_IsConsistent : IsConsistent init
unfolding sum_by
new_IsConsistent = record { buckets = refl; ring = omega arith }

pub data Call : Type 0 where
  traffic : ℕ → ℕ → Call
  request : Call
  failure : List ℕ → ℕ → Call

unfoldable pub apply : Call → RuntimeStats → RuntimeStats
apply (traffic hour n) stats = add_traffic hour n stats
apply request stats = add_request stats
apply (failure message time) stats = add_error message time stats

unfoldable pub apply_all : List Call → RuntimeStats → RuntimeStats
apply_all [] stats = stats
apply_all (c ∷ calls) stats = apply_all calls (apply c stats)

apply_all-keeps :
    (calls : List Call) (stats : RuntimeStats)
    → IsConsistent stats
    → IsConsistent (apply_all calls stats)
unfolding apply_all apply add_request
apply_all-keeps [] stats h = h
apply_all-keeps (traffic hour n ∷ calls) stats h =
    apply_all-keeps calls (add_traffic hour n stats) (add_traffic-IsConsistent hour n stats h)
apply_all-keeps (request ∷ calls) stats h =
    apply_all-keeps calls (add_request stats) (record { buckets = h.buckets; ring = h.ring })
apply_all-keeps (failure message time ∷ calls) stats h =
    apply_all-keeps calls (add_error message time stats)
      (add_error-IsConsistent message time stats h)

-- However traffic, requests and errors are recorded, as long as no hour is pruned the hourly
-- buckets add up to the total of bytes, and at most 50 errors are kept.
pub apply_all-IsConsistent : (calls : List Call) → IsConsistent (apply_all calls init)
apply_all-IsConsistent calls = apply_all-keeps calls init new_IsConsistent
