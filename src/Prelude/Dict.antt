-- ===== src/Prelude/Dict.antt =====
-- Python's `dict`: an association list in insertion order. An assignment to a key that is there
-- keeps its place, a new key goes to the end.
pub mod Rows
use mathlib.Core.Path.{◌≡◌, refl, sym, ◌∙◌}
use mathlib.Core.List.{List, [], ◌∷◌, ◌++◌, append_assoc, append-nil}
use mathlib.Core.Option.{Option, none, some}
use Prim.Native.Nat.{ℕ, ◌+◌, ◌≤◌}
use mathlib.Core.Logic.{◌≢◌, ◌⊎◌}
use mathlib.Core.Bool.{Bool}
use native.Mathlib.Omega.{arith}
use voidz.Prelude.Tests.{if◌then◌else◌}
use voidz.Prelude.Lists.{length}
use voidz.Prelude.Equality.{Equality}

abbrev pub Dict {ℓ κ} : Type ℓ → Type κ → Type (ℓ ⊔ κ)
Dict K V = List (K × V)

module _ {ℓ κ} {K : Type ℓ} {V : Type κ} ⦃e : Equality K⦄ where
  -- d.get(k)
  unfoldable pub get : K → Dict K V → Option V
  get k [] = none
  get k ((j, v) ∷ d) = if e.equals j k then some v else get k d

  -- d[k] = v
  unfoldable pub put : K → V → Dict K V → Dict K V
  put k v [] = (k, v) ∷ []
  put k v ((j, w) ∷ d) = let rest = put k v d in if e.equals j k then (j, v) ∷ d else (j, w) ∷ rest

  -- d.pop(k, None), del d[k]
  unfoldable pub remove : K → Dict K V → Dict K V
  remove k [] = []
  remove k ((j, w) ∷ d) = let rest = remove k d in if e.equals j k then rest else (j, w) ∷ rest

  pub get-put :
      (k j : K) (v : V) (d : Dict K V)
      → get j (put k v d) ≡ (if e.equals k j then some v else get j d)
  unfolding get put
  get-put k j v [] = refl
  get-put k j v ((i, w) ∷ d) =
      ground (arith, e.equals_iff k j, e.equals_iff i k, e.equals_iff i j, get-put k j v d)

  pub get-remove :
      (k j : K) (d : Dict K V) → get j (remove k d) ≡ (if e.equals k j then none else get j d)
  unfolding get remove
  get-remove k j [] = ground arith
  get-remove k j ((i, w) ∷ d) =
      ground (arith, e.equals_iff k j, e.equals_iff i k, e.equals_iff i j, get-remove k j d)

  -- where a value that is found comes from
  pub get-put-some :
      (k j : K) (v w : V) (d : Dict K V)
      → get j (put k v d) ≡ some w
      → ((j ≡ k) × (w ≡ v)) ⊎ ((j ≢ k) × (get j d ≡ some w))
  get-put-some k j v w d h = ground (arith, h, e.equals_iff k j, get-put k j v d)

  pub get-remove-some :
      (k j : K) (w : V) (d : Dict K V) → get j (remove k d) ≡ some w → (j ≢ k) × (get j d ≡ some w)
  get-remove-some k j w d h = ground (arith, h, e.equals_iff k j, get-remove k j d)

  pub length-put :
      (k : K) (v : V) (d : Dict K V)
      → length (put k v d) ≡ (elim (get k d) [ none ↦ length d + 1 | some w ↦ length d ])
  unfolding get put
  length-put k v [] = refl
  length-put k v ((i, w) ∷ d) = ground (arith, length-put k v d)

  pub length-remove-le : (k : K) (d : Dict K V) → length (remove k d) ≤ length d
  unfolding remove
  length-remove-le k [] = omega arith
  length-remove-le k ((i, w) ∷ d) = ground (arith, length-remove-le k d)

  pub length-remove-lt :
      (k : K) (v : V) (d : Dict K V) → get k d ≡ some v → length (remove k d) + 1 ≤ length d
  unfolding get remove
  length-remove-lt k v [] h = cc
  length-remove-lt k v ((i, w) ∷ d) h = ground (arith, length-remove-lt k v d, length-remove-le k d)

  -- `sum(f(v) for v in d.values())`
  unfoldable pub total : (V → ℕ) → Dict K V → ℕ
  total f [] = 0
  total f ((i, w) ∷ d) = f w + total f d

  pub total-put-le :
      (f : V → ℕ) (k : K) (v : V) (d : Dict K V) → total f (put k v d) ≤ total f d + f v
  unfolding put total
  total-put-le f k v [] = omega arith
  total-put-le f k v ((i, w) ∷ d) = ground (arith, total-put-le f k v d)

  pub total-remove-le : (f : V → ℕ) (k : K) (d : Dict K V) → total f (remove k d) ≤ total f d
  unfolding remove total
  total-remove-le f k [] = omega arith
  total-remove-le f k ((i, w) ∷ d) = ground (arith, total-remove-le f k d)

  -- how many keys pass a test
  unfoldable pub count_keys : (K → Bool) → Dict K V → ℕ
  count_keys p [] = 0
  count_keys p ((i, w) ∷ d) = (if p i then 1 else 0) + count_keys p d

  pub count_keys-put :
      (p : K → Bool) (k : K) (v : V) (d : Dict K V)
      → get k d ≡ none
      → count_keys p (put k v d) ≡ count_keys p d + (if p k then 1 else 0)
  unfolding put get count_keys
  count_keys-put p k v [] h = omega arith
  count_keys-put p k v ((i, w) ∷ d) h = ground (arith, count_keys-put p k v d)

  pub count_keys-remove-le :
      (p : K → Bool) (k : K) (d : Dict K V) → count_keys p (remove k d) ≤ count_keys p d
  unfolding remove count_keys
  count_keys-remove-le p k [] = omega arith
  count_keys-remove-le p k ((i, w) ∷ d) = ground (arith, count_keys-remove-le p k d)

  -- the same value under every key that is there: a put over a key changes no key
  pub count_keys-put_same :
      (p : K → Bool) (k : K) (v w : V) (d : Dict K V)
      → get k d ≡ some w
      → count_keys p (put k v d) ≡ count_keys p d
  unfolding put get count_keys
  count_keys-put_same p k v w [] h = cc
  count_keys-put_same p k v w ((i, x) ∷ d) h = ground (arith, count_keys-put_same p k v w d)

  -- No key stands twice.
  abbrev pub Distinct : Dict K V → Type κ
  Distinct [] = Unit
  Distinct ((k, v) ∷ d) = (get k d ≡ none) × Distinct d

  pub put-Distinct : (k : K) (v : V) (d : Dict K V) → Distinct d → Distinct (put k v d)
  unfolding put get
  put-Distinct k v [] u = (refl, tt)
  put-Distinct k v ((i, w) ∷ d) u =
      ground (
        arith,
        u.0,
        u.1,
        e.equals_iff i k,
        e.equals_iff k i,
        get-put k i v d,
        put-Distinct k v d u.1,
      )

  pub remove-Distinct : (k : K) (d : Dict K V) → Distinct d → Distinct (remove k d)
  unfolding remove get
  remove-Distinct k [] u = tt
  remove-Distinct k ((i, w) ∷ d) u = ground (
    arith,
    u.0,
    u.1,
    e.equals_iff i k,
    e.equals_iff k i,
    get-remove k i d,
    remove-Distinct k d u.1,
  )

  pub get-append :
      (k : K) (d d' : Dict K V)
      → get k (d ++ d') ≡ (elim (get k d) [ none ↦ get k d' | some v ↦ some v ])
  unfolding get
  get-append k [] d' = refl
  get-append k ((j, w) ∷ d) d' = ground (arith, get-append k d d')

  -- a new key goes to the end
  pub put_new : (k : K) (v : V) (d : Dict K V) → get k d ≡ none → put k v d ≡ d ++ (k, v) ∷ []
  unfolding get put
  put_new k v [] h = refl
  put_new k v ((j, w) ∷ d) h = ground (arith, put_new k v d)

  pub Distinct-append :
      (d : Dict K V) (k : K) (v : V) (d' : Dict K V) → Distinct (d ++ (k, v) ∷ d') → get k d ≡ none
  unfolding get
  Distinct-append [] k v d' u = refl
  Distinct-append ((j, w) ∷ d) k v d' u = ground (
    arith,
    u.0,
    get-append j d ((k, v) ∷ d'),
    Distinct-append d k v d' u.1,
    e.equals_iff j k,
    e.equals_iff k k,
    e.equals_iff k j,
  )

  -- `for k, v in d.items(): acc[k] = v`
  unfoldable pub put_all : Dict K V → Dict K V → Dict K V
  put_all acc [] = acc
  put_all acc ((k, v) ∷ d) = put_all (put k v acc) d

  pub put_all_append : (acc d : Dict K V) → Distinct (acc ++ d) → put_all acc d ≡ acc ++ d
  unfolding put_all
  put_all_append acc [] u = sym (append-nil acc)
  put_all_append acc ((k, v) ∷ d) u = rw (put_new k v acc (Distinct-append acc k v d u)) (
      put_all_append (acc ++ (k, v) ∷ []) d (rw (append_assoc acc ((k, v) ∷ []) d) u)
      ∙ append_assoc acc ((k, v) ∷ []) d)
