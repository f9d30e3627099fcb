-- ===== src/Console/Presence/Arrivals.antt =====
-- Who gets the slots: the addresses that arrived first
-- (console/api/voidz_console/services/quota.py).
use voidz.Prelude.{
  ℕ, ◌≤◌, ◌≡◌, refl, ◌∙◌, String, [], ◌∷◌, none, some, if◌then◌else◌, ◌==◌, ==_iff, string_eq, All,
  arith,
}
use voidz.Prelude.Dict
use voidz.Prelude.Dict.{Dict, Distinct, get-append}
use voidz.Console.Presence.{Seen, Presence, place, by_arrival}

get-place :
    (k j : String) (seen : Seen) (rows : Presence)
    → Dict.get k rows ≡ none
    → Dict.get j (place (k, seen) rows) ≡ (if k == j then some seen else Dict.get j rows)
unfolding place Dict.get
get-place k j seen [] new = refl
get-place k j seen ((i, s) ∷ rows) new =
    ground (arith, new, get-place k j seen rows, ==_iff i j, ==_iff k j, ==_iff i k)

place-Distinct :
    (k : String) (seen : Seen) (rows : Presence)
    → Dict.get k rows ≡ none
    → Distinct rows
    → Distinct (place (k, seen) rows)
unfolding place Dict.get
place-Distinct k seen [] new u = (refl, tt)
place-Distinct k seen ((i, s) ∷ rows) new u = ground (
  arith,
  new,
  u.0,
  u.1,
  get-place k i seen rows,
  place-Distinct k seen rows,
  ==_iff i k,
  ==_iff k i,
)

pub get-by_arrival :
    (j : String) (rows : Presence) → Distinct rows → Dict.get j (by_arrival rows) ≡ Dict.get j rows
unfolding by_arrival Dict.get
get-by_arrival j [] u = refl
get-by_arrival j ((k, seen) ∷ rows) u = ground (
  arith,
  get-place k j seen (by_arrival rows),
  get-by_arrival k rows u.1,
  get-by_arrival j rows u.1,
  u.0,
)

by_arrival-Distinct : (rows : Presence) → Distinct rows → Distinct (by_arrival rows)
unfolding by_arrival
by_arrival-Distinct [] u = tt
by_arrival-Distinct ((k, seen) ∷ rows) u =
    place-Distinct k seen (by_arrival rows) (get-by_arrival k rows u.1 ∙ u.0)
      (by_arrival-Distinct rows u.1)

-- in the order of the arrivals
abbrev pub IsOrdered : Presence → Type 0
IsOrdered [] = Unit
IsOrdered (row ∷ rows) = All (λ other. row.1.first ≤ other.1.first) rows × IsOrdered rows

All-place :
    (n : ℕ) (row : String × Seen) (rows : Presence)
    → n ≤ row.1.first
    → All (λ other. n ≤ other.1.first) rows
    → All (λ other. n ≤ other.1.first) (place row rows)
unfolding place
All-place n row [] h hs = (h, tt)
All-place n row (other ∷ rows) h hs = ground (arith, hs.0, hs.1, All-place n row rows h hs.1)

All-later :
    (m n : ℕ) (rows : Presence)
    → m ≤ n
    → All (λ other. n ≤ other.1.first) rows
    → All (λ other. m ≤ other.1.first) rows
All-later m n [] h hs = tt
All-later m n (row ∷ rows) h hs = (omega (arith, hs.0), All-later m n rows h hs.1)

place-IsOrdered :
    (row : String × Seen) (rows : Presence) → IsOrdered rows → IsOrdered (place row rows)
unfolding place
place-IsOrdered row [] o = (tt, tt)
place-IsOrdered row (other ∷ rows) o = ground (
  arith,
  o.0,
  o.1,
  All-later row.1.first other.1.first rows,
  All-place other.1.first row rows,
  place-IsOrdered row rows o.1,
)

pub by_arrival-IsOrdered : (rows : Presence) → IsOrdered (by_arrival rows)
unfolding by_arrival
by_arrival-IsOrdered [] = tt
by_arrival-IsOrdered (row ∷ rows) =
    place-IsOrdered row (by_arrival rows) (by_arrival-IsOrdered rows)
