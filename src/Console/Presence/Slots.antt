-- ===== src/Console/Presence/Slots.antt =====
-- The addresses in a lock arrived before the others
-- (console/api/voidz_console/services/quota.py).
use voidz.Prelude.{
  ℕ, zero, suc, ◌≤◌, ◌<◌, ◌≡◌, refl, sym, ap, ◌∙◌, String, Bool, true, false, List, [], ◌∷◌, none,
  some, map, keep, length, length-map, take, drop, le→leb, contains, if◌then◌else◌, ◌==◌, ==_iff,
  string_eq, All, arith, length-take, take-append-drop, Bool-cases, Option-cases, inl, inr,
}
use voidz.Prelude.Dict
use voidz.Prelude.Dict.{Dict, Distinct, get-append}
use voidz.Prelude.Sorting.{place_text, sorted}
use voidz.Console.Presence.{Seen, Presence, is_confirmed, place, by_arrival, holders, desired_lock}
use voidz.Console.Presence.Arrivals.{get-by_arrival, by_arrival-IsOrdered, IsOrdered}

get-keep :
    (p : String × Seen → Bool) (j : String) (d : Presence)
    → Distinct d
    → Dict.get j (keep p d)
      ≡ (elim (Dict.get j d) [ none ↦ none | some seen ↦ if p (j, seen) then some seen else none ])
unfolding keep Dict.get
get-keep p j [] u = refl
get-keep p j ((k, s) ∷ d) u = elim (Bool-cases (k == j)) [
  | inl same ↦ ground (arith, ==_iff k j, same, u.0, get-keep p j d u.1)
  | inr other ↦ ground (arith, other, get-keep p j d u.1)
]

keep-Distinct : (p : String × Seen → Bool) (d : Presence) → Distinct d → Distinct (keep p d)
unfolding keep
keep-Distinct p [] u = tt
keep-Distinct p ((k, s) ∷ d) u = ground (arith, u.0, get-keep p k d u.1, keep-Distinct p d u.1)

get-All :
    (m n : ℕ) (rows : Presence) (b : String) (seen : Seen)
    → All (λ other. m ≤ other.1.first) rows
    → Dict.get b (drop n rows) ≡ some seen
    → m ≤ seen.first
unfolding Dict.get
get-All m zero [] b seen h found = cc
get-All m zero ((k, s) ∷ rows) b seen h found =
    ground (arith, h.0, found, get-All m 0 rows b seen h.1)
get-All m (suc n) [] b seen h found = cc
get-All m (suc n) ((k, s) ∷ rows) b seen h found = get-All m n rows b seen h.1 found

take-before-drop :
    (n : ℕ) (rows : Presence) (a b : String) (first later : Seen)
    → IsOrdered rows
    → Dict.get a (take n rows) ≡ some first
    → Dict.get b (drop n rows) ≡ some later
    → first.first ≤ later.first
unfolding Dict.get
take-before-drop zero rows a b first later o found_a found_b = cc
take-before-drop (suc n) [] a b first later o found_a found_b = cc
take-before-drop (suc n) ((k, s) ∷ rows) a b first later o found_a found_b = ground (
  arith,
  found_a,
  get-All s.first n rows b later o.0 found_b,
  take-before-drop n rows a b first later o.1,
)

contains-names :
    (rows : Presence) (j : String)
    → contains (map (λ (row : String × Seen). row.0) rows) j
      ≡ (elim (Dict.get j rows) [ none ↦ false | some seen ↦ true ])
unfolding contains Dict.get
contains-names [] j = refl
contains-names ((k, s) ∷ rows) j = ground (arith, contains-names rows j)

contains-place_text :
    (x : String) (ys : List String) (j : String)
    → contains (place_text x ys) j ≡ contains (x ∷ ys) j
unfolding place_text contains
contains-place_text x [] j = refl
contains-place_text x (y ∷ ys) j = ground (arith, contains-place_text x ys j)

contains-sorted : (xs : List String) (j : String) → contains (sorted xs) j ≡ contains xs j
unfolding sorted contains
contains-sorted [] j = refl
contains-sorted (x ∷ xs) j =
    contains-place_text x (sorted xs) j ∙ rw (contains-sorted xs j, contains)

length-place_text : (x : String) (ys : List String) → length (place_text x ys) ≡ suc (length ys)
unfolding place_text
length-place_text x [] = refl
length-place_text x (y ∷ ys) = ground (arith, length-place_text x ys)

length-sorted : (xs : List String) → length (sorted xs) ≡ length xs
unfolding sorted
length-sorted [] = refl
length-sorted (x ∷ xs) = length-place_text x (sorted xs) ∙ ap suc (length-sorted xs)

contains-lock :
    (cap now : ℕ) (presence : Presence) (j : String)
    → cap ≤ length (holders now presence)
    → contains (desired_lock cap now presence) j
      ≡ (elim (Dict.get j (take cap (holders now presence))) [ none ↦ false | some seen ↦ true ])
unfolding desired_lock
contains-lock cap now presence j enough = rw (le→leb cap (length (holders now presence)) enough) (
    contains-sorted (map (λ (row : String × Seen). row.0) (take cap (holders now presence))) j
    ∙ contains-names (take cap (holders now presence)) j)

-- a lock that lists an address is not the empty one
lock-enough :
    (cap now : ℕ) (presence : Presence) (a : String)
    → contains (desired_lock cap now presence) a ≡ true
    → cap ≤ length (holders now presence)
unfolding desired_lock contains
lock-enough cap now presence a listed = ground (arith, listed)

length-lock :
    (cap now : ℕ) (presence : Presence)
    → cap ≤ length (holders now presence)
    → length (desired_lock cap now presence) ≡ cap
unfolding desired_lock
length-lock cap now presence enough = rw (le→leb cap (length (holders now presence)) enough) (
    length-sorted (map (λ (row : String × Seen). row.0) (take cap (holders now presence)))
    ∙ (length-map (λ (row : String × Seen). row.0) (take cap (holders now presence))
        ∙ (length-take cap (holders now presence) ∙ omega (arith, enough))))

-- who holds a slot: the confirmed addresses
get-holders :
    (now : ℕ) (presence : Presence) (j : String)
    → Distinct presence
    → Dict.get j (holders now presence) ≡ (elim (Dict.get j presence) [
      | none ↦ none
      | some seen ↦ if is_confirmed now (j, seen) then some seen else none
    ])
unfolding holders
get-holders now presence j u =
    get-by_arrival j (keep (is_confirmed now) presence)
      (keep-Distinct (is_confirmed now) presence u)
    ∙ get-keep (is_confirmed now) j presence u

confirmed_holder :
    (now : ℕ) (presence : Presence) (a : String) (seen : Seen)
    → Distinct presence
    → Dict.get a (holders now presence) ≡ some seen
    → (Dict.get a presence ≡ some seen) × (is_confirmed now (a, seen) ≡ true)
confirmed_holder now presence a seen u held = ground (arith, get-holders now presence a u, held)

holders-IsOrdered : (now : ℕ) (presence : Presence) → IsOrdered (holders now presence)
unfolding holders
holders-IsOrdered now presence = by_arrival-IsOrdered (keep (is_confirmed now) presence)

get-split :
    (n : ℕ) (rows : Presence) (j : String)
    → Dict.get j rows ≡ (elim (Dict.get j (take n rows)) [
      | none ↦ Dict.get j (drop n rows)
      | some seen ↦ some seen
    ])
get-split n rows j =
    ap (Dict.get j) (sym (take-append-drop n rows)) ∙ get-append j (take n rows) (drop n rows)

length-place : (row : String × Seen) (rows : Presence) → length (place row rows) ≡ suc (length rows)
unfolding place
length-place row [] = refl
length-place row (other ∷ rows) = ground (arith, length-place row rows)

length-by_arrival : (rows : Presence) → length (by_arrival rows) ≡ length rows
unfolding by_arrival
length-by_arrival [] = refl
length-by_arrival (row ∷ rows) =
    length-place row (by_arrival rows) ∙ ap suc (length-by_arrival rows)

length-holders :
    (now : ℕ) (presence : Presence)
    → length (holders now presence) ≡ length (keep (is_confirmed now) presence)
unfolding holders
length-holders now presence = length-by_arrival (keep (is_confirmed now) presence)

no_lock :
    (cap now : ℕ) (presence : Presence)
    → length (holders now presence) < cap
    → desired_lock cap now presence ≡ []
unfolding desired_lock
no_lock cap now presence few = ground (arith, few)

-- An address in a lock is one of the first holders.
listed_holder :
    (cap now : ℕ) (presence : Presence) (a : String)
    → contains (desired_lock cap now presence) a ≡ true
    → (seen : Seen) × (Dict.get a (take cap (holders now presence)) ≡ some seen)
listed_holder cap now presence a listed =
    let of_a = contains-lock cap now presence a (lock-enough cap now presence a listed) in
    elim (Option-cases (Dict.get a (take cap (holders now presence)))) [
      | inl absent ↦ ground (arith, of_a, absent, listed)
      | inr found ↦ found
    ]

listed_before :
    (cap now : ℕ) (presence : Presence) (a b : String) (seen other : Seen)
    → Distinct presence
    → cap ≤ length (holders now presence)
    → Dict.get a (take cap (holders now presence)) ≡ some seen
    → Dict.get b presence ≡ some other
    → is_confirmed now (b, other) ≡ true
    → contains (desired_lock cap now presence) b ≡ false
    → seen.first ≤ other.first
listed_before cap now presence a b seen other u enough before there confirmed unlisted =
    let held = holders now presence in
    let of_b = contains-lock cap now presence b enough in
    let held_b : Dict.get b held ≡ some other =
      get-holders now presence b u ∙ rw (there, confirmed) in
    let after_b : Dict.get b (drop cap held) ≡ some other =
      ground (arith, of_b, unlisted, get-split cap held b, held_b) in
    take-before-drop cap held a b seen other (holders-IsOrdered now presence) before after_b

-- If at least as many addresses are confirmed as the cap allows, the lock has exactly as many
-- addresses as the cap; if fewer are, there is no lock. Each address of a lock has held its slot
-- for the time of confirmation, and arrived no later than any confirmed address that is not in the
-- lock.
pub earliest_hold :
    (cap now : ℕ) (presence : Presence)
    → Distinct presence
    → (cap ≤ length (keep (is_confirmed now) presence)
        → length (desired_lock cap now presence) ≡ cap)
      × (length (keep (is_confirmed now) presence) < cap → desired_lock cap now presence ≡ [])
      × ((a : String)
          → contains (desired_lock cap now presence) a ≡ true
          → (seen : Seen) × (Dict.get a presence ≡ some seen)
            × (is_confirmed now (a, seen) ≡ true)
            × ((b : String) (other : Seen)
                → Dict.get b presence ≡ some other
                → is_confirmed now (b, other) ≡ true
                → contains (desired_lock cap now presence) b ≡ false
                → seen.first ≤ other.first))
earliest_hold cap now presence u =
    let same = length-holders now presence in
    (
      λ full. length-lock cap now presence (omega (arith, same, full)),
      λ few. no_lock cap now presence (omega (arith, same, few)),
      λ a listed.
          let (seen, before) = listed_holder cap now presence a listed in
          let held_a : Dict.get a (holders now presence) ≡ some seen =
            get-split cap (holders now presence) a ∙ rw before in
          let (found, held_long) = confirmed_holder now presence a seen u held_a in
          (
            seen,
            found,
            held_long,
            λ b other there confirmed unlisted.
                listed_before cap now presence a b seen other u
                  (lock-enough cap now presence a listed) before there confirmed unlisted,
          ),
    )
