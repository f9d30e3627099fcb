-- ===== src/Console/RateLimit/Sliding.antt =====
-- The limiter against one that forgets nothing
-- (console/api/voidz_console/security/ratelimit.py).
use voidz.Prelude.{
  ℕ, ◌≤◌, ◌<◌, ◌≡◌, refl, sym, ◌∙◌, String, true, false, List, [], ◌∷◌, ◌++◌, length, ltb, leb,
  if◌then◌else◌, string_eq, ◌≢◌, ◌==◌, ==_iff, count_if, ◌&&◌, arith, All, Bool-cases, leb→le,
  lt→ltb, ltb→lt, ltb-false, ◌⊎◌, inl, inr,
}
use mathlib.Core.Path.{subst}
use voidz.Prelude.Dict.{get, put, get-put}
use voidz.Console.RateLimit.{
  Rule, is_allowed, Served, start, checked, Hits, window_of, drop_old, refuse, check,
}
use voidz.Console.RateLimit.Windows.{
  recent, Sorted, count-drop_old, count-append, length-drop_old, drop_old-All, drop_old-Sorted,
  append-All, All-mono, append-Sorted,
}

module _ (rule : Rule) where
  -- the accepted requests of a key in the window that ends at a time, by what is kept of all
  unfoldable pub count_recent : ℕ → String → List (String × ℕ) → ℕ
  count_recent t key log = count_if (λ a. a.0 == key && recent rule t a.1) log

  -- the accepted requests of a key in any window, whenever it ended
  unfoldable pub count_within : ℕ → String → List (String × ℕ) → ℕ
  count_within t key log = count_if (λ a. a.0 == key && leb a.1 t && recent rule t a.1) log

  -- A window agrees with the log: in order, not ahead of the clock, the same count from now on.
  abbrev Agrees : String → List (String × ℕ) → ℕ → List ℕ → Type 0
  Agrees key log last window =
      Sorted rule window
      × All (λ k. k ≤ last) window
      × ((t : ℕ) → last ≤ t → count_if (recent rule t) window ≡ count_recent t key log)

  drop_old-Agrees :
      (key : String) (log : List (String × ℕ)) (last now : ℕ) (window : List ℕ)
      → last ≤ now
      → Agrees key log last window
      → Agrees key log now (drop_old rule now window)
  drop_old-Agrees key log last now window late a = (
    drop_old-Sorted rule now window a.0,
    drop_old-All rule (λ k. k ≤ now) now window
        (All-mono rule (λ k. k ≤ last) (λ k. k ≤ now) window (λ k h. omega arith) a.1),
    λ t h. count-drop_old rule now t window h ∙ a.2 t (omega arith),
  )

  accept-Agrees :
      (key : String) (log : List (String × ℕ)) (now : ℕ) (window : List ℕ)
      → Agrees key log now window
      → Agrees key ((key, now) ∷ log) now (window ++ now ∷ [])
  unfolding count_recent count_if
  accept-Agrees key log now window a = (
    append-Sorted rule now window a.1 a.0,
    append-All rule (λ k. k ≤ now) now window a.1 (omega arith),
    λ t h. ground (arith, count-append rule t now window, a.2 t h, ==_iff key key),
  )

  other-Agrees :
      (key j : String) (log : List (String × ℕ)) (last now : ℕ) (window : List ℕ)
      → key ≢ j
      → last ≤ now
      → Agrees j log last window
      → Agrees j log now window × Agrees j ((key, now) ∷ log) now window
  unfolding count_recent count_if
  other-Agrees key j log last now window apart late a =
      let older = All-mono rule (λ k. k ≤ last) (λ k. k ≤ now) window (λ k h. omega arith) a.1 in
      (
        (a.0, older, λ t h. a.2 t (omega arith)),
        (a.0, older, λ t h. ground (arith, a.2 t (omega arith), ==_iff key j)),
      )

  apart_of : (key j : String) → (key == j) ≡ false → key ≢ j
  apart_of key j h e = ground (arith, ==_iff key j, e)

  window_of-put :
      (key j : String) (window : List ℕ) (hits : Hits)
      → window_of j (put key window hits) ≡ (if key == j then window else window_of j hits)
  unfolding window_of
  window_of-put key j window hits = ground (arith, get-put key j window hits)

  refuse-not_allowed : (now : ℕ) (window : List ℕ) → is_allowed (refuse rule now window) ≡ false
  unfolding refuse is_allowed
  refuse-not_allowed now [] = refl
  refuse-not_allowed now (h ∷ hs) = refl

  -- A check refuses with the young hits kept, or adds one to them.
  check-cases :
      (key : String) (now : ℕ) (hits : Hits)
      → (let window = drop_old rule now (window_of key hits) in
          let (verdict, hits') = check key rule now hits in
          ((is_allowed verdict ≡ false)
            × (rule.limit ≤ length window)
            × (hits' ≡ put key window hits))
          ⊎ ((is_allowed verdict ≡ true)
              × (length window < rule.limit)
              × (hits' ≡ put key (window ++ now ∷ []) hits)))
  unfolding check is_allowed
  check-cases key now hits =
      let window = drop_old rule now (window_of key hits) in
      elim (Bool-cases (leb rule.limit (length window))) [
        | inl full ↦ inl (
          rw (full, check) (refuse-not_allowed now window),
          leb→le rule.limit (length window) full,
          rw (full, check),
        )
        | inr free ↦ inr (rw (free, check), ground (arith, free), rw (free, check))
      ]

  -- After a check, every key's window agrees with the log.
  check-Agrees :
      (key : String) (now : ℕ) (hits : Hits) (log : List (String × ℕ)) (last : ℕ)
      → last ≤ now
      → ((j : String) → Agrees j log last (window_of j hits))
      → (j : String)
      → Agrees j
          (if is_allowed ((check key rule now hits).0) then (key, now) ∷ log else log)
          now
          (window_of j ((check key rule now hits).1))
  check-Agrees key now hits log last late old j =
      let window = drop_old rule now (window_of key hits) in
      let young = drop_old-Agrees key log last now (window_of key hits) late (old key) in
      elim (check-cases key now hits) [
        | inl (v, full, e) ↦
            rw (v, e, window_of-put key j window hits)
              (elim (Bool-cases (key == j)) [
                | inl k ↦
                    rw k
                      (subst (λ (i : String). Agrees i log now window) ((==_iff key j).0 k) young)
                | inr k ↦ rw k (
                    (other-Agrees key j log last now (window_of j hits) (apart_of key j k) late
                      (old j)).0)
              ])
        | inr (v, free, e) ↦
            rw (v, e, window_of-put key j (window ++ now ∷ []) hits)
              (elim (Bool-cases (key == j)) [
                | inl k ↦ rw k (
                    subst (λ (i : String). Agrees i ((key, now) ∷ log) now (window ++ now ∷ []))
                      ((==_iff key j).0 k) (accept-Agrees key log now window young))
                | inr k ↦ rw k (
                    (other-Agrees key j log last now (window_of j hits) (apart_of key j k) late
                      (old j)).1)
              ])
      ]

  Served-Agrees :
      {hits : Hits} {log : List (String × ℕ)} {last : ℕ} (s : Served rule hits log last)
      (j : String)
      → Agrees j log last (window_of j hits)
  unfolding window_of count_if count_recent get
  Served-Agrees start j = (tt, tt, λ t h. refl)
  Served-Agrees (checked {hits} {log} {last} key now late s) j =
      check-Agrees key now hits log last late (Served-Agrees s) j

  -- The verdict, where the window agrees.
  is_allowed-check :
      (key : String) (now : ℕ) (hits : Hits) (log : List (String × ℕ)) (last : ℕ)
      → last ≤ now
      → Agrees key log last (window_of key hits)
      → is_allowed ((check key rule now hits).0) ≡ ltb (count_recent now key log) rule.limit
  is_allowed-check key now hits log last late a =
      let size = length-drop_old rule now (window_of key hits) a.0 in
      let same = a.2 now late in
      elim (check-cases key now hits) [
        | inl (v, full, e) ↦
            v ∙ sym (ltb-false (count_recent now key log) rule.limit (omega (arith, size, same)))
        | inr (v, free, e) ↦
            v ∙ sym (lt→ltb (count_recent now key log) rule.limit (omega (arith, size, same)))
      ]

  -- the requests of any window, where the last one is allowed
  count_within-le :
      (t : ℕ) (key : String) (now : ℕ) (log : List (String × ℕ))
      → now ≤ t
      → count_within t key log ≤ count_recent now key log
  unfolding count_within count_recent count_if recent
  count_within-le t key now [] h = omega arith
  count_within-le t key now (a ∷ log) h = ground (arith, count_within-le t key now log h)

  count_within-add :
      (t : ℕ) (key j : String) (now : ℕ) (log : List (String × ℕ))
      → count_within t j log ≤ rule.limit
      → count_recent now key log < rule.limit
      → count_within t j ((key, now) ∷ log) ≤ rule.limit
  unfolding count_within count_if
  count_within-add t key j now log old free = elim (Bool-cases (key == j)) [
    | inl k ↦
        let few =
          subst (λ (i : String). count_recent now i log < rule.limit) ((==_iff key j).0 k) free in
        ground (arith, k, few, old, count_within-le t j now log)
    | inr k ↦ ground (arith, k, old)
  ]

-- On a clock that does not go back, a request is allowed exactly if fewer than `limit` requests
-- of its key were allowed in the window before it.
pub check_exact :
    (rule : Rule) (hits : Hits) (log : List (String × ℕ)) (last : ℕ)
    → Served rule hits log last
    → (key : String) (now : ℕ) → last ≤ now
    → is_allowed ((check key rule now hits).0) ≡ ltb (count_recent rule now key log) rule.limit
check_exact rule hits log last s key now late =
    is_allowed-check rule key now hits log last late (Served-Agrees rule s key)

-- On a clock that does not go back, no key has more than `limit` allowed requests in any
-- window of the rule's length.
pub Served-within :
    (rule : Rule) (hits : Hits) (log : List (String × ℕ)) (last : ℕ)
    → Served rule hits log last
    → (t : ℕ) (key : String) → count_within rule t key log ≤ rule.limit
unfolding count_within count_if
Served-within rule hits log last start t key = omega arith
Served-within rule hits log last (checked {hits = hits'} {log = log'} {last = last'} key now late s)
      t j =
    let before = Served-within rule hits' log' last' s t j in
    let exact = check_exact rule hits' log' last' s key now late in
    elim (Bool-cases (is_allowed ((check key rule now hits').0))) [
      | inl v ↦ rw v (
          count_within-add rule t key j now log' before
            (ltb→lt (count_recent rule now key log') rule.limit (sym exact ∙ v)))
      | inr v ↦ rw v before
    ]
