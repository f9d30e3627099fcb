-- ===== src/Console/RateLimit/Windows.antt =====
-- The window of a key: in order, and what a check drops from it
-- (console/api/voidz_console/security/ratelimit.py).
use voidz.Prelude.{
  ℕ, ◌+◌, ◌≤◌, ◌<◌, ◌≡◌, refl, Bool, List, [], ◌∷◌, ◌++◌, length, ltb, if◌then◌else◌, string_eq,
  count_if, arith, All,
}
use voidz.Console.RateLimit.{Rule, drop_old}

module _ (rule : Rule) where
  -- an accepted hit that is younger than the window at a time
  unfoldable pub recent : ℕ → ℕ → Bool
  recent now h = ltb now (h + rule.window_ms)

  abbrev pub Sorted : List ℕ → Type 0
  Sorted [] = Unit
  Sorted (h ∷ hs) = All (λ k. h ≤ k) hs × Sorted hs

  -- Hits that are dropped are old, now and later.
  pub count-drop_old :
      (now t : ℕ) (hs : List ℕ)
      → now ≤ t
      → count_if (recent t) (drop_old rule now hs) ≡ count_if (recent t) hs
  unfolding drop_old count_if recent
  count-drop_old now t [] late = refl
  count-drop_old now t (h ∷ hs) late = ground (arith, count-drop_old now t hs late)

  pub count-append :
      (t h : ℕ) (hs : List ℕ)
      → count_if (recent t) (hs ++ h ∷ []) ≡ count_if (recent t) hs + (if recent t h then 1 else 0)
  unfolding count_if
  count-append t h [] = ground arith
  count-append t h (k ∷ hs) = ground (arith, count-append t h hs)

  All-recent :
      (now h : ℕ) (hs : List ℕ)
      → All (λ k. h ≤ k) hs
      → now < h + rule.window_ms
      → count_if (recent now) hs ≡ length hs
  unfolding count_if recent
  All-recent now h [] u young = refl
  All-recent now h (k ∷ hs) u young = ground (arith, u.0, All-recent now h hs u.1 young)

  -- What is left of a sorted window is young.
  pub length-drop_old :
      (now : ℕ) (hs : List ℕ) → Sorted hs → length (drop_old rule now hs) ≡ count_if (recent now) hs
  unfolding drop_old count_if recent
  length-drop_old now [] u = refl
  length-drop_old now (h ∷ hs) u =
      ground (arith, length-drop_old now hs u.1, All-recent now h hs u.0)

  pub drop_old-All :
      (P : ℕ → Type 0) (now : ℕ) (hs : List ℕ) → All P hs → All P (drop_old rule now hs)
  unfolding drop_old
  drop_old-All P now [] u = tt
  drop_old-All P now (h ∷ hs) u = ground (arith, u, drop_old-All P now hs u.1)

  pub drop_old-Sorted : (now : ℕ) (hs : List ℕ) → Sorted hs → Sorted (drop_old rule now hs)
  unfolding drop_old
  drop_old-Sorted now [] u = tt
  drop_old-Sorted now (h ∷ hs) u = ground (arith, u, drop_old-Sorted now hs u.1)

  pub append-All : (P : ℕ → Type 0) (t : ℕ) (hs : List ℕ) → All P hs → P t → All P (hs ++ t ∷ [])
  append-All P t [] u p = (p, tt)
  append-All P t (h ∷ hs) u p = (u.0, append-All P t hs u.1 p)

  pub All-mono : (P Q : ℕ → Type 0) (hs : List ℕ) → ((k : ℕ) → P k → Q k) → All P hs → All Q hs
  All-mono P Q [] f u = tt
  All-mono P Q (h ∷ hs) f u = (f h u.0, All-mono P Q hs f u.1)

  pub append-Sorted :
      (t : ℕ) (hs : List ℕ) → All (λ k. k ≤ t) hs → Sorted hs → Sorted (hs ++ t ∷ [])
  append-Sorted t [] u s = (tt, tt)
  append-Sorted t (h ∷ hs) u s = (append-All (λ k. h ≤ k) t hs s.0 u.0, append-Sorted t hs u.1 s.1)
