-- ===== src/Core/Alpn/Stable.antt =====
-- The ALPN of a link is its own ALPN (core/voidz_core/state.py).
use voidz.Prelude.{
  ℕ, zero, suc, ◌≤◌, ◌≡◌, refl, ap, Bool, true, false, not, List, [], ◌∷◌, ◌++◌, take, length, eqb,
  nat_eq, list_eq, list_beq, All, arith, Bool-cases, inl, inr,
}
use voidz.Relay.Bytes.{Text, join}
use voidz.Core.Alpn.{
  Str, http11, split_from, lstrip, rstrip, strip, is_kept, kept, tokens, joined, alpn_of,
}

abbrev NoComma : Text → Type 0
NoComma = All (λ c. eqb c 44 ≡ false)

-- Splitting a text without commas in front of a comma, or of the end.
split_from-text : (t : Text) → NoComma t → split_from t ≡ (t, [])
unfolding split_from
split_from-text [] h = refl
split_from-text (c ∷ cs) h = rw (h.0, split_from-text cs h.1)

split_from-comma :
    (t rest : Text)
    → NoComma t
    → split_from (t ++ 44 ∷ rest) ≡ (t, (split_from rest).0 ∷ (split_from rest).1)
unfolding split_from
split_from-comma [] rest h = refl
split_from-comma (c ∷ cs) rest h = rw (h.0, split_from-comma cs rest h.1)

split_from-join :
    (t : Text) (ts : List Text) → All NoComma (t ∷ ts) → split_from (join 44 (t ∷ ts)) ≡ (t, ts)
unfolding join
split_from-join t [] h = split_from-text t h.0
split_from-join t (u ∷ ts) h =
    rw (split_from-comma t (join 44 (u ∷ ts)) h.0, split_from-join u ts h.1)

split_from-NoComma : (t : Text) → NoComma ((split_from t).0) × All NoComma ((split_from t).1)
unfolding split_from
split_from-NoComma [] = (tt, tt)
split_from-NoComma (c ∷ cs) = ground (arith, split_from-NoComma cs)

take_long : (n : ℕ) (t : Text) → length t ≤ n → take n t ≡ t
take_long zero [] h = refl
take_long zero (c ∷ cs) h = absurd (omega arith)
take_long (suc n) [] h = refl
take_long (suc n) (c ∷ cs) h = ap (◌∷◌ c) (take_long n cs (omega arith))

module _ (s : Str) where
  lstrip-NoComma : (t : Text) → NoComma t → NoComma (lstrip s t)
  unfolding lstrip
  lstrip-NoComma [] h = tt
  lstrip-NoComma (c ∷ cs) h = ground (arith, h, lstrip-NoComma cs h.1)

  rstrip-NoComma : (t : Text) → NoComma t → NoComma (rstrip s t)
  unfolding rstrip
  rstrip-NoComma [] h = tt
  rstrip-NoComma (c ∷ cs) h = ground (arith, h, rstrip-NoComma cs h.1)

  -- a text that `lstrip` leaves
  abbrev starts : Text → Bool
  starts [] = true
  starts (c ∷ cs) = not (s.is_space c)

  lstrip-starts : (t : Text) → starts (lstrip s t) ≡ true
  unfolding lstrip
  lstrip-starts [] = refl
  lstrip-starts (c ∷ cs) = ground (arith, lstrip-starts cs)

  rstrip-starts : (t : Text) → starts t ≡ true → starts (rstrip s t) ≡ true
  unfolding rstrip
  rstrip-starts [] h = refl
  rstrip-starts (c ∷ cs) h = ground (arith, h)

  lstrip_same : (t : Text) → starts t ≡ true → lstrip s t ≡ t
  unfolding lstrip
  lstrip_same [] h = refl
  lstrip_same (c ∷ cs) h = ground (arith, h)

  rstrip-rstrip : (t : Text) → rstrip s (rstrip s t) ≡ rstrip s t
  unfolding rstrip list_beq
  rstrip-rstrip [] = refl
  rstrip-rstrip (c ∷ cs) = ground (arith, rstrip-rstrip cs)

  strip-strip : (t : Text) → strip s (strip s t) ≡ strip s t
  unfolding strip
  strip-strip t =
      rw (lstrip_same (rstrip s (lstrip s t)) (rstrip-starts (lstrip s t) (lstrip-starts t)))
        (rstrip-rstrip (lstrip s t))

  strip-NoComma : (t : Text) → NoComma t → NoComma (strip s t)
  unfolding strip
  strip-NoComma t h = rstrip-NoComma (lstrip s t) (lstrip-NoComma t h)

  -- a token: it is kept as it is, and splits off whole
  abbrev pub IsToken : Text → Type 0
  IsToken t = (is_kept s t ≡ true) × (strip s t ≡ t) × NoComma t

  kept-IsToken : (parts : List Text) → All NoComma parts → All IsToken (kept s parts)
  unfolding kept
  kept-IsToken [] h = tt
  kept-IsToken (part ∷ parts) h = elim (Bool-cases (is_kept s (strip s part))) [
    | inl yes_kept ↦
        rw yes_kept ((yes_kept, strip-strip part, strip-NoComma part h.0), kept-IsToken parts h.1)
    | inr dropped ↦ rw dropped (kept-IsToken parts h.1)
  ]

  kept_same : (ts : List Text) → All IsToken ts → kept s ts ≡ ts
  unfolding kept
  kept_same [] h = refl
  kept_same (t ∷ ts) (h, hs) = rw (h.1, h.0, kept_same ts hs)

  All-NoComma : (ts : List Text) → All IsToken ts → All NoComma ts
  All-NoComma [] h = tt
  All-NoComma (t ∷ ts) h = (h.0.2, All-NoComma ts h.1)

  tokens-IsToken : (alpn : Text) → All IsToken (tokens s alpn)
  unfolding tokens
  tokens-IsToken alpn = kept-IsToken _ (split_from-NoComma alpn)

  tokens-join :
      (t : Text) (ts : List Text) → All IsToken (t ∷ ts) → tokens s (join 44 (t ∷ ts)) ≡ t ∷ ts
  unfolding tokens
  tokens-join t ts h =
      rw (split_from-join t ts (All-NoComma (t ∷ ts) h), tokens) (kept_same (t ∷ ts) h)

  http11-IsToken : IsToken http11
  unfolding is_kept strip lstrip rstrip list_beq
  http11-IsToken = (
    rw s.lower-http11,
    rw (
      s.visible 104 (omega arith) (omega arith),
      s.visible 116 (omega arith) (omega arith),
      s.visible 112 (omega arith) (omega arith),
      s.visible 47 (omega arith) (omega arith),
      s.visible 49 (omega arith) (omega arith),
      lstrip,
      rstrip,
      strip,
    ),
    ground arith,
  )

  joined-tokens :
      (ts : List Text)
      → All IsToken ts
      → length (join 44 ts) ≤ 60
      → alpn_of s (joined s ts) ≡ joined s ts
  unfolding joined alpn_of join
  joined-tokens [] h short = ap (joined s) (tokens-join http11 [] (http11-IsToken, tt))
  joined-tokens (t ∷ ts) h short =
      let whole : take 60 (join 44 (t ∷ ts)) ≡ join 44 (t ∷ ts) =
        take_long 60 (join 44 (t ∷ ts)) short in
      rw (whole, tokens-join t ts h) whole

-- Where the tokens that an ALPN text keeps are at most 60 characters when joined, the ALPN of a
-- link is read back as itself.
pub alpn_of-alpn_of :
    (s : Str) (alpn : Text)
    → length (join 44 (tokens s alpn)) ≤ 60
    → alpn_of s (alpn_of s alpn) ≡ alpn_of s alpn
unfolding alpn_of
alpn_of-alpn_of s alpn short = joined-tokens s (tokens s alpn) (tokens-IsToken s alpn) short
