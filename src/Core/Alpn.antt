-- ===== src/Core/Alpn.antt =====
-- The ALPN tokens of `Link.__init__` in core/voidz_core/state.py.
pub mod Stable
use voidz.Prelude.{
  ℕ, ◌≡◌, ◌≤◌, Bool, true, false, not, ◌&&◌, List, [], ◌∷◌, take, eqb, ◌==◌, if◌then◌else◌, nat_eq,
  list_eq,
}
use voidz.Relay.Bytes.{Text, join}

-- "http/1.1"
abbrev pub http11 : Text
http11 = 104 ∷ 116 ∷ 116 ∷ 112 ∷ 47 ∷ 49 ∷ 46 ∷ 49 ∷ []

-- "h2"
abbrev pub h2 : Text
h2 = 104 ∷ 50 ∷ []

-- What `str.strip` and `str.lower` say of characters and texts.
pub record Str : Type 0 where
  pub is_space : ℕ → Bool
  pub lower : Text → Text
  pub visible : (c : ℕ) → 33 ≤ c → c ≤ 126 → is_space c ≡ false
  pub lower-http11 : lower http11 ≡ http11

-- `s.split(",")`: the first part, and the parts behind the commas
unfoldable pub split_from : Text → Text × List Text
split_from [] = ([], [])
split_from (c ∷ cs) =
    let (first, others) = split_from cs in
    if eqb c 44 then ([], first ∷ others) else (c ∷ first, others)

module _ (s : Str) where
  unfoldable pub lstrip : Text → Text
  lstrip [] = []
  lstrip (c ∷ cs) = let rest = lstrip cs in if s.is_space c then rest else c ∷ cs

  unfoldable pub rstrip : Text → Text
  rstrip [] = []
  rstrip (c ∷ cs) = let rest = rstrip cs in if rest == [] && s.is_space c then [] else c ∷ rest

  unfoldable pub strip : Text → Text
  strip t = rstrip (lstrip t)

  -- `t and t.lower() != "h2"` of a stripped part
  unfoldable pub is_kept : Text → Bool
  is_kept t = not (t == []) && not (s.lower t == h2)

  -- The list comprehension over the parts.
  unfoldable pub kept : List Text → List Text
  kept [] = []
  kept (part ∷ parts) =
      let rest = kept parts in if is_kept (strip part) then strip part ∷ rest else rest

  unfoldable pub tokens : Text → List Text
  tokens alpn = let (first, others) = split_from alpn in kept (first ∷ others)

  unfoldable pub joined : List Text → Text
  joined [] = http11
  joined (t ∷ ts) = take 60 (join 44 (t ∷ ts))

  unfoldable pub alpn_of : Text → Text
  alpn_of alpn = joined (tokens alpn)
