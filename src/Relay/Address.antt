-- ===== src/Relay/Address.antt =====
-- The three address forms of the VLESS, Trojan and SOCKS5 headers: the branches on the address
-- type in `parse_vless_header` (core/voidz_core/relay/vless.py), `parse_trojan_request`
-- (trojan.py) and `parse_socks5_addr` (shadowsocks.py) are the same lines up to the checks.
use voidz.Prelude.{
  ℕ, zero, suc, ◌+◌, ◌<◌, ◌≡◌, refl, ap, List, [], ◌∷◌, ◌++◌, map, Option, none, some, arith,
  length, drop, get_elem?, take_prefix, drop_prefix, sym, ◌∙◌,
}
use native.Mathlib.Nat.{add-zero}
use voidz.Prelude.Result.{Result, ok, raise, index_error, at, ◌>>=◌}
use voidz.Relay.Bytes.{Bytes, Text, slice, join, str_byte, hex2, at_offset, drop_offset}

pub data Ip : Type 0 where
  v4 v6 : Bytes → Ip

-- What the headers use of the standard library: `str.encode()`, `bytes.decode("utf-8",
-- errors="ignore")` and `ipaddress.ip_address`, which gives the packed address or raises.
pub record Host : Type 0 where
  pub encode : Text → Bytes
  pub decode : Bytes → Text
  pub ip_address : Text → Option Ip
  pub decode-encode : (t : Text) → decode (encode t) ≡ t
  pub packed4 : (t : Text) (p : Bytes) → ip_address t ≡ some (v4 p) → length p ≡ 4
  pub packed6 : (t : Text) (p : Bytes) → ip_address t ≡ some (v6 p) → length p ≡ 16

-- `".".join(str(b) for b in packed)`
unfoldable pub dotted : Bytes → Text
dotted packed = join 46 (map str_byte packed)

-- the texts `f"{ab[i]:02x}{ab[i + 1]:02x}"` for `i in range(0, 2 * n, 2)`
unfoldable pub groups : ℕ → Bytes → Result (List Text)
groups zero ab = ok []
groups (suc n) [] = raise index_error
groups (suc n) (a ∷ []) = raise index_error
groups (suc n) (a ∷ b ∷ rest) = do gs ← groups n rest; ok ((hex2 a ++ hex2 b) ∷ gs)

unfoldable pub colons : Bytes → Result Text
colons ab = do gs ← groups 8 ab; ok (join 58 gs)

-- Each reader gives the address and the position behind it.
unfoldable pub read_ipv4 : Bytes → ℕ → Result (Text × ℕ)
read_ipv4 chunk pos = ok (dotted (slice chunk pos 4), pos + 4)

unfoldable pub read_ipv6 : Bytes → ℕ → Result (Text × ℕ)
read_ipv6 chunk pos = do address ← colons (slice chunk pos 16); ok (address, pos + 16)

unfoldable pub read_domain : (Bytes → Text) → Bytes → ℕ → Result (Text × ℕ)
read_domain decode chunk pos = do
  dlen ← at chunk pos
  ok (decode (slice chunk (pos + 1) dlen), pos + 1 + dlen)

-- The text of a whole IPv6 address.
unfoldable pub group_texts : Bytes → List Text
group_texts (a ∷ b ∷ rest) = (hex2 a ++ hex2 b) ∷ group_texts rest
group_texts _ = []

pub groups_whole : (n : ℕ) (ab : Bytes) → length ab ≡ n + n → groups n ab ≡ ok (group_texts ab)
unfolding groups group_texts
groups_whole zero [] h = refl
groups_whole zero (a ∷ ab) h = absurd (omega arith)
groups_whole (suc n) [] h = absurd (omega arith)
groups_whole (suc n) (a ∷ []) h = absurd (omega arith)
groups_whole (suc n) (a ∷ b ∷ rest) h = rw (groups_whole n rest (omega arith))

pub groups_short : (n : ℕ) (ab : Bytes) → length ab < n + n → groups n ab ≡ raise index_error
unfolding groups
groups_short zero ab h = absurd (omega arith)
groups_short (suc n) [] h = refl
groups_short (suc n) (a ∷ []) h = refl
groups_short (suc n) (a ∷ b ∷ rest) h = rw (groups_short n rest (omega arith))

-- The text that a parser makes of an address which an encoder was given.
unfoldable pub spelled : Host → Text → Text
spelled host address = elim (host.ip_address address) [
  | none ↦ address
  | some (v4 packed) ↦ dotted packed
  | some (v6 packed) ↦ join 58 (group_texts packed)
]

-- What the readers find where a whole address stands at `pos`.
module _ (chunk : Bytes) (pos : ℕ) (rest : Bytes) where
  pub read_ipv4_whole :
      (packed : Bytes)
      → length packed ≡ 4
      → drop pos chunk ≡ packed ++ rest
      → (read_ipv4 chunk pos ≡ ok (dotted packed, pos + 4)) × (drop (pos + 4) chunk ≡ rest)
  unfolding read_ipv4
  read_ipv4_whole packed h cut = (
    rw (cut, take_prefix packed rest 4 (sym h)),
    drop_offset chunk pos cut 4 ∙ drop_prefix packed rest 4 (sym h),
  )

  pub read_ipv6_whole :
      (packed : Bytes)
      → length packed ≡ 16
      → drop pos chunk ≡ packed ++ rest
      → (read_ipv6 chunk pos ≡ ok (join 58 (group_texts packed), pos + 16))
        × (drop (pos + 16) chunk ≡ rest)
  unfolding read_ipv6 colons
  read_ipv6_whole packed h cut = (
    rw (cut, take_prefix packed rest 16 (sym h), groups_whole 8 packed h),
    drop_offset chunk pos cut 16 ∙ drop_prefix packed rest 16 (sym h),
  )

  pub read_domain_whole :
      (decode : Bytes → Text) (name : Bytes)
      → drop pos chunk ≡ length name ∷ (name ++ rest)
      → (read_domain decode chunk pos ≡ ok (decode name, pos + 1 + length name))
        × (drop (pos + 1 + length name) chunk ≡ rest)
  unfolding read_domain
  read_domain_whole decode name cut =
      let here : get_elem? chunk pos ≡ some (length name) =
        ap (get_elem? chunk) (sym (add-zero pos)) ∙ at_offset chunk pos cut 0 in
      let behind : drop (pos + 1) chunk ≡ name ++ rest = drop_offset chunk pos cut 1 in
      (
        rw (here, behind, take_prefix name rest (length name) refl),
        drop_offset chunk (pos + 1) behind (length name) ∙ drop_prefix name rest (length name) refl,
      )
