-- ===== src/Relay/Socks/Bounds.antt =====
-- `parse_socks5_addr` reads no byte that is not there (core/voidz_core/relay/shadowsocks.py).
use voidz.Prelude.{
  ℕ, ◌+◌, ◌≤◌, ◌≡◌, ◌⊎◌, inl, inr, refl, some, length, drop, get_elem?, length-take, length-drop,
  get_elem?-eq_some, ltb, ltb-false, arith, Bool-cases,
}
use voidz.Prelude.Result.{Result, ok, raise, value_error}
use voidz.Relay.Bytes.{Bytes, Text, slice, join, from_big}
use voidz.Relay.Address.{read_ipv4, read_ipv6, read_domain, colons, group_texts, groups_whole}
use voidz.Relay.Socks.{read_address, parse_socks5_addr}

-- The only exception, and where the address of an accepted buffer ends.
abbrev Fits : Bytes → Result (Text × ℕ) → Type 0
Fits buf (ok (address, pos)) = (2 ≤ pos) × (pos + 2 ≤ length buf)
Fits buf (raise e) = e ≡ value_error

colons_fits :
    (buf : Bytes)
    → 19 ≤ length buf
    → colons (slice buf 1 16) ≡ ok (join 58 (group_texts (slice buf 1 16)))
unfolding colons
colons_fits buf h = rw (
    groups_whole 8 (slice buf 1 16) (omega (arith, length-take 16 (drop 1 buf), length-drop 1 buf)))

read_address-Fits :
    (decode : Bytes → Text) (atyp : ℕ) (buf : Bytes)
    → 2 ≤ length buf
    → Fits buf (read_address decode atyp buf)
unfolding read_address read_ipv4 read_domain read_ipv6
read_address-Fits decode atyp buf h =
    let (dlen, there) = get_elem?-eq_some buf 1 (omega arith) in
    ground (arith, there, colons_fits buf)

-- The result for each result of `read_address`.
abbrev Total : (Bytes → Text) → Bytes → Type 0
Total decode buf =
    (parse_socks5_addr decode buf ≡ raise value_error)
    ⊎ ((address : Text) × (port consumed : ℕ) × (parse_socks5_addr decode buf
          ≡ ok (address, port, consumed))
        × (4 ≤ consumed)
        × (consumed ≤ length buf))

within_from :
    (decode : Bytes → Text) (buf : Bytes) (atyp : ℕ) (found : Result (Text × ℕ))
    → 2 ≤ length buf
    → get_elem? buf 0 ≡ some atyp
    → read_address decode atyp buf ≡ found
    → Fits buf found
    → Total decode buf
unfolding parse_socks5_addr
within_from decode buf atyp (ok (address, pos)) long there read (far, fits) = inr (
  address,
  from_big 0 (slice buf pos 2),
  pos + 2,
  rw (ltb-false (length buf) 2 long, there, read),
  omega arith,
  fits,
)
within_from decode buf atyp (raise e) long there read only =
    inl (rw (ltb-false (length buf) 2 long, there, read, only))

-- On every buffer `parse_socks5_addr` either raises `ValueError`, and no other exception, or
-- returns a count of consumed bytes, at least 4, that the buffer has.
pub parse_socks5_addr_total :
    (decode : Bytes → Text) (buf : Bytes)
    → (parse_socks5_addr decode buf ≡ raise value_error)
      ⊎ ((address : Text) × (port consumed : ℕ) × (parse_socks5_addr decode buf
            ≡ ok (address, port, consumed))
          × (4 ≤ consumed)
          × (consumed ≤ length buf))
unfolding parse_socks5_addr
parse_socks5_addr_total decode buf = elim (Bool-cases (ltb (length buf) 2)) [
  | inl short ↦ inl (rw short)
  | inr enough ↦
      let long : 2 ≤ length buf = ground arith in
      let (atyp, there) = get_elem?-eq_some buf 0 (omega arith) in
      within_from decode buf atyp (read_address decode atyp buf) long there refl
        (read_address-Fits decode atyp buf long)
]
