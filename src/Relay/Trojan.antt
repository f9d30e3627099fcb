-- ===== src/Relay/Trojan.antt =====
-- The request of core/voidz_core/relay/trojan.py: `parse_trojan_request` and
-- `build_trojan_request`.
mod Layout
pub mod RoundTrip
pub mod Refusals
use voidz.Prelude.{
  ℕ, ◌+◌, ◌≤◌, ◌≡◌, ◌⊎◌, Bool, not, List, [], ◌∷◌, ◌++◌, some, none, length, drop, ltb, eqb,
  if◌then◌else◌, All, ◌==◌, nat_eq, list_eq,
}
use voidz.Prelude.Result.{
  Result, ok, raise, value_error, permission_error, fail_if, at, ◌>>=◌, ◌>>◌,
}
use voidz.Relay.Bytes.{Bytes, Text, slice, from_big, to_big2, one_byte, decode_ascii, lower}
use voidz.Relay.Address.{Host, v4, v6, read_ipv4, read_ipv6, read_domain}

-- `hashlib.sha224(password.encode("utf-8")).hexdigest()`: 56 lower-case hexadecimal digits.
pub record Digest : Type 0 where
  pub trojan_password_hash : Text → Text
  pub length-hash : (password : Text) → length (trojan_password_hash password) ≡ 56
  pub hash_digits :
      (password : Text)
      → All (λ c. (48 ≤ c) × (c ≤ 57) ⊎ (97 ≤ c) × (c ≤ 102)) (trojan_password_hash password)

-- The password hash of a request, as it is compared.
unfoldable pub given_hash : Bytes → Text
given_hash chunk = lower (decode_ascii (slice chunk 0 56))

-- The branches on `atyp`.
unfoldable pub read_address : (Bytes → Text) → ℕ → Bytes → ℕ → Result (Text × ℕ)
read_address decode atyp chunk pos =
    if eqb atyp 1
    then read_ipv4 chunk pos
    else if eqb atyp 3
    then read_domain decode chunk pos
    else if eqb atyp 4
    then read_ipv6 chunk pos
    else raise value_error

-- The port, the line end and the payload behind the address.
unfoldable pub read_rest : Bytes → Text × ℕ → Result (Text × ℕ × Bytes)
read_rest chunk (address, pos) = do
  let port = from_big 0 (slice chunk pos 2)
  fail_if (not (slice chunk (pos + 2) 2 == 13 ∷ 10 ∷ [])) value_error
  ok (address, port, drop (pos + 2 + 2) chunk)

-- The request behind the password and the command byte.
unfoldable pub read_target : (Bytes → Text) → Bytes → Result (Text × ℕ × Bytes)
read_target decode chunk = do
  let pos = 56 + 2 + 1
  atyp ← at chunk pos
  found ← read_address decode atyp chunk (pos + 1)
  read_rest chunk found

-- The address, the port and the payload.
unfoldable pub parse_trojan_request : (Bytes → Text) → Bytes → Text → Result (Text × ℕ × Bytes)
parse_trojan_request decode chunk expected_hash_hex = do
  fail_if (ltb (length chunk) (1 + 56 + 2 + 1 + 1 + 1 + 2 + 2)) value_error
  fail_if (not (given_hash chunk == lower expected_hash_hex)) permission_error
  read_target decode chunk

unfoldable pub encode_address : Host → Text → Result Bytes
encode_address host address = elim (host.ip_address address) [
  | some (v4 packed) ↦ ok (1 ∷ packed)
  | some (v6 packed) ↦ ok (4 ∷ packed)
  | none ↦ do len ← one_byte (length (host.encode address)); ok (3 ∷ (len ++ host.encode address))
]

-- The digest is ASCII, which `.encode()` leaves as it is.
unfoldable pub build_trojan_request : Digest → Host → Text → Text → ℕ → Bytes → Result Bytes
build_trojan_request digest host password address port payload = do
  addr ← encode_address host address
  p ← to_big2 port
  ok (digest.trojan_password_hash password ++ (13 ∷ 10 ∷ 1 ∷ (addr ++ (p ++ (13 ∷ 10 ∷ payload)))))
