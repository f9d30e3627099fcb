-- ===== src/Relay/Vless.antt =====
-- The request header of core/voidz_core/relay/vless.py: `parse_vless_header` and
-- `build_vless_header`.
pub mod RoundTrip
use voidz.Prelude.{
  ℕ, ◌+◌, List, [], ◌∷◌, ◌++◌, Option, none, some, length, drop, ltb, eqb, if◌then◌else◌,
}
use voidz.Prelude.Result.{Result, ok, raise, value_error, fail_if, or_raise, at, ◌>>=◌, ◌>>◌}
use voidz.Relay.Bytes.{Bytes, Text, slice, from_big, to_big2, one_byte, fromhex, without_dashes}
use voidz.Relay.Address.{Host, v4, v6, read_ipv4, read_ipv6, read_domain}

-- The branches on `addr_type`.
unfoldable pub read_address : (Bytes → Text) → ℕ → Bytes → ℕ → Result (Text × ℕ)
read_address decode addr_type chunk pos =
    if eqb addr_type 1
    then read_ipv4 chunk pos
    else if eqb addr_type 2
    then read_domain decode chunk pos
    else if eqb addr_type 3
    then read_ipv6 chunk pos
    else raise value_error

-- The command, the address, the port and the payload behind the header.
unfoldable pub parse_vless_header : (Bytes → Text) → Bytes → Result (ℕ × Text × ℕ × Bytes)
parse_vless_header decode chunk = do
  fail_if (ltb (length chunk) 24) value_error
  addon_len ← at chunk 17
  let pos = 17 + (1 + addon_len)
  command ← at chunk pos
  let port = from_big 0 (slice chunk (pos + 1) 2)
  addr_type ← at chunk (pos + 1 + 2)
  (address, end) ← read_address decode addr_type chunk (pos + 1 + 2 + 1)
  ok (command, address, port, drop end chunk)

-- The `addr` of the encoder: the address type and the address.
unfoldable pub encode_address : Host → Text → Result Bytes
encode_address host address = elim (host.ip_address address) [
  | some (v4 packed) ↦ ok (1 ∷ packed)
  | some (v6 packed) ↦ ok (3 ∷ packed)
  | none ↦ do len ← one_byte (length (host.encode address)); ok (2 ∷ (len ++ host.encode address))
]

unfoldable pub build_vless_header : Host → Text → Text → ℕ → ℕ → Result Bytes
build_vless_header host uuid address port command = do
  addr ← encode_address host address
  credential ← or_raise value_error (fromhex (without_dashes uuid))
  cmd ← one_byte command
  p ← to_big2 port
  ok ((0 ∷ credential) ++ (0 ∷ (cmd ++ (p ++ addr))))
