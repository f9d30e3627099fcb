-- ===== src/Relay/Socks.antt =====
-- `parse_socks5_addr` of core/voidz_core/relay/shadowsocks.py: the target address at the front
-- of the first payload.
pub mod Bounds
use voidz.Prelude.{ℕ, ◌+◌, List, [], ◌∷◌, length, ltb, eqb, if◌then◌else◌}
use voidz.Prelude.Result.{Result, ok, raise, value_error, fail_if, at, ◌>>=◌, ◌>>◌}
use voidz.Relay.Bytes.{Bytes, Text, slice, from_big}
use voidz.Relay.Address.{read_ipv4, read_ipv6, read_domain}

-- The branches on `atyp`, each with its check of the length.
unfoldable pub read_address : (Bytes → Text) → ℕ → Bytes → Result (Text × ℕ)
read_address decode atyp buf =
    if eqb atyp 1
    then (do fail_if (ltb (length buf) (1 + 4 + 2)) value_error; read_ipv4 buf 1)
    else if eqb atyp 3
    then (do
      dlen ← at buf 1
      fail_if (ltb (length buf) (2 + dlen + 2)) value_error
      read_domain decode buf 1)
    else if eqb atyp 4
    then (do fail_if (ltb (length buf) (1 + 16 + 2)) value_error; read_ipv6 buf 1)
    else raise value_error

-- The address, the port and the number of bytes consumed.
unfoldable pub parse_socks5_addr : (Bytes → Text) → Bytes → Result (Text × ℕ × ℕ)
parse_socks5_addr decode buf = do
  fail_if (ltb (length buf) 2) value_error
  atyp ← at buf 0
  (address, pos) ← read_address decode atyp buf
  ok (address, from_big 0 (slice buf pos 2), pos + 2)
