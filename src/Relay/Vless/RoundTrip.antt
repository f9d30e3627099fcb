-- ===== src/Relay/Vless/RoundTrip.antt =====
-- `parse_vless_header` undoes `build_vless_header` (core/voidz_core/relay/vless.py).
use voidz.Prelude.{
  ℕ, ◌+◌, ◌/◌, ◌%◌, ◌≤◌, ◌<◌, ◌≡◌, refl, ap, ◌∙◌, [], ◌∷◌, ◌++◌, Option, none, some, length, drop,
  drop_prefix, length-append, append_assoc, ltb-false, arith, lt→ltb,
}
use voidz.Prelude.Result.{ok, ◌>>=◌}
use voidz.Relay.Bytes.{
  Bytes, Text, join, from_big, one_byte, fromhex, without_dashes, at_offset, drop_offset,
  from_big-to_big2, to_big2-eq_ok,
}
use voidz.Relay.Address.{
  Host, Ip, v4, v6, dotted, group_texts, spelled, read_ipv4_whole, read_ipv6_whole,
  read_domain_whole,
}
use voidz.Relay.Vless.{read_address, parse_vless_header, encode_address, build_vless_header}

-- A header with no addons, up to its address.
module _ (decode : Bytes → Text) (chunk : Bytes) (command hi lo addr_type : ℕ) {tail : Bytes}
    (cut : drop 17 chunk ≡ 0 ∷ command ∷ hi ∷ lo ∷ addr_type ∷ tail)
    (enough : 24 ≤ length chunk) where
  parse_frame : parse_vless_header decode chunk ≡ (do
    (address, end) ← read_address decode addr_type chunk 22
    ok (command, address, from_big 0 (hi ∷ lo ∷ []), drop end chunk))
  unfolding parse_vless_header
  parse_frame = rw (
    ltb-false (length chunk) 24 enough,
    at_offset chunk 17 cut 0,
    at_offset chunk 17 cut 1,
    drop_offset chunk 17 cut 2,
    at_offset chunk 17 cut 4,
  )

-- What a header of `build_vless_header` holds behind the credential, and that it is long enough.
module _ (credential body rest : Bytes) (whole : length credential ≡ 16) where
  abbrev header : Bytes
  header = (0 ∷ credential) ++ body

  behind_credential : drop 17 (header ++ rest) ≡ body ++ rest
  behind_credential =
      ap (drop 17) (append_assoc (0 ∷ credential) body rest)
      ∙ drop_prefix (0 ∷ credential) (body ++ rest) 17 (omega arith)

  length-header : length (header ++ rest) ≡ 17 + length body + length rest
  length-header = omega (arith, length-append header rest, length-append (0 ∷ credential) body)

module _ (host : Host) (credential rest : Bytes) (command port : ℕ)
    (whole : length credential ≡ 16) where
  abbrev framed : ℕ → Bytes → Bytes
  framed addr_type tail =
      header credential (0 ∷ command ∷ (port / 256) ∷ (port % 256) ∷ addr_type ∷ tail) rest whole
      ++ rest

  parse_framed :
      (addr_type end : ℕ) (address : Text) (tail : Bytes)
      → 2 ≤ length tail
      → read_address host.decode addr_type (framed addr_type tail) 22 ≡ ok (address, end)
      → drop end (framed addr_type tail) ≡ rest
      → parse_vless_header host.decode (framed addr_type tail) ≡ ok (command, address, port, rest)
  parse_framed addr_type end address tail long at_22 remains =
      parse_frame host.decode (framed addr_type tail) command (port / 256) (port % 256) addr_type
        (behind_credential credential _ rest whole)
        (omega (
          arith,
          length-header credential (0 ∷ command ∷ (port / 256) ∷ (port % 256) ∷ addr_type ∷ tail)
              rest whole,
        ))
      ∙ rw (at_22, remains, from_big-to_big2) refl

  tail_cut : (addr_type : ℕ) (tail : Bytes) → drop 22 (framed addr_type tail) ≡ tail ++ rest
  tail_cut addr_type tail =
      drop_offset (framed addr_type tail) 17 (behind_credential credential _ rest whole) 5

  parse_ipv4 :
      (packed : Bytes)
      → length packed ≡ 4
      → parse_vless_header host.decode (framed 1 packed) ≡ ok (command, dotted packed, port, rest)
  unfolding read_address
  parse_ipv4 packed h =
      let (found, remains) =
        read_ipv4_whole (framed 1 packed) 22 rest packed h (tail_cut 1 packed) in
      parse_framed 1 26 (dotted packed) packed (omega arith) found remains

  parse_ipv6 :
      (packed : Bytes)
      → length packed ≡ 16
      → parse_vless_header host.decode (framed 3 packed)
        ≡ ok (command, join 58 (group_texts packed), port, rest)
  unfolding read_address
  parse_ipv6 packed h =
      let (found, remains) =
        read_ipv6_whole (framed 3 packed) 22 rest packed h (tail_cut 3 packed) in
      parse_framed 3 38 (join 58 (group_texts packed)) packed (omega arith) found remains

  parse_domain :
      (address : Text)
      → 0 < length (host.encode address)
      → parse_vless_header host.decode
          (framed 2 (length (host.encode address) ∷ host.encode address))
        ≡ ok (command, address, port, rest)
  unfolding read_address
  parse_domain address h =
      let name : Bytes = host.encode address in
      let (found, remains) =
        read_domain_whole (framed 2 (length name ∷ name)) 22 rest host.decode name
          (tail_cut 2 (length name ∷ name)) in
      parse_framed 2 (22 + 1 + length name) address (length name ∷ name) (omega arith)
        (found ∙ rw host.decode-encode) remains

  build_framed :
      (uuid address : Text) (addr_type : ℕ) (tail : Bytes)
      → fromhex (without_dashes uuid) ≡ some credential
      → command < 256
      → port < 65536
      → encode_address host address ≡ ok (addr_type ∷ tail)
      → build_vless_header host uuid address port command
        ≡ ok (
            header credential
              (0 ∷ command ∷ (port / 256) ∷ (port % 256) ∷ addr_type ∷ tail)
              rest
              whole)
  unfolding build_vless_header one_byte
  build_framed uuid address addr_type tail parsed cmd in_range encoded =
      rw (encoded, parsed, lt→ltb command 256 cmd, to_big2-eq_ok port in_range)

  address_kinds :
      (address : Text) (kind : Option Ip)
      → host.ip_address address ≡ kind
      → 0 < length (host.encode address)
      → length (host.encode address) < 256
      → (addr_type : ℕ) × (tail : Bytes) × (encode_address host address ≡ ok (addr_type ∷ tail))
        × (parse_vless_header host.decode (framed addr_type tail)
            ≡ ok (command, spelled host address, port, rest))
  unfolding encode_address spelled one_byte
  address_kinds address none kind some_name short = (
    2,
    length (host.encode address) ∷ host.encode address,
    rw (kind, encode_address, lt→ltb _ 256 short),
    rw (kind, spelled) (parse_domain address some_name),
  )
  address_kinds address (some (v4 packed)) kind some_name short = (
    1,
    packed,
    rw (kind, encode_address),
    rw (kind, spelled) (parse_ipv4 packed (host.packed4 address packed kind)),
  )
  address_kinds address (some (v6 packed)) kind some_name short = (
    3,
    packed,
    rw (kind, encode_address),
    rw (kind, spelled) (parse_ipv6 packed (host.packed6 address packed kind)),
  )

-- A header that `build_vless_header` makes for a 16-byte credential, a command and a port in
-- range and a nonempty address of at most 255 bytes is made, and `parse_vless_header` gives back
-- the command, the port, whatever follows the header, and the address: as it was written, or in
-- the spelling of its packed form if it is an IP address.
pub parse_vless_header-build_vless_header :
    (host : Host) (uuid address : Text) (credential rest : Bytes) (command port : ℕ)
    → fromhex (without_dashes uuid) ≡ some credential
    → length credential ≡ 16
    → command < 256
    → port < 65536
    → 0 < length (host.encode address)
    → length (host.encode address) < 256
    → (bytes : Bytes) × (build_vless_header host uuid address port command ≡ ok bytes)
      × (parse_vless_header host.decode (bytes ++ rest)
          ≡ ok (command, spelled host address, port, rest))
parse_vless_header-build_vless_header host uuid address credential rest command port parsed whole
      cmd in_range some_name short =
    let (addr_type, tail, encoded, read) =
      address_kinds host credential rest command port whole address (host.ip_address address) refl
        some_name short in
    (
      header credential (0 ∷ command ∷ (port / 256) ∷ (port % 256) ∷ addr_type ∷ tail) rest whole,
      build_framed host credential rest command port whole uuid address addr_type tail parsed cmd
          in_range encoded,
      read,
    )
