-- ===== src/Relay/Trojan/Layout.antt =====
-- How a whole Trojan request is laid out, and how it is read (core/voidz_core/relay/trojan.py).
use voidz.Prelude.{
  ℕ, ◌+◌, ◌/◌, ◌%◌, ◌≤◌, ◌<◌, ◌≡◌, ◌≢◌, ◌⊎◌, inl, inr, refl, sym, ◌∙◌, false, [], ◌∷◌, ◌++◌, Option,
  none, some, length, drop, drop_prefix, take_prefix, length-append, ltb-false, lt→ltb, arith, All,
  list_beq, ◌==◌, ==_iff, ==_refl, nat_eq, list_eq, Bool-cases,
}
use voidz.Prelude.Result.{ok, raise, permission_error}
use voidz.Relay.Bytes.{
  Bytes, Text, join, one_byte, decode_ascii, lower, at_offset, drop_offset, from_big-to_big2,
  to_big2-eq_ok,
}
use voidz.Relay.Address.{
  Host, Ip, v4, v6, dotted, group_texts, spelled, read_ipv4_whole, read_ipv6_whole,
  read_domain_whole,
}
use voidz.Relay.Trojan.{
  Digest, given_hash, read_address, read_rest, read_target, parse_trojan_request, encode_address,
  build_trojan_request,
}

-- Hexadecimal digits in lower case are ASCII and their own lower case.
decode-digits :
    (h : Text)
    → All (λ c. (48 ≤ c) × (c ≤ 57) ⊎ (97 ≤ c) × (c ≤ 102)) h
    → (decode_ascii h ≡ h) × (lower h ≡ h)
unfolding decode_ascii lower
decode-digits [] d = (refl, refl)
decode-digits (c ∷ cs) d = ground (arith, decode-digits cs d.1)

pub lower-hash :
    (digest : Digest) (password : Text)
    → lower (digest.trojan_password_hash password) ≡ digest.trojan_password_hash password
lower-hash digest password = (decode-digits _ (digest.hash_digits password)).1

ne→equals-false : (a b : Text) → a ≢ b → (a == b) ≡ false
ne→equals-false a b h = elim (Bool-cases (a == b)) [
  | inl same ↦ absurd (h ((==_iff a b).0 same))
  | inr other ↦ other
]

-- A request of a whole frame: the hash, the line end, the command byte, the address, the port,
-- the line end and the payload.
module _ (digest : Digest) (host : Host) (password : Text) (port : ℕ) (payload : Bytes) where
  abbrev pub ending : Bytes
  ending = (port / 256) ∷ (port % 256) ∷ 13 ∷ 10 ∷ payload

  abbrev pub framed : ℕ → Bytes → Bytes
  framed atyp body = digest.trojan_password_hash password ++ (13 ∷ 10 ∷ 1 ∷ atyp ∷ (body ++ ending))

  given-framed :
      (atyp : ℕ) (body : Bytes)
      → given_hash (framed atyp body) ≡ digest.trojan_password_hash password
  unfolding given_hash
  given-framed atyp body =
      let digits = decode-digits _ (digest.hash_digits password) in
      rw (
        take_prefix (digest.trojan_password_hash password) (13 ∷ 10 ∷ 1 ∷ atyp ∷ (body ++ ending))
            56 (sym (digest.length-hash password)),
        digits.0,
        digits.1,
      )

  length-framed : (atyp : ℕ) (body : Bytes) → 64 + length body ≤ length (framed atyp body)
  length-framed atyp body = omega (
    arith,
    digest.length-hash password,
    length-append (digest.trojan_password_hash password) (13 ∷ 10 ∷ 1 ∷ atyp ∷ (body ++ ending)),
    length-append body ending,
  )

  behind_hash :
      (atyp : ℕ) (body : Bytes) → drop 56 (framed atyp body) ≡ 13 ∷ 10 ∷ 1 ∷ atyp ∷ (body ++ ending)
  behind_hash atyp body =
      drop_prefix (digest.trojan_password_hash password) _ 56 (sym (digest.length-hash password))

  -- where the address ends at `end`, the request is read to its end
  read_rest_whole :
      (chunk : Bytes) (address : Text) (end : ℕ)
      → drop end chunk ≡ ending
      → read_rest chunk (address, end) ≡ ok (address, port, payload)
  unfolding read_rest list_beq
  read_rest_whole chunk address end cut =
      let behind_port : drop (end + 2) chunk ≡ 13 ∷ 10 ∷ payload = drop_offset chunk end cut 2 in
      rw (cut, behind_port, drop_offset chunk (end + 2) behind_port 2, from_big-to_big2 port)

  parse_framed :
      (atyp end : ℕ) (address : Text) (body : Bytes)
      → 2 ≤ length body
      → read_address host.decode atyp (framed atyp body) 60 ≡ ok (address, end)
      → drop end (framed atyp body) ≡ ending
      → parse_trojan_request host.decode (framed atyp body) (digest.trojan_password_hash password)
        ≡ ok (address, port, payload)
  unfolding parse_trojan_request read_target
  parse_framed atyp end address body long found remains =
      rw
        (
          ltb-false (length (framed atyp body)) 66 (omega (arith, length-framed atyp body)),
          given-framed atyp body,
          lower-hash digest password,
          ==_refl (digest.trojan_password_hash password),
          at_offset (framed atyp body) 56 (behind_hash atyp body) 3,
          found,
        )
        (read_rest_whole (framed atyp body) address end remains)

  body_cut : (atyp : ℕ) (body : Bytes) → drop 60 (framed atyp body) ≡ body ++ ending
  body_cut atyp body = drop_offset (framed atyp body) 56 (behind_hash atyp body) 4

  pub address_kinds :
      (address : Text) (kind : Option Ip)
      → host.ip_address address ≡ kind
      → 0 < length (host.encode address)
      → length (host.encode address) < 256
      → (atyp : ℕ) × (body : Bytes) × (2 ≤ length body)
        × (encode_address host address ≡ ok (atyp ∷ body))
        × (parse_trojan_request host.decode
              (framed atyp body)
              (digest.trojan_password_hash password)
            ≡ ok (spelled host address, port, payload))
  unfolding encode_address spelled one_byte read_address
  address_kinds address none kind some_name short =
      let name : Bytes = host.encode address in
      let body : Bytes = length name ∷ name in
      let (found, remains) =
        read_domain_whole (framed 3 body) 60 ending host.decode name (body_cut 3 body) in
      (
        3,
        body,
        omega arith,
        rw (kind, encode_address, lt→ltb _ 256 short),
        rw (kind, spelled)
            (parse_framed 3 (60 + 1 + length name) address body (omega arith)
              (found ∙ rw host.decode-encode) remains),
      )
  address_kinds address (some (v4 packed)) kind some_name short =
      let size = host.packed4 address packed kind in
      let (found, remains) =
        read_ipv4_whole (framed 1 packed) 60 ending packed size (body_cut 1 packed) in
      (
        1,
        packed,
        omega arith,
        rw (kind, encode_address),
        rw (kind, spelled) (parse_framed 1 64 (dotted packed) packed (omega arith) found remains),
      )
  address_kinds address (some (v6 packed)) kind some_name short =
      let size = host.packed6 address packed kind in
      let (found, remains) =
        read_ipv6_whole (framed 4 packed) 60 ending packed size (body_cut 4 packed) in
      (
        4,
        packed,
        omega arith,
        rw (kind, encode_address),
        rw (kind, spelled)
            (parse_framed 4 76 (join 58 (group_texts packed)) packed (omega arith) found remains),
      )

  pub refuse_framed :
      (atyp : ℕ) (body : Bytes) (expected : Text)
      → 2 ≤ length body
      → digest.trojan_password_hash password ≢ lower expected
      → parse_trojan_request host.decode (framed atyp body) expected ≡ raise permission_error
  unfolding parse_trojan_request
  refuse_framed atyp body expected long differ = rw (
    ltb-false (length (framed atyp body)) 66 (omega (arith, length-framed atyp body)),
    given-framed atyp body,
    ne→equals-false _ _ differ,
  )

  pub build_framed :
      (address : Text) (atyp : ℕ) (body : Bytes)
      → port < 65536
      → encode_address host address ≡ ok (atyp ∷ body)
      → build_trojan_request digest host password address port payload ≡ ok (framed atyp body)
  unfolding build_trojan_request
  build_framed address atyp body in_range encoded = rw (encoded, to_big2-eq_ok port in_range)
