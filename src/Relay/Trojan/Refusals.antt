-- ===== src/Relay/Trojan/Refusals.antt =====
-- What `parse_trojan_request` checks of an arbitrary chunk (core/voidz_core/relay/trojan.py).
use voidz.Prelude.{
  ℕ, ◌+◌, ◌≤◌, ◌<◌, ◌≡◌, ◌↔◌, ◌≢◌, inl, inr, refl, ap, ◌∙◌, Bool, true, false, not, [], ◌∷◌, some,
  length, drop, get_elem?, ltb, ltb-false, length-take, length-drop, arith, ◌==◌, ==_iff, nat_eq,
  list_eq, Bool-cases, list_beq_iff, get_elem?-eq_some,
}
use voidz.Prelude.Result.{
  ok, raise, fail_if, at, value_error, permission_error, index_error, ◌>>=◌, ◌>>◌, >>=-eq-ok,
  fail_if-eq-ok, >>=-eq-raise,
}
use voidz.Relay.Bytes.{Bytes, Text, slice, join, lower}
use voidz.Relay.Address.{
  read_ipv4, read_ipv6, read_domain, colons, group_texts, groups_short, groups_whole,
}
use voidz.Relay.Trojan.{given_hash, read_address, read_rest, read_target, parse_trojan_request}

ne-false : (b : Bool) → not b ≡ false → b ≡ true
ne-false true h = refl
ne-false false h = cc

read_rest-eq-ok :
    (chunk : Bytes) (spelling address : Text) (pos port : ℕ) (payload : Bytes)
    → read_rest chunk (spelling, pos) ≡ ok (address, port, payload)
    → (slice chunk (pos + 2) 2 ≡ 13 ∷ 10 ∷ [])
      × (payload ≡ drop (pos + 4) chunk)
      × (pos + 4 + length payload ≡ length chunk)
unfolding read_rest
read_rest-eq-ok chunk spelling address pos port payload h =
    let (ends, result) = fail_if-eq-ok _ _ _ h in
    let line : slice chunk (pos + 2) 2 ≡ 13 ∷ 10 ∷ [] =
      (list_beq_iff (slice chunk (pos + 2) 2) (13 ∷ 10 ∷ [])).0 (ne-false _ ends) in
    let position : pos + 2 + 2 ≡ pos + 4 = omega arith in
    let same : payload ≡ drop (pos + 4) chunk = rw (← position) (cc) in
    (
      line,
      same,
      omega (
        arith,
        ap length line,
        ap length same,
        length-take 2 (drop (pos + 2) chunk),
        length-drop (pos + 2) chunk,
        length-drop (pos + 4) chunk,
      ),
    )

abbrev Whole : Bytes → Bytes → Type 0
Whole chunk payload =
    (pos : ℕ) × (slice chunk (pos + 2) 2 ≡ 13 ∷ 10 ∷ [])
    × (payload ≡ drop (pos + 4) chunk)
    × (pos + 4 + length payload ≡ length chunk)

read_target-eq-ok :
    (decode : Bytes → Text) (chunk : Bytes) (address : Text) (port : ℕ) (payload : Bytes)
    → read_target decode chunk ≡ ok (address, port, payload)
    → Whole chunk payload
unfolding read_target
read_target-eq-ok decode chunk address port payload h =
    let (atyp, _, found) =
      >>=-eq-ok (at chunk 59) (λ b. read_address decode b chunk 60 >>= read_rest chunk) h in
    let ((spelling, pos), _, end) =
      >>=-eq-ok (read_address decode atyp chunk 60) (read_rest chunk) found in
    let (line, same, all) = read_rest-eq-ok chunk spelling address pos port payload end in
    (pos, line, same, all)

-- A request that `parse_trojan_request` accepts carries the expected password hash, a line end
-- stands right in front of its payload, and the payload is all that follows: nothing of the
-- header was cut off.
pub accepted_whole :
    (decode : Bytes → Text) (chunk : Bytes) (expected address : Text) (port : ℕ) (payload : Bytes)
    → parse_trojan_request decode chunk expected ≡ ok (address, port, payload)
    → (given_hash chunk ≡ lower expected)
      × ((pos : ℕ) × (slice chunk (pos + 2) 2 ≡ 13 ∷ 10 ∷ [])
          × (payload ≡ drop (pos + 4) chunk)
          × (pos + 4 + length payload ≡ length chunk))
unfolding parse_trojan_request
accepted_whole decode chunk expected address port payload accepted =
    let authentic : Bool = given_hash chunk == lower expected in
    let (_, hashed) =
      fail_if-eq-ok (ltb (length chunk) 66) value_error
        (fail_if (not authentic) permission_error >> read_target decode chunk) accepted in
    let (same, read) =
      fail_if-eq-ok (not authentic) permission_error (read_target decode chunk) hashed in
    (
      (==_iff (given_hash chunk) (lower expected)).0 (ne-false authentic same),
      read_target-eq-ok decode chunk address port payload read,
    )

-- The address that `read_address` cannot read for want of bytes is an IPv6 address.
module _ (decode : Bytes → Text) (chunk : Bytes) (long : 66 ≤ length chunk) where
  colons_short : length chunk < 76 → colons (slice chunk 60 16) ≡ raise index_error
  unfolding colons
  colons_short h = rw (
      groups_short 8 (slice chunk 60 16)
        (omega (arith, length-take 16 (drop 60 chunk), length-drop 60 chunk)))

  colons_total : 76 ≤ length chunk → (text : Text) × (colons (slice chunk 60 16) ≡ ok text)
  unfolding colons
  colons_total h =
      let size : length (slice chunk 60 16) ≡ 16 =
        omega (arith, length-take 16 (drop 60 chunk), length-drop 60 chunk) in
      (join 58 (group_texts (slice chunk 60 16)), rw (groups_whole 8 (slice chunk 60 16) size))

  read_address-short :
      (atyp : ℕ)
      → read_address decode atyp chunk 60 ≡ raise index_error
      → (atyp ≡ 4) × (length chunk < 76)
  unfolding read_address read_ipv4 read_domain read_ipv6
  read_address-short atyp h =
      let (dlen, there) = get_elem?-eq_some chunk 60 (omega arith) in
      elim (Bool-cases (ltb (length chunk) 76)) [
        | inl short ↦ (ground (arith, there), ground arith)
        | inr enough ↦
            let (text, whole) = colons_total (ground arith) in absurd (ground (arith, there, whole))
      ]

  read_rest-ne-index_error : (found : Text × ℕ) → read_rest chunk found ≢ raise index_error
  unfolding read_rest
  read_rest-ne-index_error (address, pos) h = ground arith

  read_target-short :
      read_target decode chunk ≡ raise index_error
      → (get_elem? chunk 59 ≡ some 4) × (length chunk < 76)
  unfolding read_target
  read_target-short h =
      let (atyp, there) = get_elem?-eq_some chunk 59 (omega arith) in
      let cause : (atyp ≡ 4) × (length chunk < 76) =
        elim (>>=-eq-raise (read_address decode atyp chunk 60) (read_rest chunk) (rw there at h)) [
          | inl failed ↦ read_address-short atyp failed
          | inr (found, _, rest) ↦ absurd (read_rest-ne-index_error found rest)
        ] in
      (there ∙ ap some cause.0, cause.1)

parse-short :
    (decode : Bytes → Text) (chunk : Bytes) (expected : Text)
    → parse_trojan_request decode chunk expected ≡ raise index_error
    → (66 ≤ length chunk)
      × (given_hash chunk ≡ lower expected)
      × (get_elem? chunk 59 ≡ some 4)
      × (length chunk < 76)
unfolding parse_trojan_request
parse-short decode chunk expected h =
    let same = list_beq_iff (given_hash chunk) (lower expected) in
    let cause = λ (long : 66 ≤ length chunk). read_target-short decode chunk long in
    (ground arith, ground (arith, same), ground (arith, cause), ground (arith, cause))

-- `parse_trojan_request` raises `IndexError`, which its caller does not catch, on exactly these
-- chunks: of 66 bytes or more and fewer than 76, with the expected password hash, and with the
-- address type of IPv6.
pub index_error_iff :
    (decode : Bytes → Text) (chunk : Bytes) (expected : Text)
    → (parse_trojan_request decode chunk expected ≡ raise index_error) ↔ (
        (66 ≤ length chunk)
        × (given_hash chunk ≡ lower expected)
        × (get_elem? chunk 59 ≡ some 4)
        × (length chunk < 76))
unfolding parse_trojan_request read_target read_address read_ipv6
index_error_iff decode chunk expected = (
  parse-short decode chunk expected,
  λ h. rw (
    ltb-false (length chunk) 66 h.0,
    (==_iff (given_hash chunk) (lower expected)).1 h.1,
    h.2,
    colons_short decode chunk h.0 h.3,
  ),
)
