-- ===== src/Tests/Headers.antt =====
-- The request headers of the relay protocols at concrete inputs.
use voidz.Prelude.{
  ℕ, zero, suc, ◌≤◌, ◌<◌, ◌≡◌, ◌≢◌, ◌⊎◌, ◌↔◌, inl, inr, ap, list_beq, refl, [], ◌∷◌, ◌++◌, none,
  some, length, get_elem?, arith, All,
}
use voidz.Prelude.Result.{ok, raise, index_error}
use voidz.Relay.Bytes.{
  Bytes, Text, one_byte, to_big2, from_big, decode_ascii, lower, fromhex, hex_value, is_space,
  without_dashes,
}
use voidz.Relay.Address.{Host, Ip, v4, v6, spelled, read_domain}
use voidz.Relay.Vless.{parse_vless_header, build_vless_header}
use voidz.Relay.Vless.RoundTrip.{parse_vless_header-build_vless_header}
use voidz.Relay.Trojan
use voidz.Relay.Trojan.{Digest, given_hash, parse_trojan_request, build_trojan_request}
use voidz.Relay.Trojan.RoundTrip.{parse_trojan_request-build_trojan_request}
use voidz.Relay.Trojan.Refusals.{index_error_iff}

not_packed : {n m : ℕ} (ip : Ip) → none ≡ some ip → n ≡ m
not_packed ip h = cc

-- Texts of ASCII, none of which is an address.
abbrev host : Host
host = record {
  encode = λ t. t;
  decode = λ b. b;
  ip_address = λ t. none;
  decode-encode = λ t. refl;
  packed4 = λ t p h. not_packed (v4 p) h;
  packed6 = λ t p h. not_packed (v6 p) h;
}

-- a digest of 56 digits that tells an empty password from the others
abbrev digits : ℕ → ℕ → Text
digits zero c = []
digits (suc n) c = c ∷ digits n c

abbrev first_digit : Text → ℕ
first_digit [] = 48
first_digit (c ∷ cs) = 97

length-digits : (n c : ℕ) → length (digits n c) ≡ n
length-digits zero c = refl
length-digits (suc n) c = omega (arith, length-digits n c)

digits-All :
    (n c : ℕ)
    → ((48 ≤ c) × (c ≤ 57) ⊎ (97 ≤ c) × (c ≤ 102))
    → All (λ d. (48 ≤ d) × (d ≤ 57) ⊎ (97 ≤ d) × (d ≤ 102)) (digits n c)
digits-All zero c h = tt
digits-All (suc n) c h = (h, digits-All n c h)

first_digit-hex :
    (p : Text)
    → (48 ≤ first_digit p) × (first_digit p ≤ 57) ⊎ (97 ≤ first_digit p) × (first_digit p ≤ 102)
first_digit-hex [] = inl (omega arith, omega arith)
first_digit-hex (c ∷ cs) = inr (omega arith, omega arith)

abbrev first_or_zero : Text → ℕ
first_or_zero [] = 0
first_or_zero (c ∷ cs) = c

abbrev digest : Digest
digest = record {
  trojan_password_hash = λ p. digits 56 (first_digit p);
  length-hash = λ p. length-digits 56 (first_digit p);
  hash_digits = λ p. digits-All 56 (first_digit p) (first_digit-hex p);
}

abbrev uuid : Text
uuid = 48 ∷ 48 ∷ 45 ∷ digits 30 97

abbrev credential : Bytes
credential = 0 ∷ digits 15 170

credential-is : fromhex (without_dashes uuid) ≡ some credential
unfolding fromhex hex_value is_space without_dashes
credential-is = refl

-- "ab" at port 443 in a connect command, and two bytes behind the header
parse_vless_header-build_vless_header_example :
    (bytes : Bytes) × (build_vless_header host uuid (97 ∷ 98 ∷ []) 443 1 ≡ ok bytes)
    × (parse_vless_header host.decode (bytes ++ 7 ∷ 8 ∷ [])
        ≡ ok (1, spelled host (97 ∷ 98 ∷ []), 443, 7 ∷ 8 ∷ []))
parse_vless_header-build_vless_header_example =
    parse_vless_header-build_vless_header host uuid (97 ∷ 98 ∷ []) credential (7 ∷ 8 ∷ []) 1 443
      credential-is refl (omega arith) (omega arith) (omega arith) (omega arith)

parse_trojan_request-build_trojan_request_example :
    (request : Bytes) × (build_trojan_request digest host [] (97 ∷ 98 ∷ []) 443 (7 ∷ [])
      ≡ ok request)
    × (parse_trojan_request host.decode request (digest.trojan_password_hash [])
        ≡ ok (spelled host (97 ∷ 98 ∷ []), 443, 7 ∷ []))
parse_trojan_request-build_trojan_request_example =
    parse_trojan_request-build_trojan_request digest host [] (97 ∷ 98 ∷ []) 443 (7 ∷ [])
      (omega arith) (omega arith) (omega arith)

-- the request for "ab" at port 443 under the empty password
abbrev request : Bytes
request = digits 56 48 ++ (13 ∷ 10 ∷ 1 ∷ 3 ∷ 2 ∷ 97 ∷ 98 ∷ 1 ∷ 187 ∷ 13 ∷ 10 ∷ 7 ∷ [])

request-built : build_trojan_request digest host [] (97 ∷ 98 ∷ []) 443 (7 ∷ []) ≡ ok request
unfolding build_trojan_request Trojan.encode_address one_byte to_big2
request-built = refl

request-accepted :
    parse_trojan_request host.decode request (digits 56 48) ≡ ok (97 ∷ 98 ∷ [], 443, 7 ∷ [])
unfolding parse_trojan_request Trojan.read_target Trojan.read_address Trojan.read_rest given_hash
    decode_ascii lower read_domain from_big list_beq
request-accepted = refl

digests-differ : digest.trojan_password_hash [] ≢ digest.trojan_password_hash (1 ∷ [])
digests-differ same = let e : 48 ≡ 97 = ap first_or_zero same in omega (arith, e)

-- cut inside an IPv6 address
abbrev cut : Bytes
cut = digits 56 48 ++ (13 ∷ 10 ∷ 1 ∷ 4 ∷ 0 ∷ 1 ∷ 0 ∷ 2 ∷ 0 ∷ 3 ∷ 0 ∷ 4 ∷ [])

index_error_iff_example :
    (parse_trojan_request host.decode cut (digits 56 48) ≡ raise index_error) ↔ (
      (66 ≤ length cut)
      × (given_hash cut ≡ lower (digits 56 48))
      × (get_elem? cut 59 ≡ some 4)
      × (length cut < 76))
index_error_iff_example = index_error_iff host.decode cut (digits 56 48)
