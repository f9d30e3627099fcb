-- ===== src/Tests/Chunks.antt =====
-- The chunks of Shadowsocks (core/voidz_core/relay/shadowsocks.py) at concrete inputs.
use voidz.Prelude.{
  ℕ, zero, suc, ◌+◌, ◌≡◌, refl, true, [], ◌∷◌, ◌++◌, Option, none, some, length, drop, take, arith,
  length-append, take_prefix, drop_prefix, ◌==◌, ==_refl, ◌-◌, if◌then◌else◌, list_eq, list_beq,
  nat_eq, string_eq,
}
use voidz.Prelude.Result.{ok}
use voidz.Relay.Bytes.{Bytes}
use voidz.Relay.Aead.{
  Cipher, Decoder, waiting, failed, new_encoder, new_decoder, feed, encrypt_chunk, encrypt_all,
  try_decrypt_chunks,
}
use voidz.Relay.Aead.RoundTrip.{decrypt-encrypt}
use voidz.Relay.Aead.Fragments.{fragment_fails}

-- A seal that writes the nonce sixteen times behind the text.
abbrev copies : ℕ → ℕ → Bytes
copies zero n = []
copies (suc k) n = n ∷ copies k n

length-copies : (k n : ℕ) → length (copies k n) ≡ k
length-copies zero n = refl
length-copies (suc k) n = omega (arith, length-copies k n)

abbrev open_seal : ℕ → Bytes → Option Bytes
open_seal n sealed_bytes =
    if drop (length sealed_bytes - 16) sealed_bytes == copies 16 n
    then some (take (length sealed_bytes - 16) sealed_bytes)
    else none

length-seal : (p : Bytes) (n : ℕ) → length (p ++ copies 16 n) ≡ length p + 16
length-seal p n = omega (arith, length-append p (copies 16 n), length-copies 16 n)

open_seal-seal : (n : ℕ) (p : Bytes) → open_seal n (p ++ copies 16 n) ≡ some p
open_seal-seal n p =
    let size : length (p ++ copies 16 n) - 16 ≡ length p = omega (arith, length-seal p n) in
    rw (
      size,
      drop_prefix p (copies 16 n) (length p) refl,
      take_prefix p (copies 16 n) (length p) refl,
      ==_refl (copies 16 n),
    )

abbrev cipher : Cipher
cipher = record {
  salt_len = 32;
  seal = λ salt n p. p ++ copies 16 n;
  unseal = λ salt n b. open_seal n b;
  unseal-seal = λ salt n p. open_seal-seal n p;
  length-seal = λ salt n p. length-seal p n;
}

abbrev salt : Bytes
salt = copies 32 5

-- two payloads, and the first byte of a chunk that has not come whole
decrypt-encrypt_example :
    (bytes : Bytes) × (encrypt_all cipher ((1 ∷ 2 ∷ []) ∷ (3 ∷ []) ∷ []) (new_encoder salt)
      ≡ ok bytes)
    × (try_decrypt_chunks cipher (feed (bytes ++ 7 ∷ []) new_decoder) ≡ (
      (1 ∷ 2 ∷ []) ∷ (3 ∷ []) ∷ [],
      waiting,
      record { dec_salt = some salt; dec_nonce = 4; buf = 7 ∷ [] },
    ))
decrypt-encrypt_example =
    decrypt-encrypt cipher salt (1 ∷ 2 ∷ []) ((3 ∷ []) ∷ []) (7 ∷ []) refl
      (omega arith, (omega arith, tt)) (omega arith)

-- a chunk of one byte whose last byte comes later
wrong_nonce : open_seal 1 (0 ∷ 1 ∷ copies 16 0) ≡ none
unfolding list_beq
wrong_nonce = refl

fragment_fails_example :
    (chunk : Bytes) × (waits : Decoder) × (encrypt_chunk cipher
        (1 ∷ [])
        (record { enc_salt = salt; enc_nonce = 0; enc_salt_sent = true })
      ≡ ok (chunk, record { enc_salt = salt; enc_nonce = 2; enc_salt_sent = true }))
    × (try_decrypt_chunks cipher
          (feed (take 34 chunk) (record { dec_salt = some salt; dec_nonce = 0; buf = [] }))
        ≡ ([], waiting, waits))
    × (try_decrypt_chunks cipher (feed (drop 34 chunk) waits)
        ≡ ([], failed, record { dec_salt = some salt; dec_nonce = 1; buf = chunk }))
fragment_fails_example =
    fragment_fails cipher salt 0 (1 ∷ []) 34 (omega arith) (omega arith) (omega arith) wrong_nonce
