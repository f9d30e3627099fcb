-- ===== src/Relay/Aead.antt =====
-- `AEADStream` of core/voidz_core/relay/shadowsocks.py: the chunks of a Shadowsocks stream. A
-- nonce is its counter, which `_nonce` writes into twelve bytes.
pub mod RoundTrip
pub mod Fragments
use voidz.Prelude.{
  ℕ, zero, suc, ◌+◌, ◌*◌, ◌≡◌, Bool, true, false, List, [], ◌∷◌, ◌++◌, Option, none, some, length,
  take, drop, ltb, if◌then◌else◌,
}
use voidz.Prelude.Result.{Result, ok, raise, ◌>>=◌}
use voidz.Relay.Bytes.{Bytes, from_big, to_big2}

abbrev pub tag_len : ℕ
tag_len = 16

abbrev pub max_chunk : ℕ
max_chunk = 0x3FFF

-- A row of `CIPHERS`: the length of a salt, and the AEAD of the `cryptography` package under the
-- subkey of a salt. What `encrypt` seals with a
-- nonce is 16 bytes longer, and `decrypt` opens it with that nonce. `none` is an exception.
pub record Cipher : Type 0 where
  pub salt_len : ℕ
  pub seal : Bytes → ℕ → Bytes → Bytes
  pub unseal : Bytes → ℕ → Bytes → Option Bytes
  pub unseal-seal : (salt : Bytes) (n : ℕ) (p : Bytes) → unseal salt n (seal salt n p) ≡ some p
  pub length-seal : (salt : Bytes) (n : ℕ) (p : Bytes) → length (seal salt n p) ≡ length p + tag_len

pub record Encoder : Type 0 where
  pub enc_salt : Bytes
  pub enc_nonce : ℕ
  pub enc_salt_sent : Bool

pub record Decoder : Type 0 where
  pub dec_salt : Option Bytes
  pub dec_nonce : ℕ
  pub buf : Bytes

abbrev pub new_encoder : Bytes → Encoder
new_encoder salt = record { enc_salt = salt; enc_nonce = 0; enc_salt_sent = false }

abbrev pub new_decoder : Decoder
new_decoder = record { dec_salt = none; dec_nonce = 0; buf = [] }

-- How `try_decrypt_chunks` ends: it waits for bytes, or raises `ValueError`.
pub data Status : Type 0 where
  waiting failed : Status

unfoldable pub feed : Bytes → Decoder → Decoder
feed more d = record d { buf = d.buf ++ more }

module _ (c : Cipher) where
  -- `struct.pack(">H", n)` raises on 65536 and more.
  unfoldable pub encrypt_chunk : Bytes → Encoder → Result (Bytes × Encoder)
  encrypt_chunk payload e = do
    len ← to_big2 (length payload)
    let salt = if e.enc_salt_sent then [] else e.enc_salt
    ok (
      salt ++ (c.seal e.enc_salt e.enc_nonce len ++ c.seal e.enc_salt (e.enc_nonce + 1) payload),
      record e { enc_nonce = e.enc_nonce + 1 + 1; enc_salt_sent = true },
    )

  -- The chunks of a list of payloads, as they are sent one after another.
  unfoldable pub encrypt_all : List Bytes → Encoder → Result Bytes
  encrypt_all [] e = ok []
  encrypt_all (p ∷ ps) e = do
    (out, e') ← encrypt_chunk p e
    rest ← encrypt_all ps e'
    ok (out ++ rest)

  -- The payload part, once the length part is open: `nonce` and `buf` are those of the decoder.
  unfoldable pub payload_part : Bytes → ℕ → Bytes → ℕ → Option (Bytes × Bytes)
  payload_part salt nonce buf len =
      elim (c.unseal salt nonce (take (len + tag_len) (drop (2 + tag_len) buf))) [
        | none ↦ none
        | some payload ↦ some (payload, drop (len + tag_len) (drop (2 + tag_len) buf))
      ]

  -- The loop: the chunks yielded, how it ends, the nonce and the buffer. A round takes 34 bytes
  -- or more, so the length of the buffer is fuel enough.
  unfoldable pub decrypt_loop : ℕ → Bytes → ℕ → Bytes → List Bytes × Status × ℕ × Bytes
  decrypt_loop zero salt nonce buf = ([], waiting, nonce, buf)
  decrypt_loop (suc fuel) salt nonce buf = elim (ltb (length buf) (2 + tag_len)) [
    | true ↦ ([], waiting, nonce, buf)
    | false ↦ elim (c.unseal salt nonce (take (2 + tag_len) buf)) [
      | none ↦ ([], failed, nonce, buf)
      | some length_bytes ↦
          let len = from_big 0 length_bytes in
          elim (ltb max_chunk len) [
            | true ↦ ([], failed, nonce + 1, buf)
            | false ↦ elim (ltb (length buf) (2 + tag_len + len + tag_len)) [
              | true ↦ ([], waiting, nonce + 1, buf)
              | false ↦ elim (payload_part salt (nonce + 1) buf len) [
                | none ↦ ([], failed, nonce + 1, drop (len + tag_len) (drop (2 + tag_len) buf))
                | some (payload, rest) ↦
                    let (chunks, status, nonce', buf') =
                      decrypt_loop fuel salt (nonce + 1 + 1) rest in
                    (payload ∷ chunks, status, nonce', buf')
              ]
            ]
          ]
    ]
  ]

  -- `_ensure_dec_key` and the loop.
  unfoldable pub try_decrypt_chunks : Decoder → List Bytes × Status × Decoder
  try_decrypt_chunks d = elim d.dec_salt [
    | some salt ↦
        let (chunks, status, nonce, buf) = decrypt_loop (length d.buf) salt d.dec_nonce d.buf in
        (chunks, status, record { dec_salt = some salt; dec_nonce = nonce; buf = buf })
    | none ↦
        let salt = take c.salt_len d.buf in
        let rest = drop c.salt_len d.buf in
        let (chunks, status, nonce, buf) = decrypt_loop (length rest) salt d.dec_nonce rest in
        if ltb (length d.buf) c.salt_len
        then ([], waiting, d)
        else (chunks, status, record { dec_salt = some salt; dec_nonce = nonce; buf = buf })
  ]
