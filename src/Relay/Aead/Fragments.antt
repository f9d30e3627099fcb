-- ===== src/Relay/Aead/Fragments.antt =====
-- A chunk that arrives in two pieces (core/voidz_core/relay/shadowsocks.py).
use voidz.Prelude.{
  ℕ, zero, suc, ◌+◌, ◌-◌, ◌≤◌, ◌<◌, ◌≡◌, refl, sym, ap, ◌∙◌, true, List, [], ◌∷◌, ◌++◌, none, some,
  length, take, drop, ltb-false, lt→ltb, arith, append-nil, length-take, take-append-drop,
}
use voidz.Prelude.Result.{ok}
use voidz.Relay.Bytes.{Bytes, from_big-to_big2}
use voidz.Relay.Aead.{
  Cipher, encrypt_chunk, Decoder, waiting, failed, feed, decrypt_loop, try_decrypt_chunks,
  max_chunk,
}
use voidz.Relay.Aead.RoundTrip.{two_bytes, sealed, length-sealed, length_part, encrypt_chunk-sealed}

take-take {ℓ} : {A : Type ℓ} (i k : ℕ) (xs : List A) → i ≤ k → take i (take k xs) ≡ take i xs
take-take zero k xs h = refl
take-take (suc i) zero xs h = absurd (omega arith)
take-take (suc i) (suc k) [] h = refl
take-take (suc i) (suc k) (x ∷ xs) h = ap (◌∷◌ x) (take-take i k xs (omega arith))

module _ (c : Cipher) (salt : Bytes) (nonce : ℕ) (p : Bytes) where
  whole : length (sealed c salt nonce p) ≡ 34 + length p
  whole =
      let e : length (sealed c salt nonce p ++ []) ≡ 34 + length p + 0 =
        length-sealed c salt nonce p [] in
      let f : sealed c salt nonce p ++ [] ≡ sealed c salt nonce p =
        append-nil (sealed c salt nonce p) in
      omega (arith, ap length f, e)

  length_part-whole :
      take 18 (sealed c salt nonce p) ≡ c.seal salt nonce (two_bytes c salt (length p))
  length_part-whole =
      ap (take 18) (sym (append-nil (sealed c salt nonce p))) ∙ length_part c salt nonce p []

  -- The first piece ends inside the payload: the loop waits with the nonce moved on.
  loop-waits :
      (k fuel : ℕ)
      → length p ≤ max_chunk
      → 18 ≤ k
      → k < 34 + length p
      → decrypt_loop c (suc fuel) salt nonce (take k (sealed c salt nonce p))
        ≡ ([], waiting, nonce + 1, take k (sealed c salt nonce p))
  unfolding decrypt_loop
  loop-waits k fuel small long short =
      let piece = take k (sealed c salt nonce p) in
      let size : length piece ≡ k = omega (arith, length-take k (sealed c salt nonce p), whole) in
      rw (
        ltb-false (length piece) 18 (omega (arith, size)),
        take-take 18 k (sealed c salt nonce p) long,
        length_part-whole,
        c.unseal-seal salt nonce (two_bytes c salt (length p)),
        from_big-to_big2 (length p),
        ltb-false 0x3FFF (length p) small,
        from_big-to_big2 (length p),
        lt→ltb (length piece) (2 + 16 + length p + 16) (omega (arith, size)),
        decrypt_loop,
      )

  -- The next nonce does not open the length part.
  loop-fails :
      (fuel : ℕ)
      → c.unseal salt (nonce + 1) (c.seal salt nonce (two_bytes c salt (length p))) ≡ none
      → decrypt_loop c (suc fuel) salt (nonce + 1) (sealed c salt nonce p)
        ≡ ([], failed, nonce + 1, sealed c salt nonce p)
  unfolding decrypt_loop
  loop-fails fuel wrong = rw (
    ltb-false (length (sealed c salt nonce p)) 18 (omega (arith, whole)),
    length_part-whole,
    wrong,
    decrypt_loop,
  )

-- Where the nonce after the one a length part is sealed with does not open it, a chunk that
-- arrives in two pieces, the first with the whole length part but not the whole payload, is lost:
-- the decoder waits after the first piece, and fails after the second.
pub fragment_fails :
    (c : Cipher) (salt : Bytes) (nonce : ℕ) (p : Bytes) (k : ℕ)
    → length p ≤ max_chunk
    → 18 ≤ k
    → k < 34 + length p
    → c.unseal salt (nonce + 1) (c.seal salt nonce (two_bytes c salt (length p))) ≡ none
    → (chunk : Bytes) × (waits : Decoder) × (encrypt_chunk c p
          (record { enc_salt = salt; enc_nonce = nonce; enc_salt_sent = true })
        ≡ ok (chunk, record { enc_salt = salt; enc_nonce = nonce + 1 + 1; enc_salt_sent = true }))
      × (try_decrypt_chunks c
            (feed (take k chunk) (record { dec_salt = some salt; dec_nonce = nonce; buf = [] }))
          ≡ ([], waiting, waits))
      × (try_decrypt_chunks c (feed (drop k chunk) waits)
          ≡ ([], failed, record { dec_salt = some salt; dec_nonce = nonce + 1; buf = chunk }))
unfolding try_decrypt_chunks feed
fragment_fails c salt nonce p k small long short wrong =
    let chunk = sealed c salt nonce p in
    let piece = take k chunk in
    let size : length piece ≡ suc (k - 1) =
      omega (arith, length-take k chunk, whole c salt nonce p) in
    let size' : length chunk ≡ suc (33 + length p) = omega (arith, whole c salt nonce p) in
    (
      chunk,
      record { dec_salt = some salt; dec_nonce = nonce + 1; buf = piece },
      encrypt_chunk-sealed c salt nonce true p small,
      rw (size, loop-waits c salt nonce p k (k - 1) small long short),
      rw (take-append-drop k chunk, size', loop-fails c salt nonce p (33 + length p) wrong),
    )
