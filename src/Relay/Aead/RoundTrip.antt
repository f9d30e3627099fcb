-- ===== src/Relay/Aead/RoundTrip.antt =====
-- A decoder gets back the payloads of an encoder (core/voidz_core/relay/shadowsocks.py).
use voidz.Prelude.{
  ℕ, zero, suc, ◌+◌, ◌*◌, ◌/◌, ◌%◌, ◌≤◌, ◌<◌, ◌≡◌, refl, sym, ap, Bool, true, false, List, [], ◌∷◌,
  ◌++◌, some, length, take, lt→ltb, ltb-false, arith, All, append_assoc, length-append, take_prefix,
  drop_prefix, if◌then◌else◌,
}
use native.Mathlib.Nat.{zero-add}
use voidz.Prelude.Result.{ok, ◌>>=◌}
use voidz.Relay.Bytes.{Bytes, to_big2-eq_ok, from_big-to_big2}
use voidz.Relay.Aead.{
  Cipher, waiting, new_decoder, feed, encrypt_chunk, encrypt_all, new_encoder, payload_part,
  decrypt_loop, try_decrypt_chunks, tag_len, max_chunk,
}

module _ (c : Cipher) (salt : Bytes) where
  abbrev pub two_bytes : ℕ → Bytes
  two_bytes n = (n / 256) ∷ (n % 256) ∷ []

  -- the sealed chunk of a payload at a nonce
  abbrev pub sealed : ℕ → Bytes → Bytes
  sealed nonce p = c.seal salt nonce (two_bytes (length p)) ++ c.seal salt (nonce + 1) p

  pub length-sealed :
      (nonce : ℕ) (p rest : Bytes) → length (sealed nonce p ++ rest) ≡ 34 + length p + length rest
  length-sealed nonce p rest = omega (
    arith,
    length-append (sealed nonce p) rest,
    length-append (c.seal salt nonce (two_bytes (length p))) (c.seal salt (nonce + 1) p),
    c.length-seal salt nonce (two_bytes (length p)),
    c.length-seal salt (nonce + 1) p,
  )

  pub length_part :
      (nonce : ℕ) (p rest : Bytes)
      → take 18 (sealed nonce p ++ rest) ≡ c.seal salt nonce (two_bytes (length p))
  length_part nonce p rest =
      let first = c.seal salt nonce (two_bytes (length p)) in
      rw (append_assoc first (c.seal salt (nonce + 1) p) rest) (
        take_prefix first (c.seal salt (nonce + 1) p ++ rest) 18
          (sym (c.length-seal salt nonce (two_bytes (length p)))))

  payload_part-sealed :
      (nonce : ℕ) (p rest : Bytes)
      → payload_part c salt (nonce + 1) (sealed nonce p ++ rest) (length p) ≡ some (p, rest)
  unfolding payload_part
  payload_part-sealed nonce p rest =
      let first = c.seal salt nonce (two_bytes (length p)) in
      let second = c.seal salt (nonce + 1) p in
      let size : length p + 16 ≡ length second = sym (c.length-seal salt (nonce + 1) p) in
      rw (
        append_assoc first second rest,
        drop_prefix first (second ++ rest) 18
            (sym (c.length-seal salt nonce (two_bytes (length p)))),
        take_prefix second rest (length p + 16) size,
        c.unseal-seal salt (nonce + 1) p,
        append_assoc first second rest,
        drop_prefix first (second ++ rest) 18
            (sym (c.length-seal salt nonce (two_bytes (length p)))),
        drop_prefix second rest (length p + 16) size,
        payload_part,
      )

  -- One round of the loop on a whole chunk.
  decrypt_loop-sealed :
      (fuel nonce : ℕ) (p rest : Bytes)
      → length p ≤ max_chunk
      → decrypt_loop c (suc fuel) salt nonce (sealed nonce p ++ rest)
        ≡ (let r = decrypt_loop c fuel salt (nonce + 1 + 1) rest in (p ∷ r.0, r.1, r.2, r.3))
  unfolding decrypt_loop
  decrypt_loop-sealed fuel nonce p rest small = rw (
    ltb-false (length (sealed nonce p ++ rest)) 18 (omega (arith, length-sealed nonce p rest)),
    length_part nonce p rest,
    c.unseal-seal salt nonce (two_bytes (length p)),
    from_big-to_big2 (length p),
    ltb-false 0x3FFF (length p) small,
    from_big-to_big2 (length p),
    ltb-false (length (sealed nonce p ++ rest)) (2 + 16 + length p + 16)
        (omega (arith, length-sealed nonce p rest)),
    from_big-to_big2 (length p),
    payload_part-sealed nonce p rest,
    decrypt_loop,
  )

  -- the sealed chunks of payloads, one after another
  unfoldable wire : ℕ → List Bytes → Bytes
  wire nonce [] = []
  wire nonce (p ∷ ps) = sealed nonce p ++ wire (nonce + 1 + 1) ps

  length-wire : (nonce : ℕ) (ps : List Bytes) → length ps ≤ length (wire nonce ps)
  unfolding wire
  length-wire nonce [] = omega arith
  length-wire nonce (p ∷ ps) =
      omega (arith, length-wire (nonce + 1 + 1) ps, length-sealed nonce p (wire (nonce + 1 + 1) ps))

  pub encrypt_chunk-sealed :
      (nonce : ℕ) (sent : Bool) (p : Bytes)
      → length p ≤ max_chunk
      → encrypt_chunk c p (record { enc_salt = salt; enc_nonce = nonce; enc_salt_sent = sent })
        ≡ ok (
          (if sent then [] else salt) ++ sealed nonce p,
          record { enc_salt = salt; enc_nonce = nonce + 1 + 1; enc_salt_sent = true },
        )
  unfolding encrypt_chunk
  encrypt_chunk-sealed nonce sent p small =
      rw (to_big2-eq_ok (length p) (omega arith), encrypt_chunk, ◌>>=◌)

  encrypt_all-wire :
      (nonce : ℕ) (ps : List Bytes)
      → All (λ p. length p ≤ max_chunk) ps
      → encrypt_all c ps (record { enc_salt = salt; enc_nonce = nonce; enc_salt_sent = true })
        ≡ ok (wire nonce ps)
  unfolding encrypt_all wire
  encrypt_all-wire nonce [] small = refl
  encrypt_all-wire nonce (p ∷ ps) small = rw (
    encrypt_chunk-sealed nonce true p small.0,
    encrypt_all-wire (nonce + 1 + 1) ps small.1,
    encrypt_all,
    ◌>>=◌,
  )

  -- The loop takes every whole chunk, and leaves a tail shorter than a length part.
  decrypt_loop-wire :
      (fuel nonce : ℕ) (ps : List Bytes) (tail : Bytes)
      → All (λ p. length p ≤ max_chunk) ps
      → length tail < 18
      → length ps ≤ fuel
      → decrypt_loop c fuel salt nonce (wire nonce ps ++ tail)
        ≡ (ps, waiting, nonce + 2 * length ps, tail)
  unfolding wire decrypt_loop
  decrypt_loop-wire zero nonce [] tail small short enough =
      ap (λ (n : ℕ). ([], waiting, n, tail)) (omega arith)
  decrypt_loop-wire (suc fuel) nonce [] tail small short enough =
      rw (lt→ltb (length tail) 18 short, decrypt_loop)
        (ap (λ (n : ℕ). ([], waiting, n, tail)) (omega arith))
  decrypt_loop-wire zero nonce (p ∷ ps) tail small short enough = absurd (omega arith)
  decrypt_loop-wire (suc fuel) nonce (p ∷ ps) tail small short enough =
      let later = wire (nonce + 1 + 1) ps in
      let next_nonce : nonce + 1 + 1 + 2 * length ps ≡ nonce + 2 * suc (length ps) = omega arith in
      rw (
        append_assoc (sealed nonce p) later tail,
        decrypt_loop-sealed fuel nonce p (later ++ tail) small.0,
        decrypt_loop-wire fuel (nonce + 1 + 1) ps tail small.1 short (omega arith),
        next_nonce,
      )

-- A stream's first chunk carries the salt. A fresh decoder that is fed what an encoder made of
-- payloads of at most 0x3FFF bytes, and less than a length part after it, yields the payloads and
-- keeps the rest.
pub decrypt-encrypt :
    (c : Cipher) (salt : Bytes) (p : Bytes) (ps : List Bytes) (tail : Bytes)
    → length salt ≡ c.salt_len
    → All (λ q. length q ≤ max_chunk) (p ∷ ps)
    → length tail < 2 + tag_len
    → (stream : Bytes) × (encrypt_all c (p ∷ ps) (new_encoder salt) ≡ ok stream)
      × (try_decrypt_chunks c (feed (stream ++ tail) new_decoder) ≡ (
        p ∷ ps,
        waiting,
        record { dec_salt = some salt; dec_nonce = 2 * length (p ∷ ps); buf = tail },
      ))
unfolding encrypt_all wire try_decrypt_chunks feed
decrypt-encrypt c salt p ps tail size small short =
    let all = wire c salt 0 (p ∷ ps) in
    (
      salt ++ all,
      rw
          (
            encrypt_chunk-sealed c salt 0 false p small.0,
            encrypt_all-wire c salt 2 ps small.1,
            encrypt_all,
            ◌>>=◌,
          )
          (ap (λ (b : Bytes). ok b) (append_assoc salt (sealed c salt 0 p) (wire c salt 2 ps))),
      rw (
        append_assoc salt all tail,
        ltb-false (length (salt ++ (all ++ tail))) c.salt_len
            (omega (arith, length-append salt (all ++ tail))),
        take_prefix salt (all ++ tail) c.salt_len (sym size),
        drop_prefix salt (all ++ tail) c.salt_len (sym size),
        decrypt_loop-wire c salt (length (all ++ tail)) 0 (p ∷ ps) tail small short
            (omega (arith, length-append all tail, length-wire c salt 0 (p ∷ ps))),
        zero-add,
      ),
    )
