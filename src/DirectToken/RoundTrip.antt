-- ===== src/DirectToken/RoundTrip.antt =====
-- Which tokens `decode` accepts (worker/voidz_worker/direct_token.py).
use voidz.Prelude.{
  ◌+◌, ◌-◌, ◌<◌, ◌≡◌, refl, sym, ap, ◌∙◌, ◌↔◌, ◌++◌, none, some, length, take, drop, leb, leb-false,
  ◌==◌, ==_iff, ==_refl, nat_eq, list_eq, arith, length-append, length-take, take_prefix,
  drop_prefix, take-append-drop, Bool-cases, inl, inr,
}
use voidz.DirectToken.{Text, Hmac, tag_of, encode, decode}

module _ (hmac : Hmac) where
  length-tag_of : (id key : Text) → length (tag_of hmac id key) ≡ 24
  unfolding tag_of
  length-tag_of id key =
      let digest = hmac.hexdigest key id in
      omega (arith, length-take 24 digest, hmac.length-hexdigest key id)

  length-encode : (id key : Text) → length (encode hmac id key) ≡ length id + 24
  unfolding encode
  length-encode id key = omega (arith, length-append id (tag_of hmac id key), length-tag_of id key)

  decode-encode_lem :
      (id key : Text) → 0 < length id → decode hmac (encode hmac id key) key ≡ some id
  unfolding encode decode
  decode-encode_lem id key positive =
      let tag = tag_of hmac id key in
      let size : length (id ++ tag) - 24 ≡ length id = omega (arith, length-encode id key) in
      rw (
        leb-false (length (id ++ tag)) 24 (omega (arith, length-encode id key)),
        size,
        drop_prefix id tag (length id) refl,
        take_prefix id tag (length id) refl,
        ==_refl tag,
        decode,
      )

  -- What is accepted is an encoding.
  decode-some :
      (token key id : Text)
      → decode hmac token key ≡ some id
      → (token ≡ encode hmac id key) × (0 < length id)
  unfolding decode encode
  decode-some token key id h =
      let head = take (length token - 24) token in
      let tail = drop (length token - 24) token in
      elim (Bool-cases (leb (length token) 24)) [
        | inl short ↦ let found : none ≡ some id = rw (short, decode) at h in cc
        | inr long ↦ elim (Bool-cases (tail == tag_of hmac head key)) [
          | inl same ↦
              let found : some head ≡ some id = rw (long, same, decode) at h in
              let is_head : head ≡ id = cc in
              let is_tail : tail ≡ tag_of hmac head key =
                (==_iff tail (tag_of hmac head key)).0 same in
              (
                sym (take-append-drop (length token - 24) token)
                    ∙ ap (◌++◌ head) is_tail
                    ∙ ap (λ (x : Text). x ++ tag_of hmac x key) is_head,
                ground (arith, long, length-take (length token - 24) token, ap length is_head),
              )
          | inr other ↦ let found : none ≡ some id = rw (long, other, decode) at h in cc
        ]
      ]

-- The worker accepts exactly the tokens that the console makes with the same secret for an
-- instance whose id is not empty, and gives back that id.
pub decode_exact :
    (hmac : Hmac) (token key id : Text)
    → (decode hmac token key ≡ some id) ↔ ((token ≡ encode hmac id key) × (0 < length id))
decode_exact hmac token key id = (
  decode-some hmac token key id,
  λ e. ap (λ (t : Text). decode hmac t key) (e.0) ∙ decode-encode_lem hmac id key e.1,
)
