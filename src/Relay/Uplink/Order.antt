-- ===== src/Relay/Uplink/Order.antt =====
-- The target gets the packets of a session in sequence, whatever order they come in
-- (core/voidz_core/relay/xhttp.py).
use voidz.Prelude.{
  ℕ, suc, ◌+◌, ◌≤◌, ◌≡◌, inl, inr, refl, sym, ◌∙◌, true, false, List, [], ◌∷◌, ◌++◌, none, some,
  contains, nat_eq, eqb, arith, Bool-cases,
}
use voidz.Prelude.Dict
use voidz.Prelude.Dict.{Dict, get-put, get-remove, length-remove-lt}
use voidz.Prelude.Result.{ok}
use voidz.Relay.Bytes.{Bytes}
use voidz.Relay.Uplink.{Session, Writer, fresh, drain_from, connected, packet}
use voidz.Relay.Uplink.Cases.{Served, opening, early, apart, next, packet-Served}
use voidz.Relay.Uplink.Drain.{stream}
use voidz.Relay.Uplink.Invariant.{Open, Inv, buffer-Inv, drained-Inv}

module _ (payload : Bytes) (pkt : ℕ → Bytes) where
  -- A session that has come about by packets and by one opening of its connection, with the
  -- numbers of the packets that came.
  pub data Reach : List ℕ → Session → Type 0 where
    begin : Reach [] fresh
    came :
        {got : List ℕ} {s u : Session} (seq : ℕ)
        → Reach got s
        → packet seq (pkt seq) s ≡ ok u
        → Reach (seq ∷ got) u
    open_to :
        {got : List ℕ} {s u : Session}
        → Reach got s
        → s.writer ≡ none
        → connected payload s ≡ ok u
        → Reach got u

  -- the first packet again, while the connection opens
  opening-Inv :
      (got : List ℕ) (s : Session)
      → s.writer ≡ none
      → Inv payload pkt got s
      → Inv payload pkt (0 ∷ got) s
  unfolding contains
  opening-Inv got s closed v = record {
    held = v.held;
    known = λ k b there. ground (arith, v.known k b there);
    kept = λ k came low. v.kept k (ground (arith, came)) low;
    phase = elim v.phase [ inl before ↦ inl before | inr (n, o) ↦ absurd (cc (o.is_open, closed)) ];
  }

  next-Inv :
      (got : List ℕ) (seq n : ℕ) (w : Writer) (s u : Session)
      → s.writer ≡ some w
      → seq ≡ s.next_seq
      → drain_from (seq + 1) (record w { sent = w.sent ++ pkt seq }) s ≡ ok u
      → Open payload pkt got s n
      → Inv payload pkt got s
      → Inv payload pkt (seq ∷ got) u
  unfolding contains stream
  next-Inv got seq n w s u there is_next h o v =
      let number : seq ≡ suc n = is_next ∙ o.is_next in
      let same : o.writer ≡ w = ground (arith, o.is_open) in
      drained-Inv payload pkt (seq ∷ got) (suc n) (seq + 1) (record w { sent = w.sent ++ pkt seq })
        s u (omega arith) (ground (arith, o.sent)) v.held
        (λ k b held. ground (arith, v.known k b held))
        (λ k came low. elim (Bool-cases (eqb seq k)) [
          | inl this ↦ inl (ground arith)
          | inr other ↦ elim (v.kept k (ground (arith, came)) low) [
            | inl before ↦ inl (omega (arith, o.is_next))
            | inr held ↦ inr held
          ]
        ])
        (λ k low high. elim (Bool-cases (eqb seq k)) [
          | inl this ↦ ground arith
          | inr other ↦ ground (arith, o.all_in k low (ground arith))
        ])
        h

  Served-Inv :
      (got : List ℕ) (seq : ℕ) {s u : Session}
      → Served seq (pkt seq) s u
      → Inv payload pkt got s
      → Inv payload pkt (seq ∷ got) u
  unfolding contains
  Served-Inv got seq {s} {u} (opening first closed same) v =
      rw (first, same) (opening-Inv got s closed v)
  Served-Inv got seq {s} {u} (early later closed h) v =
      buffer-Inv payload pkt got seq s u (λ n o. absurd (cc (o.is_open, closed))) h v
  Served-Inv got seq {s} {u} (apart w there other h) v =
      buffer-Inv payload pkt got seq s u (λ n o e. other (e ∙ sym o.is_next)) h v
  Served-Inv got seq {s} {u} (next w there is_next h) v = elim v.phase [
    | inl (closed, _) ↦ absurd (cc (there, closed))
    | inr (n, o) ↦ next-Inv got seq n w s u there is_next h o v
  ]

  connected-Inv :
      (got : List ℕ) (s u : Session)
      → s.writer ≡ none
      → connected payload s ≡ ok u
      → Inv payload pkt got s
      → Inv payload pkt got u
  unfolding connected stream
  connected-Inv got s u closed h v = elim v.phase [
    | inl (_, at_zero) ↦
        drained-Inv payload pkt got 0 1 (record { sent = payload; is_closing = false }) s u refl
          refl v.held v.known
          (λ k came low. elim (v.kept k came low) [
            | inl before ↦ absurd (omega arith)
            | inr held ↦ inr held
          ])
          (λ k low high. absurd (omega arith)) h
    | inr (n, o) ↦ absurd (cc (o.is_open, closed))
  ]

  Reach-Inv : {got : List ℕ} {s : Session} → Reach got s → Inv payload pkt got s
  Reach-Inv begin =
      unfold contains Dict.get in
      record {
        held = λ k b there. absurd (cc there);
        known = λ k b there. absurd (cc there);
        kept = λ k came low. absurd (cc came);
        phase = inl (refl, refl);
      }
  Reach-Inv (came {got} {s} {u} seq r h) =
      Served-Inv got seq (packet-Served seq (pkt seq) s u h) (Reach-Inv r)
  Reach-Inv (open_to {got} {s} {u} r closed h) = connected-Inv got s u closed h (Reach-Inv r)

-- Take a session whose packet n always has the body `pkt n`, in whatever order and however often
-- the packets came, and whose connection was opened once, for the first packet, at any time. What
-- the target has got is then the payload of the first packet and the packets 1 to n in sequence,
-- for the n with these packets received and packet n + 1 not received; `next_seq` is n + 1.
pub sent_in_order :
    (payload : Bytes) (pkt : ℕ → Bytes) (got : List ℕ) (s : Session) (w : Writer)
    → Reach payload pkt got s
    → s.writer ≡ some w
    → (n : ℕ) × (w.sent ≡ stream payload pkt n)
      × (s.next_seq ≡ suc n)
      × ((k : ℕ) → 1 ≤ k → k ≤ n → contains got k ≡ true)
      × (contains got (suc n) ≡ false)
sent_in_order payload pkt got s w r there = elim (Reach-Inv payload pkt r).phase [
  | inl (closed, _) ↦ absurd (cc (there, closed))
  | inr (n, o) ↦
      let v = Reach-Inv payload pkt r in
      (
        n,
        ground (arith, o.sent, o.is_open),
        o.is_next,
        o.all_in,
        elim (Bool-cases (contains got (suc n))) [
          | inl in_it ↦ elim (v.kept (suc n) in_it (omega arith)) [
            | inl before ↦ absurd (omega (arith, o.is_next))
            | inr (b, held) ↦ absurd (cc (held, o.stops))
          ]
          | inr missing ↦ missing
        ],
      )
]
