-- ===== src/Relay/Uplink/Cases.antt =====
-- The ways in which a packet can be served (`packet_up_upload` of
-- core/voidz_core/relay/xhttp.py).
use voidz.Prelude.{
  ℕ, ◌+◌, ◌≡◌, ◌≢◌, inl, inr, ◌++◌, none, some, eqb, arith, Option-cases, Bool-cases,
}
use voidz.Prelude.Result.{ok, ◌>>=◌, >>=-eq-ok}
use voidz.Relay.Bytes.{Bytes}
use voidz.Relay.Uplink.{Session, Writer, buffer, write, drain_from, packet}

-- The session goes on as it was, the packet is buffered, or it is next and goes out.
pub data Served (seq : ℕ) (body : Bytes) (s u : Session) : Type 0 where
  opening : seq ≡ 0 → s.writer ≡ none → u ≡ s → Served seq body s u
  early : seq ≢ 0 → s.writer ≡ none → buffer seq body s ≡ ok u → Served seq body s u
  apart :
      (w : Writer)
      → s.writer ≡ some w
      → seq ≢ s.next_seq
      → buffer seq body s ≡ ok u
      → Served seq body s u
  next :
      (w : Writer)
      → s.writer ≡ some w
      → seq ≡ s.next_seq
      → drain_from (seq + 1) (record w { sent = w.sent ++ body }) s ≡ ok u
      → Served seq body s u

pub write-eq_ok :
    (w : Writer) (body : Bytes) (w' : Writer)
    → write w body ≡ ok w'
    → w' ≡ record w { sent = w.sent ++ body }
unfolding write
write-eq_ok w body w' h = ground arith

sent_on :
    (w : Writer) (seq : ℕ) (body : Bytes) (s u : Session)
    → (do w' ← write w body; drain_from (seq + 1) w' s) ≡ ok u
    → drain_from (seq + 1) (record w { sent = w.sent ++ body }) s ≡ ok u
sent_on w seq body s u h =
    let (w', wrote, rest) = >>=-eq-ok (write w body) (λ w₁. drain_from (seq + 1) w₁ s) h in
    rw (write-eq_ok w body w' wrote) at rest

pub packet-Served :
    (seq : ℕ) (body : Bytes) (s u : Session) → packet seq body s ≡ ok u → Served seq body s u
unfolding packet
packet-Served seq body s u h = elim (Option-cases s.writer) [
  | inl closed ↦ elim (Bool-cases (eqb seq 0)) [
    | inl first ↦ opening (ground arith) closed (ground arith)
    | inr later ↦ early (ground arith) closed (ground arith)
  ]
  | inr (w, there) ↦ elim (Bool-cases (eqb seq s.next_seq)) [
    | inl is_next ↦
        next w there (ground arith) (sent_on w seq body s u (rw (there, packet, is_next) at h))
    | inr other ↦ apart w there (ground arith) (ground arith)
  ]
]
