-- ===== src/Relay/Uplink/Invariant.antt =====
-- The invariant of a session whose packets come in any order, through its buffer and the loop
-- over it (core/voidz_core/relay/xhttp.py).
use voidz.Prelude.{
  ℕ, suc, ◌≤◌, ◌<◌, ◌≡◌, ◌≢◌, ◌⊎◌, inl, inr, ◌∙◌, true, List, ◌∷◌, none, some, contains, nat_eq,
  eqb, leb, arith, Bool-cases, if◌then◌else◌,
}
use voidz.Prelude.Dict
use voidz.Prelude.Dict.{Dict, get-put, get-remove, length-remove-lt}
use voidz.Prelude.Result.{ok}
use voidz.Relay.Bytes.{Bytes}
use voidz.Relay.Uplink.{Session, Writer, buffer, drain_from}
use voidz.Relay.Uplink.Drain.{stream, Held, drain_from-Drained}

module _ (payload : Bytes) (pkt : ℕ → Bytes) where
  -- Before the connection nothing is sent; after it, the stream payload pkt up to packet n, where n + 1 is
  -- the first packet that has not come.
  pub record Open (got : List ℕ) (s : Session) (n : ℕ) : Type 0 where
    pub writer : Writer
    pub is_open : s.writer ≡ some writer
    pub is_next : s.next_seq ≡ suc n
    pub sent : writer.sent ≡ stream payload pkt n
    pub stops : Dict.get (suc n) s.seq_buf ≡ none
    pub all_in : (k : ℕ) → 1 ≤ k → k ≤ n → contains got k ≡ true

  pub record Inv (got : List ℕ) (s : Session) : Type 0 where
    pub held : Held payload pkt s.seq_buf
    pub known : (k : ℕ) (b : Bytes) → Dict.get k s.seq_buf ≡ some b → contains got k ≡ true
    pub kept :
        (k : ℕ)
        → contains got k ≡ true
        → 1 ≤ k
        → (k < s.next_seq) ⊎ ((b : Bytes) × (Dict.get k s.seq_buf ≡ some b))
    pub phase : (s.writer ≡ none) × (s.next_seq ≡ 0) ⊎ ((n : ℕ) × Open got s n)

  -- The loop after the first n packets are sent.
  pub drained-Inv :
      (got : List ℕ) (n nxt : ℕ) (w : Writer) (s u : Session)
      → nxt ≡ suc n
      → w.sent ≡ stream payload pkt n
      → Held payload pkt s.seq_buf
      → ((k : ℕ) (b : Bytes) → Dict.get k s.seq_buf ≡ some b → contains got k ≡ true)
      → ((k : ℕ)
          → contains got k ≡ true
          → 1 ≤ k
          → (k ≤ n) ⊎ ((b : Bytes) × (Dict.get k s.seq_buf ≡ some b)))
      → ((k : ℕ) → 1 ≤ k → k ≤ n → contains got k ≡ true)
      → drain_from nxt w s ≡ ok u
      → Inv got u
  drained-Inv got n nxt w s u is_next sent held known kept all_in h =
      let (m, w', is_open, next_is, sent_m, d) =
        drain_from-Drained payload pkt n nxt w s u is_next sent held h in
      record {
        held = λ k b there. held k b (d.sub k b there);
        known = λ k b there. known k b (d.sub k b there);
        kept = λ k came low. elim (kept k came low) [
          | inl before ↦ inl (omega (arith, d.grows))
          | inr (b, there) ↦ elim (d.rest k b there) [
            | inl gone ↦ inl (omega arith)
            | inr still ↦ inr (b, still)
          ]
        ];
        phase = inr (
          m,
          record {
            writer = w';
            is_open = is_open;
            is_next = next_is;
            sent = sent_m;
            stops = d.stops;
            all_in = λ k low high. elim (Bool-cases (leb k n)) [
              | inl before ↦ all_in k low (ground arith)
              | inr after ↦ let (b, there) = d.taken k (ground arith) high in known k b there
            ];
          },
        );
      }

  -- One packet more has come.
  abbrev pub more : ℕ → List ℕ → List ℕ
  more seq got = seq ∷ got

  pub buffer-Inv :
      (got : List ℕ) (seq : ℕ) (s u : Session)
      → ((n : ℕ) → Open got s n → seq ≢ suc n)
      → buffer seq (pkt seq) s ≡ ok u
      → Inv got s
      → Inv (more seq got) u
  unfolding buffer contains
  buffer-Inv got seq s u not_next h v =
      let lookup : (k : ℕ)
          → Dict.get k u.seq_buf ≡ (if eqb seq k then some (pkt seq) else Dict.get k s.seq_buf) =
        λ k. ground (arith, get-put seq k (pkt seq) s.seq_buf) in
      let same_writer : u.writer ≡ s.writer = ground arith in
      let same_next : u.next_seq ≡ s.next_seq = ground arith in
      record {
        held = λ k b there. ground (arith, lookup k, v.held k b);
        known = λ k b there. ground (arith, lookup k, v.known k b);
        kept = λ k came low. elim (Bool-cases (eqb seq k)) [
          | inl same ↦ inr (pkt seq, ground (arith, lookup k))
          | inr other ↦ elim (v.kept k (ground (arith, came)) low) [
            | inl before ↦ inl (omega arith)
            | inr (b, there) ↦ inr (b, ground (arith, lookup k))
          ]
        ];
        phase = elim v.phase [
          | inl (closed, at_zero) ↦ inl (same_writer ∙ closed, same_next ∙ at_zero)
          | inr (n, o) ↦ inr (
            n,
            record {
              writer = o.writer;
              is_open = same_writer ∙ o.is_open;
              is_next = same_next ∙ o.is_next;
              sent = o.sent;
              stops = ground (arith, lookup (suc n), o.stops, not_next n o);
              all_in = λ k low high. ground (arith, o.all_in k low high);
            },
          )
        ];
      }
