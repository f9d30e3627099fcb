-- ===== src/Relay/Uplink/Drain.antt =====
-- The stream of a session, and what the loop over its buffer sends of it
-- (core/voidz_core/relay/xhttp.py).
use voidz.Prelude.{
  ℕ, zero, suc, ◌+◌, ◌≤◌, ◌<◌, ◌≡◌, ◌⊎◌, inl, inr, refl, [], ◌∷◌, ◌++◌, none, some, length, nat_eq,
  eqb, arith, Option-cases, Bool-cases,
}
use mathlib.Core.Path.{subst}
use voidz.Prelude.Dict
use voidz.Prelude.Dict.{Dict, get-put, get-remove, length-remove-lt}
use voidz.Prelude.Result.{Result, ok, >>=-eq-ok}
use voidz.Relay.Bytes.{Bytes}
use voidz.Relay.Uplink.{Session, Writer, write, drain, drain_from}
use voidz.Relay.Uplink.Cases.{write-eq_ok}

-- `payload` is what follows the header in packet 0, and `pkt n` is the body of packet n.
module _ (payload : Bytes) (pkt : ℕ → Bytes) where
  -- The stream up to packet n.
  unfoldable pub stream : ℕ → Bytes
  stream zero = payload
  stream (suc n) = stream n ++ pkt (suc n)

  -- Every buffered body is that of its packet.
  abbrev pub Held : Dict ℕ Bytes → Type 0
  Held buf = (k : ℕ) (b : Bytes) → Dict.get k buf ≡ some b → b ≡ pkt k

  -- What the loop does with a buffer from packet n on: it takes the packets up to m.
  pub record Drained (n m : ℕ) (buf left : Dict ℕ Bytes) : Type 0 where
    pub grows : n ≤ m
    pub stops : Dict.get (suc m) left ≡ none
    pub sub : (k : ℕ) (b : Bytes) → Dict.get k left ≡ some b → Dict.get k buf ≡ some b
    pub rest : (k : ℕ) (b : Bytes) → Dict.get k buf ≡ some b → (k ≤ m) ⊎ (Dict.get k left ≡ some b)
    pub taken : (k : ℕ) → n < k → k ≤ m → (b : Bytes) × (Dict.get k buf ≡ some b)

  Drained-none : (n : ℕ) (buf : Dict ℕ Bytes) → Dict.get (suc n) buf ≡ none → Drained n n buf buf
  Drained-none n buf h = record {
    grows = omega arith;
    stops = h;
    sub = λ k b there. there;
    rest = λ k b there. inr there;
    taken = λ k low high. absurd (omega arith);
  }

  Drained-some :
      {n m : ℕ} {buf left : Dict ℕ Bytes} (b : Bytes)
      → Dict.get (suc n) buf ≡ some b
      → Drained (suc n) m (Dict.remove (suc n) buf) left
      → Drained n m buf left
  Drained-some {n} {m} {buf} {left} b there d = record {
    grows = omega (arith, d.grows);
    stops = d.stops;
    sub = λ k c h. ground (arith, d.sub k c h, get-remove (suc n) k buf);
    rest = λ k c h. ground (arith, d.rest k c, d.grows, get-remove (suc n) k buf);
    taken = λ k low high. elim (Bool-cases (eqb (suc n) k)) [
      | inl same ↦ (b, ground (arith, there))
      | inr other ↦
          let (c, h) = d.taken k (ground arith) high in
          (c, ground (arith, h, get-remove (suc n) k buf))
    ];
  }

  -- The loop sends the packets that it takes, in sequence, and stops at the first that is missing.
  drain-Drained :
      (fuel n nxt : ℕ) (w : Writer) (buf : Dict ℕ Bytes) (k : ℕ) (w' : Writer) (left : Dict ℕ Bytes)
      → nxt ≡ suc n
      → length buf ≤ fuel
      → w.sent ≡ stream n
      → Held buf
      → drain fuel nxt w buf ≡ ok (k, w', left)
      → (m : ℕ) × (k ≡ suc m) × (w'.sent ≡ stream m) × Drained n m buf left
  unfolding drain stream
  drain-Drained zero n nxt w [] k w' left is_next room sent held h = (
    n,
    ground arith,
    ground arith,
    rw (← left_same) (Drained-none n [] (unfold Dict.get in refl)),
  )
    where
      left_same : [] ≡ left
      left_same = ground arith
  drain-Drained zero n nxt w (e ∷ buf) k w' left is_next room sent held h = absurd (omega arith)
  drain-Drained (suc fuel) n nxt w buf k w' left is_next room sent held h =
      elim (Option-cases (Dict.get nxt buf)) [
        | inl absent ↦
            let same : ◌≡◌ {A = Result (ℕ × Writer × Dict ℕ Bytes)} (ok (nxt, w, buf))
                (ok (k, w', left)) =
              rw (absent, drain) at h in
            let left_same : buf ≡ left = ground arith in
            (
              n,
              ground arith,
              ground arith,
              rw (← left_same) (Drained-none n buf (rw (← is_next) absent)),
            )
        | inr (pending, there) ↦
            let (w₁, wrote, rest) =
              >>=-eq-ok (write w pending) (λ w₂. drain fuel (nxt + 1) w₂ (Dict.remove nxt buf))
                (rw (there, drain) at h) in
            let body : pending ≡ pkt (suc n) = rw (← is_next) (held nxt pending there) in
            let (m, k_is, sent_m, d) =
              drain-Drained fuel (suc n) (nxt + 1) w₁ (Dict.remove nxt buf) k w' left (omega arith)
                (omega (arith, length-remove-lt nxt pending buf there))
                (ground (arith, write-eq_ok w pending w₁ wrote, body))
                (λ j b h'. held j b (ground (arith, h', get-remove nxt j buf))) rest in
            (
              m,
              k_is,
              sent_m,
              Drained-some pending (rw (← is_next) there)
                  (subst (λ (x : ℕ). Drained (suc n) m (Dict.remove x buf) left) is_next d),
            )
      ]

  pub drain_from-Drained :
      (n nxt : ℕ) (w : Writer) (s u : Session)
      → nxt ≡ suc n
      → w.sent ≡ stream n
      → Held s.seq_buf
      → drain_from nxt w s ≡ ok u
      → (m : ℕ) × (w' : Writer) × (u.writer ≡ some w')
        × (u.next_seq ≡ suc m)
        × (w'.sent ≡ stream m)
        × Drained n m s.seq_buf u.seq_buf
  unfolding drain_from
  drain_from-Drained n nxt w s u is_next sent held h =
      let ((k, w', left), drained, same) =
        >>=-eq-ok (drain (length s.seq_buf) nxt w s.seq_buf)
          (λ r. ok (record s { writer = some r.1; seq_buf = r.2; next_seq = r.0 })) h in
      let (m, k_is, sent_m, d) =
        drain-Drained (length s.seq_buf) n nxt w s.seq_buf k w' left is_next (omega arith) sent held
          drained in
      let left_is : left ≡ u.seq_buf = ground arith in
      (
        m,
        w',
        ground arith,
        ground arith,
        sent_m,
        subst (λ (x : Dict ℕ Bytes). Drained n m s.seq_buf x) left_is d,
      )
