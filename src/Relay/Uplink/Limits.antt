-- ===== src/Relay/Uplink/Limits.antt =====
-- The memory that the upload buffer of a session holds (core/voidz_core/relay/xhttp.py).
use voidz.Prelude.{
  ℕ, zero, suc, ◌+◌, ◌≤◌, ◌≡◌, List, [], ◌∷◌, some, length, nat_eq, arith, Option-cases, inl, inr,
}
use voidz.Prelude.Dict
use voidz.Prelude.Dict.{Dict, total, length-put, total-put-le, length-remove-le, total-remove-le}
use voidz.Prelude.Result.{ok, >>=-eq-ok}
use voidz.Relay.Bytes.{Bytes}
use voidz.Relay.Uplink.Cases.{Served, opening, early, apart, next, packet-Served}
use voidz.Relay.Uplink.{
  Session, Writer, buffer, write, drain, drain_from, connected, Event, upload, opened, handle,
  serve, max_seq_buf_entries, max_seq_buf_bytes,
}

-- The buffer is within its two caps, and holds no more bytes than are counted.
pub record InLimits (s : Session) : Type 0 where
  pub entries : length s.seq_buf ≤ max_seq_buf_entries
  pub bytes : s.seq_buf_bytes ≤ max_seq_buf_bytes
  pub held : total length s.seq_buf ≤ s.seq_buf_bytes

buffer-InLimits :
    (seq : ℕ) (body : Bytes) {s u : Session} → buffer seq body s ≡ ok u → InLimits s → InLimits u
unfolding buffer
buffer-InLimits seq body {s} {u} h v =
    ground (arith, length-put seq body s.seq_buf, total-put-le length seq body s.seq_buf)

drain_shrinks :
    (fuel nxt : ℕ) (w : Writer) (buf : Dict ℕ Bytes) {n : ℕ} {w' : Writer} {left : Dict ℕ Bytes}
    → drain fuel nxt w buf ≡ ok (n, w', left)
    → (length left ≤ length buf) × (total length left ≤ total length buf)
unfolding drain
drain_shrinks zero nxt w buf h = ground arith
drain_shrinks (suc fuel) nxt w buf h = elim (Option-cases (Dict.get nxt buf)) [
  | inl absent ↦ ground arith
  | inr (pending, there) ↦
      let (w₁, wrote, rest) =
        >>=-eq-ok (write w pending) (λ w₂. drain fuel (nxt + 1) w₂ (Dict.remove nxt buf))
          (rw (there, drain) at h) in
      let (fewer, less) = drain_shrinks fuel (nxt + 1) w₁ (Dict.remove nxt buf) rest in
      omega (arith, fewer, less, length-remove-le nxt buf, total-remove-le length nxt buf)
]

drain_from-InLimits :
    (nxt : ℕ) (w : Writer) {s u : Session} → drain_from nxt w s ≡ ok u → InLimits s → InLimits u
unfolding drain_from
drain_from-InLimits nxt w {s} {u} h v =
    let ((n, w', left), drained, same) =
      >>=-eq-ok (drain (length s.seq_buf) nxt w s.seq_buf)
        (λ r. ok (record s { writer = some r.1; seq_buf = r.2; next_seq = r.0 })) h in
    let (fewer, less) = drain_shrinks (length s.seq_buf) nxt w s.seq_buf drained in ground arith

Served-InLimits :
    (seq : ℕ) (body : Bytes) {s u : Session} → Served seq body s u → InLimits s → InLimits u
Served-InLimits seq body (opening _ _ same) v = rw same v
Served-InLimits seq body (early _ _ h) v = buffer-InLimits seq body h v
Served-InLimits seq body (apart w _ _ h) v = buffer-InLimits seq body h v
Served-InLimits seq body (next w _ _ h) v = drain_from-InLimits (seq + 1) _ h v

handle-InLimits : (e : Event) {s u : Session} → handle e s ≡ ok u → InLimits s → InLimits u
unfolding handle connected
handle-InLimits (upload seq body) h v = Served-InLimits seq body (packet-Served seq body _ _ h) v
handle-InLimits (opened payload) h v = drain_from-InLimits 1 _ h v

-- Whatever packets come to a session and whenever its connection opens, until an exception ends
-- it the upload buffer holds at most 256 packets and at most 4 MiB.
pub serve-InLimits :
    (events : List Event) {s u : Session} → serve events s ≡ ok u → InLimits s → InLimits u
unfolding serve
serve-InLimits [] {s} {u} h v = ground (arith, v.entries, v.bytes, v.held)
serve-InLimits (e ∷ rest) {s} h v =
    let (s₁, handled, later) = >>=-eq-ok (handle e s) (serve rest) h in
    serve-InLimits rest later (handle-InLimits e handled v)
