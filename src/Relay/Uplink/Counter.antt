-- ===== src/Relay/Uplink/Counter.antt =====
-- The byte counter of the upload buffer is never taken back (core/voidz_core/relay/xhttp.py).
use voidz.Prelude.{
  ℕ, ◌+◌, ◌≤◌, ◌<◌, ◌≡◌, ◌≢◌, refl, false, [], ◌∷◌, ◌++◌, some, length, arith, nat_eq,
}
use voidz.Prelude.Dict
use voidz.Prelude.Result.{ok, raise, connection_error}
use voidz.Relay.Bytes.{Bytes}
use voidz.Relay.Uplink.{
  Session, Writer, upload, serve, handle, packet, buffer, write, drain, drain_from,
  max_seq_buf_bytes,
}

-- Take an open session at packet n whose buffer is empty, and let packets n and n + 1 come in the
-- other order, the second one small enough for the counter. Both are sent and the buffer is empty
-- again, but `seq_buf_bytes` has grown by the size of the second: the counter measures all that
-- was ever buffered.
pub counter_grows :
    (s : Session) (w : Writer) (n : ℕ) (first second : Bytes)
    → s.writer ≡ some w
    → w.is_closing ≡ false
    → s.seq_buf ≡ []
    → s.next_seq ≡ n
    → s.seq_buf_bytes + length second ≤ max_seq_buf_bytes
    → (u : Session) × (serve (upload (n + 1) second ∷ upload n first ∷ []) s ≡ ok u)
      × (u.writer ≡ some (record w { sent = w.sent ++ first ++ second }))
      × (u.seq_buf ≡ [])
      × (u.next_seq ≡ n + 2)
      × (u.seq_buf_bytes ≡ s.seq_buf_bytes + length second)
unfolding serve handle packet buffer write drain drain_from Dict.get Dict.put Dict.remove
counter_grows s w n first second there still empty is_next room = (
  record {
    writer = some (record w { sent = w.sent ++ first ++ second });
    seq_buf = [];
    seq_buf_bytes = s.seq_buf_bytes + length second;
    next_seq = n + 1 + 1;
  },
  ground arith,
  refl,
  refl,
  omega arith,
  refl,
)

-- With the counter near its cap, an open session with an empty buffer refuses any packet that is
-- not next and does not fit the rest of the count.
pub full_when_empty :
    (s : Session) (w : Writer) (seq : ℕ) (body : Bytes)
    → s.writer ≡ some w
    → s.seq_buf ≡ []
    → seq ≢ s.next_seq
    → max_seq_buf_bytes < s.seq_buf_bytes + length body
    → packet seq body s ≡ raise connection_error
unfolding packet buffer
full_when_empty s w seq body there empty other full = ground arith
