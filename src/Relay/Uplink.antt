-- ===== src/Relay/Uplink.antt =====
-- The upload side of an xHTTP packet-up session (`packet_up_upload` of
-- core/voidz_core/relay/xhttp.py): packets come in any order and go out in sequence.
--
-- Nothing runs between the lines of the handler but at its awaits, so a request is one step once
-- its body is there, and the first packet is two: its start, and `connected` when the connection
-- to the target is open. Packets that come in between find no writer and are buffered.
mod Cases
pub mod Drain
mod Invariant
pub mod Limits
pub mod Order
pub mod Counter
use voidz.Prelude.{
  ℕ, zero, suc, ◌+◌, ◌*◌, Bool, true, false, not, ◌||◌, List, [], ◌∷◌, ◌++◌, Option, none, some,
  length, ltb, leb, eqb, if◌then◌else◌, nat_eq,
}
use voidz.Prelude.Dict
use voidz.Prelude.Dict.{Dict}
use voidz.Prelude.Result.{Result, ok, raise, connection_error, fail_if, ◌>>=◌, ◌>>◌}
use voidz.Relay.Bytes.{Bytes}

abbrev pub max_seq_buf_entries : ℕ
max_seq_buf_entries = 256

abbrev pub max_seq_buf_bytes : ℕ
max_seq_buf_bytes = 4 * 1024 * 1024

-- The stream to the target: what was written, and `is_closing()`.
pub record Writer : Type 0 where
  pub sent : Bytes
  pub is_closing : Bool

pub record Session : Type 0 where
  pub writer : Option Writer
  pub seq_buf : Dict ℕ Bytes
  pub seq_buf_bytes : ℕ
  pub next_seq : ℕ

abbrev pub fresh : Session
fresh = record { writer = none; seq_buf = []; seq_buf_bytes = 0; next_seq = 0 }

-- A packet that is not next goes to the buffer, if it has room.
unfoldable pub buffer : ℕ → Bytes → Session → Result Session
buffer seq body sess = do
  fail_if
      (leb max_seq_buf_entries (length sess.seq_buf)
        || ltb max_seq_buf_bytes (sess.seq_buf_bytes + length body))
      connection_error
  ok (record sess {
    seq_buf = Dict.put seq body sess.seq_buf;
    seq_buf_bytes = sess.seq_buf_bytes + length body;
  })

-- `writer.write(body)`, unless the transport is closing
unfoldable pub write : Writer → Bytes → Result Writer
write w body = do fail_if w.is_closing connection_error; ok (record w { sent = w.sent ++ body })

-- The loop that takes the packets which are next from the buffer. Each round takes one, so the
-- size of the buffer is fuel enough.
unfoldable pub drain : ℕ → ℕ → Writer → Dict ℕ Bytes → Result (ℕ × Writer × Dict ℕ Bytes)
unfolding write
drain zero nxt w buf = ok (nxt, w, buf)
drain (suc fuel) nxt w buf = elim (Dict.get nxt buf) [
  | none ↦ ok (nxt, w, buf)
  | some pending ↦ do w' ← write w pending; drain fuel (nxt + 1) w' (Dict.remove nxt buf)
]

-- The loop on the session's own fields.
unfoldable pub drain_from : ℕ → Writer → Session → Result Session
drain_from nxt w sess = do
  (nxt', w', buf) ← drain (length sess.seq_buf) nxt w sess.seq_buf
  ok (record sess { writer = some w'; seq_buf = buf; next_seq = nxt' })

-- The connection for the first packet is open; `payload` is what its header was followed by.
unfoldable pub connected : Bytes → Session → Result Session
connected payload sess = drain_from 1 (record { sent = payload; is_closing = false }) sess

-- A packet with a body; the route answers an empty one before it gets here, so `body` is not
-- empty (Relay/Uploads has that test). The first one finds no writer and starts to open the connection.
unfoldable pub packet : ℕ → Bytes → Session → Result Session
packet seq body sess = elim sess.writer [
  | none ↦ if eqb seq 0 then ok sess else buffer seq body sess
  | some w ↦
      let here = (do w' ← write w body; drain_from (seq + 1) w' sess) in
      if eqb seq sess.next_seq then here else buffer seq body sess
]

pub data Event : Type 0 where
  upload : ℕ → Bytes → Event
  opened : Bytes → Event

unfoldable pub handle : Event → Session → Result Session
handle (upload seq body) sess = packet seq body sess
handle (opened payload) sess = connected payload sess

-- An exception ends the session.
unfoldable pub serve : List Event → Session → Result Session
serve [] sess = ok sess
serve (e ∷ rest) sess = do sess' ← handle e sess; serve rest sess'
