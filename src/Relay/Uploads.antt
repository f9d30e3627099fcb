-- ===== src/Relay/Uploads.antt =====
-- The two upload routes of core/voidz_core/relay/xhttp.py as a whole: `stream_up_upload` and
-- `packet_up_upload` with their checks, the session, the gate and the teardown. The session's gate
-- and flow are arguments.
pub mod Endings
use voidz.Prelude.{
  ℕ, ◌+◌, ◌*◌, String, Bool, true, false, not, ◌&&◌, ◌||◌, List, [], ◌∷◌, Option, none, some,
  length, ltb, eqb, ◌==◌, list_eq, nat_eq, string_eq, pair_eq, if◌then◌else◌,
}
use voidz.Prelude.Dict
use voidz.Prelude.Integers.{ℤ, pos, negsuc}
use voidz.Prelude.Result.{Result, ok, raise, http, connection_error, Exn, fail_if, ◌>>=◌, ◌>>◌}
use voidz.Prelude.Texts.{codes}
use voidz.Core.Link.{Time}
use voidz.Core.Stats
use voidz.Relay.Bytes.{Bytes, Text}
use voidz.Relay.Gate
use voidz.Relay.Gate.{Rates, Context, Now, Gate}
use voidz.Relay.Trojan.{Digest}
use voidz.Relay.Opening.{Target, check_identifiers, target_of}
use voidz.Relay.Sessions.{Key, Sess, Engine, Request, get_or_create_session, teardown}
use voidz.Relay.Stream.{Arrival, Ending, Answer, Upload, upload}
use voidz.Relay.Uplink

abbrev pub max_packet_body : ℕ
max_packet_body = 8 * 1024 * 1024

abbrev pub max_seq : ℕ
max_seq = 10000000

abbrev pub key_of : Request → Key
key_of req = (req.uuid, req.session_id)

-- The stores of the engine that a gate uses.
abbrev pub context_of : Engine → Context
context_of eng = record { links = eng.links; connections = eng.connections; stats = eng.stats }

abbrev pub with_context : Context → Engine → Engine
with_context ctx eng = record eng {
  links = ctx.links;
  connections = ctx.connections;
  stats = ctx.stats;
}

-- The bytes that a session has sent, as its writer.
unfoldable pub sent_by : Option Uplink.Writer → Option Bytes
sent_by none = none
sent_by (some w) = some w.sent

unfoldable pub writer_of : Option Bytes → Option Uplink.Writer
writer_of none = none
writer_of (some sent) = some (record { sent = sent; is_closing = false })

unfoldable pub is_open : Option Bytes → Bool
is_open none = false
is_open (some sent) = true

-- The check of the sequence number.
unfoldable pub check_seq : ℤ → Result ℕ
check_seq (negsuc n) = raise (http 400)
check_seq (pos n) = do fail_if (ltb max_seq n) (http 400); ok n

-- The answers of `packet_up_upload`.
pub data Reply : Type 0 where
  taken aborted buffered connected : Reply

-- A packet: its sequence number, and its body unless the client disconnects before it is there.
-- If it opens the connection: whether that succeeds, what other packets do to the session's
-- buffer meanwhile. `drains` is false if a drain is due and raises.
pub record Packet : Type 0 where
  pub seq : ℤ
  pub body : Option Bytes
  pub now : Now
  pub opens : Bool
  pub meanwhile : Uplink.Session → Uplink.Session
  pub drains : Bool

-- The checks of a packet, and its session.
unfoldable pub admission : Time → ℕ → Request → ℤ → Engine → Result (ℕ × Sess × Engine)
unfolding check_seq
admission t clock req n eng = do
  check_identifiers (codes req.session_id) (codes req.uuid)
  seq ← check_seq n
  (sess, eng') ← get_or_create_session t clock req eng
  ok (seq, sess, eng')

module _ (r : Rates) (digest : Digest) (decode : Bytes → Text) where
  -- The gate of the session, or a new one.
  unfoldable pub gate_of : Sess → ℕ → Option (Gate r) → Gate r
  gate_of sess monotonic none = Gate.init r sess.uuid (some sess.conn_id) monotonic
  gate_of sess monotonic (some gate) = gate

  -- The session behind the upload: torn down, or kept with what it has sent.
  unfoldable pub left :
      Key → Sess → Engine → Result Answer × Bool × Upload r → Result Answer × Engine
  unfolding writer_of is_open
  left key sess eng (a, true, u) = (a, teardown key (with_context u.ctx eng))
  left key sess eng (a, false, u) =
      let kept : Sess = record sess {
        tcp_open = is_open u.sent;
        uplink = record sess.uplink { writer = writer_of u.sent };
      } in
      (a, with_context u.ctx (record eng { sessions = Dict.put key kept eng.sessions }))

  -- The upload on the session that was found or created.
  unfoldable pub streamed :
      Request
      → Option (Gate r)
      → ℕ
      → List Arrival
      → Ending
      → Now
      → Engine
      → Result (Sess × Engine)
      → Result Answer × Engine
  unfolding gate_of left sent_by
  streamed req gate high_water arrivals ending now eng (raise e) = (raise e, eng)
  streamed req gate high_water arrivals ending now eng (ok (sess, eng')) =
      left (key_of req) sess eng' (
        upload r digest decode req.uuid arrivals ending now (record {
          sent = sent_by sess.uplink.writer;
          gate = gate_of sess now.monotonic gate;
          high_water = high_water;
          ctx = context_of eng';
        }))

  unfoldable pub stream_up_upload :
      Time
      → ℕ
      → Request
      → Option (Gate r)
      → ℕ
      → List Arrival
      → Ending
      → Now
      → Engine
      → Result Answer × Engine
  unfolding streamed
  stream_up_upload t clock req gate high_water arrivals ending now eng =
      streamed req gate high_water arrivals ending now eng (do
        check_identifiers (codes req.session_id) (codes req.uuid)
        get_or_create_session t clock req eng)

  -- The first packet: the connection is opened, and the buffered packets that are next follow.
  unfoldable pub first_packet :
      Packet → Result Target → Uplink.Session → Result (Reply × Uplink.Session)
  first_packet p (raise e) sess = raise e
  first_packet p (ok target) sess = do
    fail_if (not p.opens) connection_error
    fail_if (not (target.payload == []) && not p.drains) connection_error
    sess' ← Uplink.connected target.payload (p.meanwhile sess)
    ok (connected, sess')

  -- A later packet.
  unfoldable pub later_packet :
      Packet → ℕ → Bytes → Uplink.Session → Result (Reply × Uplink.Session)
  later_packet p seq body sess = elim sess.writer [
    | none ↦ do sess' ← Uplink.buffer seq body sess; ok (buffered, sess')
    | some w ↦ do
      sess' ← Uplink.packet seq body sess
      fail_if (not p.drains) connection_error
      ok (taken, sess')
  ]

  -- The branch on the writer and the sequence number.
  unfoldable pub place_packet :
      Packet → String → ℕ → Bytes → Context → Uplink.Session → Result (Reply × Uplink.Session)
  unfolding first_packet later_packet
  place_packet p uuid seq body ctx sess = elim sess.writer [
    | none ↦
        if eqb seq 0
        then first_packet p (target_of digest decode p.now.time uuid body ctx.links) sess
        else later_packet p seq body sess
    | some w ↦ later_packet p seq body sess
  ]

  -- Any exception ends the session.
  unfoldable pub placed :
      Key → Sess → Engine → Result (Reply × Uplink.Session) → Result Reply × Engine
  unfolding sent_by is_open
  placed key sess eng (raise e) = (raise (http 502), teardown key eng)
  placed key sess eng (ok (reply, up)) = (
    ok reply,
    record eng {
      sessions =
          Dict.put key (record sess { tcp_open = is_open (sent_by up.writer); uplink = up })
            eng.sessions;
    },
  )

  unfoldable pub behind_gate :
      Packet → Request → ℕ → Bytes → Sess → Engine → Bool × Gate r × Context → Result Reply × Engine
  unfolding place_packet placed
  behind_gate p req seq body sess eng (false, gate, ctx) =
      (raise (http 403), teardown (key_of req) (with_context ctx eng))
  behind_gate p req seq body sess eng (true, gate, ctx) =
      let counted = record ctx { stats = Stats.add_request ctx.stats } in
      placed (key_of req) sess (with_context counted eng)
        (place_packet p req.uuid seq body counted sess.uplink)

  -- The body, behind the checks and with a session.
  unfoldable pub received :
      Packet → Request → Option (Gate r) → ℕ → Option Bytes → Sess → Engine → Result Reply × Engine
  unfolding gate_of behind_gate
  received p req gate seq none sess eng = (ok aborted, eng)
  received p req gate seq (some body) sess eng =
      if ltb max_packet_body (length body)
      then (raise (http 413), teardown (key_of req) eng)
      else if body == []
      then (ok taken, eng)
      else behind_gate p req seq body sess eng
          (Gate.add r p.now (length body) (gate_of sess p.now.monotonic gate) (context_of eng))

  unfoldable pub admitted :
      Packet
      → Request
      → Option (Gate r)
      → Engine
      → Result (ℕ × Sess × Engine)
      → Result Reply × Engine
  unfolding received
  admitted p req gate eng (raise e) = (raise e, eng)
  admitted p req gate eng (ok (seq, sess, eng')) = received p req gate seq p.body sess eng'

  unfoldable pub packet_up_upload :
      Time → ℕ → Request → Option (Gate r) → Packet → Engine → Result Reply × Engine
  unfolding admitted admission
  packet_up_upload t clock req gate p eng =
      admitted p req gate eng (admission t clock req p.seq eng)
