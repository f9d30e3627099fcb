-- ===== src/Relay/Stream.antt =====
-- `stream_up_upload` of core/voidz_core/relay/xhttp.py: one request whose body is the upload, in
-- chunks. What other handlers do to the shared stores between two chunks is an argument of the
-- later one, and so is what the network does.
pub mod Delivery
pub mod First
use voidz.Prelude.{
  ℕ, ◌+◌, ◌*◌, String, Bool, true, false, not, ◌||◌, ◌==◌, list_eq, nat_eq, List, [], ◌∷◌, ◌++◌,
  Option, none, some, length, ltb, if◌then◌else◌,
}
use voidz.Prelude.Result.{
  Result, ok, raise, http, connection_error, runtime_error, Exn, fail_if, ◌>>=◌, ◌>>◌,
}
use voidz.Core.Link.{Time}
use voidz.Core.Stats
use voidz.Relay.Bytes.{Bytes, Text}
use voidz.Relay.Gate
use voidz.Relay.Gate.{Rates, Context, Now, Gate}
use voidz.Relay.Flow.{should_drain, adjust}
use voidz.Relay.Trojan.{Digest}
use voidz.Relay.Opening.{Target, target_of}

abbrev pub max_stream_chunk : ℕ
max_stream_chunk = 2 * 1024 * 1024

-- How the network takes a chunk. The first one opens a connection, which may fail, and writes
-- the payload; the drain behind that may fail. A later one finds the transport closing or not, `waiting`
-- bytes in its buffer, and a drain that takes a time in microseconds or fails.
pub record Network : Type 0 where
  pub opens : Bool
  pub takes_payload : Bool
  pub closing : Bool
  pub waiting : ℕ
  pub drained : Option ℕ

pub record Arrival : Type 0 where
  pub body : Bytes
  pub now : Now
  pub meanwhile : Context → Context
  pub network : Network

-- How the body of the request ends: it is complete, or `ClientDisconnect` is raised.
pub data Ending : Type 0 where
  complete disconnected : Ending

-- The answer of the handler behind the session.
pub data Answer : Type 0 where
  done aborted : Answer

-- The locals and the fields of the session that the loop uses: what was sent to the target, if
-- it is open, the gate and the high water of the flow, with the shared stores.
pub record Upload (r : Rates) : Type 0 where
  pub sent : Option Bytes
  pub gate : Gate r
  pub high_water : ℕ
  pub ctx : Context

module _ (r : Rates) (digest : Digest) (decode : Bytes → Text) (uuid : String) where
  -- A step that returns or raises, with the state it leaves.
  abbrev pub Step : Type 0
  Step = Result (Unit {0}) × Upload r

  -- The first chunk: its header names the target, and what follows it is written. The write comes
  -- before the drain, so the transport has the payload also where the drain fails.
  unfoldable pub opened : Network → Result Target → Upload r → Step
  opened net (raise e) u = (raise e, u)
  opened net (ok target) u =
      if not net.opens
      then (raise connection_error, u)
      else if target.payload == [] || net.takes_payload
      then (ok tt, record u { sent = some target.payload })
      else (raise connection_error, record u { sent = some target.payload })

  -- `flow.drain(writer)`
  unfoldable pub drain : Option ℕ → Upload r → Step
  drain none u = (raise connection_error, u)
  drain (some elapsed) u = (ok tt, record u { high_water = adjust elapsed u.high_water })

  -- A later chunk is written, and drained if much waits.
  unfoldable pub written : Network → Bytes → Bytes → Upload r → Step
  unfolding drain
  written net sent body u =
      let u' = record u { sent = some (sent ++ body) } in
      if net.closing
      then (raise connection_error, u)
      else if should_drain net.waiting u.high_water
      then drain net.drained u'
      else (ok tt, u')

  unfoldable pub delivered : Arrival → Option Bytes → Upload r → Step
  unfolding opened written
  delivered a none u =
      opened a.network (target_of digest decode a.now.time uuid a.body u.ctx.links) u
  delivered a (some sent) u = written a.network sent a.body u

  -- The chunk behind the gate.
  unfoldable pub gated : Arrival → Bool × Gate r × Context → Upload r → Step
  unfolding delivered
  gated a (false, gate, ctx) u = (raise (http 403), record u { gate = gate; ctx = ctx })
  gated a (true, gate, ctx) u =
      delivered a u.sent
        (record u { gate = gate; ctx = record ctx { stats = Stats.add_request ctx.stats } })

  unfoldable pub chunk : Arrival → Upload r → Step
  unfolding gated
  chunk a u =
      if a.body == []
      then (ok tt, u)
      else if ltb max_stream_chunk (length a.body)
      then (raise (http 413), u)
      else gated a (Gate.add r a.now (length a.body) u.gate u.ctx) u

  -- What follows a step that raised nothing.
  abbrev pub after : Step → (Upload r → Step) → Step
  after (raise e, u) next = (raise e, u)
  after (ok v, u) next = next u

  unfoldable pub chunks : List Arrival → Upload r → Step
  unfolding chunk
  chunks [] u = (ok tt, u)
  chunks (a ∷ rest) u = after (chunk a (record u { ctx = a.meanwhile u.ctx })) (chunks rest)

  -- `await gate.flush()`
  unfoldable pub flushed : Now → Upload r → Upload r
  flushed now u =
      let (allowed, gate, ctx) = Gate.flush r now u.gate u.ctx in
      record u { gate = gate; ctx = ctx }

  -- The answer behind the loop, and whether the session is torn down.
  unfoldable pub answer : Ending → Now → Step → Result Answer × Bool × Upload r
  unfolding flushed
  answer complete now (ok v, u) = (ok done, false, flushed now u)
  answer disconnected now (ok v, u) = (ok aborted, true, flushed now u)
  answer ending now (raise (http n), u) = (raise (http n), true, flushed now u)
  answer ending now (raise e, u) = (raise (http 502), true, flushed now u)

  unfoldable pub upload : List Arrival → Ending → Now → Upload r → Result Answer × Bool × Upload r
  unfolding chunks answer
  upload arrivals ending now u = answer ending now (chunks arrivals u)
