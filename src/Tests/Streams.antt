-- ===== src/Tests/Streams.antt =====
-- The streams of the relay at concrete inputs: the quota gate, the xHTTP upload.
use voidz.Prelude.{
  ◌-◌, ◌*◌, true, ℕ, suc, ◌+◌, ◌≤◌, ◌≡◌, refl, true, false, List, [], ◌∷◌, none, some, contains,
  arith, list_eq, nat_eq, string_eq,
}
use voidz.Prelude.Dict
use voidz.Prelude.Result.{ok}
use voidz.Relay.Bytes.{Bytes}
use voidz.Core.Tracker
use voidz.Core.Stats
use voidz.Relay.Gate.{Rates, Context, Now, init, flush, quota_max_batch}
use voidz.Relay.Gate.Batches.{IsValid, pass_all, taken, session_counted}
use voidz.Relay.Gate.Enforced.{forwarded, quota_enforced}
use voidz.Core.Link.{Link}
use voidz.Relay.Uplink.{
  Session, fresh, Event, upload, opened, serve, packet, connected, handle, buffer, write, drain,
  drain_from,
}
use voidz.Relay.Uplink.Drain.{stream}
use voidz.Relay.Uplink.Limits.{InLimits, serve-InLimits}
use voidz.Relay.Uplink.Order.{Reach, begin, came, open_to, sent_in_order}
use voidz.Relay.Uplink.Counter.{counter_grows}

-- Rates in bytes for the time since the last check.
abbrev rates : Rates
rates = record {
  Rate = ℕ;
  zero_rate = 0;
  is_zero = λ r. false;
  per_elapsed = λ n ms. n;
  smooth = λ a b. a;
  window_bytes = λ r. r;
}

abbrev at_time : ℕ → Now
at_time ms = record {
  monotonic = ms;
  hour = 5;
  time = record { now = ms; fromisoformat = λ _. none };
}

abbrev frames : List (Now × ℕ)
frames = (at_time 10, 1000) ∷ (at_time 300, 500) ∷ (at_time 310, 70) ∷ []

abbrev no_links : Context
no_links = record { links = []; connections = Tracker.empty; stats = Stats.init }

session_counted_example :
    ((flush rates
        (at_time 400)
        (pass_all rates frames (init rates "a" none 0) no_links).0
        (pass_all rates frames (init rates "a" none 0) no_links).1).2.stats.total_bytes
      ≡ no_links.stats.total_bytes + taken rates frames (init rates "a" none 0) no_links)
    × ((flush rates
          (at_time 400)
          (pass_all rates frames (init rates "a" none 0) no_links).0
          (pass_all rates frames (init rates "a" none 0) no_links).1).1.pending
        ≡ 0)
    × IsValid rates (pass_all rates frames (init rates "a" none 0) no_links).0
session_counted_example = session_counted rates frames "a" none 0 no_links (at_time 400)

-- A link with 2000 bytes of quota, of which 300 are used.
abbrev limited : Link
limited = record {
  uuid = "a";
  label = [];
  protocol = "vless-ws";
  active = true;
  limit_bytes = 2000;
  used_bytes = 300;
  created_at = "noon";
  expires_at = none;
  note = [];
  alpn = [];
  fingerprint = "chrome";
  ss_cipher = none;
  ss_password = none;
  max_devices = 0;
  allowed_ips = [];
}

abbrev with_link : Context
with_link = record no_links { links = ("a", limited) ∷ [] }

new_gate-IsValid : IsValid rates (init rates "a" none 0)
unfolding init
new_gate-IsValid = record { low = omega arith; high = omega arith; waiting = omega arith }

quota_enforced_example :
    forwarded rates frames (init rates "a" none 0) with_link
    ≤ (2000 - 300) + (2 * quota_max_batch + 1000)
unfolding init Dict.get
quota_enforced_example =
    quota_enforced rates 1000 frames (init rates "a" none 0) with_link limited new_gate-IsValid
      (omega arith, (omega arith, (omega arith, tt))) refl (omega arith)

-- Packet 2 comes while the connection opens, packet 1 after it.
abbrev pkt : ℕ → Bytes
pkt n = n ∷ []

abbrev early_packet : Session
early_packet = record { writer = none; seq_buf = (2, 2 ∷ []) ∷ []; seq_buf_bytes = 1; next_seq = 0 }

abbrev after_opening : Session
after_opening = record {
  writer = some (record { sent = 9 ∷ []; is_closing = false });
  seq_buf = (2, 2 ∷ []) ∷ [];
  seq_buf_bytes = 1;
  next_seq = 1;
}

abbrev all_sent : Session
all_sent = record {
  writer = some (record { sent = 9 ∷ 1 ∷ 2 ∷ []; is_closing = false });
  seq_buf = [];
  seq_buf_bytes = 1;
  next_seq = 3;
}

reordered : Reach (9 ∷ []) pkt (1 ∷ 2 ∷ 0 ∷ []) all_sent
unfolding packet buffer connected drain_from drain write Dict.get Dict.put Dict.remove
reordered = came 1 (open_to (came 2 (came 0 begin refl) refl) refl refl) refl

sent_in_order_example :
    (n : ℕ) × (9 ∷ 1 ∷ 2 ∷ [] ≡ stream (9 ∷ []) pkt n)
    × (all_sent.next_seq ≡ suc n)
    × ((k : ℕ) → 1 ≤ k → k ≤ n → contains (1 ∷ 2 ∷ 0 ∷ []) k ≡ true)
    × (contains (1 ∷ 2 ∷ 0 ∷ []) (suc n) ≡ false)
sent_in_order_example =
    sent_in_order (9 ∷ []) pkt (1 ∷ 2 ∷ 0 ∷ []) all_sent
      (record { sent = 9 ∷ 1 ∷ 2 ∷ []; is_closing = false }) reordered refl

abbrev events : List Event
events = upload 0 [] ∷ upload 2 (2 ∷ []) ∷ opened (9 ∷ []) ∷ upload 1 (1 ∷ []) ∷ []

events_served : serve events fresh ≡ ok all_sent
unfolding serve handle packet buffer connected drain_from drain write Dict.get Dict.put Dict.remove
events_served = refl

fresh-InLimits : InLimits fresh
unfolding Dict.total
fresh-InLimits = record { entries = omega arith; bytes = omega arith; held = omega arith }

serve-InLimits_example : InLimits all_sent
serve-InLimits_example = serve-InLimits events events_served fresh-InLimits

abbrev open_session : Session
open_session = record {
  writer = some (record { sent = []; is_closing = false });
  seq_buf = [];
  seq_buf_bytes = 4194303;
  next_seq = 5;
}

counter_grows_example :
    (u : Session) × (serve (upload 6 (2 ∷ []) ∷ upload 5 (1 ∷ []) ∷ []) open_session ≡ ok u)
    × (u.writer ≡ some (record { sent = 1 ∷ 2 ∷ []; is_closing = false }))
    × (u.seq_buf ≡ [])
    × (u.next_seq ≡ 7)
    × (u.seq_buf_bytes ≡ 4194304)
counter_grows_example =
    counter_grows open_session (record { sent = []; is_closing = false }) 5 (1 ∷ []) (2 ∷ []) refl
      refl refl refl (omega arith)
