-- ===== src/Tests/Relays.antt =====
-- The uploads and the downlink of xHTTP at concrete inputs.
use voidz.Prelude.{
  ℕ, zero, suc, ◌≡◌, ◌≤◌, ◌⊎◌, inl, All, refl, ap, true, false, List, [], ◌∷◌, ◌++◌, none, some,
  length, arith, string_eq, pair_eq, list_beq, Option,
}
use voidz.Prelude.Dict
use voidz.Prelude.Integers.{pos}
use voidz.Core.Link.{Link}
use voidz.Core.Tracker
use voidz.Core.Stats
use voidz.Relay.Bytes.{Bytes, Text}
use voidz.Relay.Gate
use voidz.Relay.Gate.{Rates, Context, Now, init}
use voidz.Relay.Trojan.{Digest}
use voidz.Relay.Stream.{Arrival, complete, Upload}
use voidz.Relay.Sessions.{Engine, Request, per_link_count}
use voidz.Relay.Sessions.Caps.{IsSound}
use voidz.Relay.Uploads.{Packet, key_of, packet_up_upload, stream_up_upload}
use voidz.Relay.Uploads.Endings.{Leaves, packet_up_upload-Leaves, stream_up_upload-Leaves}
use voidz.Relay.Downlink
use voidz.Relay.Downlink.{Downlink, Reach, received, fetched, finished, downlink_queue_max}
use voidz.Relay.Downlink.Fifo.{waiting, has_end, stream_of, fifo}
use voidz.Relay.Downlink.LostEnd.{fetch_all, end_lost}

abbrev rates : Rates
rates = record {
  Rate = ℕ;
  zero_rate = 0;
  is_zero = λ r. false;
  per_elapsed = λ n ms. n;
  smooth = λ a b. a;
  window_bytes = λ r. r;
}

abbrev now : Now
now = record { monotonic = 10; hour = 5; time = record { now = 0; fromisoformat = λ _. none } }

abbrev zeros : ℕ → Text
zeros zero = []
zeros (suc n) = 48 ∷ zeros n

length-zeros : (n : ℕ) → length (zeros n) ≡ n
length-zeros zero = refl
length-zeros (suc n) = ap suc (length-zeros n)

zeros-All : (n : ℕ) → All (λ (c : ℕ). (48 ≤ c) × (c ≤ 57) ⊎ (97 ≤ c) × (c ≤ 102)) (zeros n)
zeros-All zero = tt
zeros-All (suc n) = (inl (omega arith, omega arith), zeros-All n)

abbrev digest : Digest
digest = record {
  trojan_password_hash = λ p. zeros 56;
  length-hash = λ p. length-zeros 56;
  hash_digits = λ p. zeros-All 56;
}

abbrev chunk_of : Bytes → Arrival
chunk_of body = record {
  body = body;
  now = now;
  meanwhile = λ ctx. ctx;
  network = record {
    opens = true;
    takes_payload = true;
    closing = false;
    waiting = 0;
    drained = some 0;
  };
}

abbrev link : Link
link = record {
  uuid = "a";
  label = [];
  protocol = "trojan-xhttp";
  active = true;
  limit_bytes = 0;
  used_bytes = 0;
  created_at = "";
  expires_at = none;
  note = [];
  alpn = [];
  fingerprint = "";
  ss_cipher = none;
  ss_password = none;
  max_devices = 1;
  allowed_ips = [];
}

-- A Trojan request to 10.0.0.1:80 with one byte behind it.
abbrev header : Bytes
header = zeros 56 ++ 13 ∷ 10 ∷ 1 ∷ 1 ∷ 10 ∷ 0 ∷ 0 ∷ 1 ∷ 0 ∷ 80 ∷ 13 ∷ 10 ∷ 5 ∷ []

abbrev new_upload : Upload rates
new_upload = record {
  sent = none;
  gate = init rates "a" none 0;
  high_water = 2097152;
  ctx = record { links = ("a", link) ∷ []; connections = Tracker.empty; stats = Stats.init };
}

abbrev three_chunks : List Arrival
three_chunks = chunk_of [] ∷ chunk_of header ∷ chunk_of (1 ∷ []) ∷ []

abbrev no_sessions : Engine
no_sessions = record { sessions = []; links = []; connections = Tracker.empty; stats = Stats.init }

no_sessions-IsSound : IsSound no_sessions
unfolding per_link_count Dict.count_keys Dict.get
no_sessions-IsSound = record {
  global = omega arith;
  per_link = λ uuid. omega arith;
  own = λ uuid session_id s there. cc;
}

abbrev req : Request
req = record {
  uuid = "a";
  session_id = "s";
  mode = "packet-up";
  ip = "1.1.1.1";
  conn_id = "c";
  connected_at = "";
}

abbrev upload_3 : Packet
upload_3 = record {
  seq = pos 3;
  body = some (1 ∷ 2 ∷ []);
  now = now;
  opens = true;
  meanwhile = λ s. s;
  drains = true;
}

packet_up_upload-Leaves_example :
    Leaves
      (key_of req)
      no_sessions
      (packet_up_upload rates digest (λ b. b) now.time 10 req none upload_3 no_sessions)
packet_up_upload-Leaves_example =
    packet_up_upload-Leaves rates digest (λ b. b) now.time 10 req none upload_3 no_sessions
      no_sessions-IsSound

stream_up_upload-Leaves_example : Leaves (key_of req) no_sessions (
    stream_up_upload rates digest
      (λ b. b)
      now.time
      10
      req
      none
      2097152
      three_chunks
      complete
      now
      no_sessions)
stream_up_upload-Leaves_example =
    stream_up_upload-Leaves rates digest (λ b. b) now.time 10 req none 2097152 three_chunks complete
      now no_sessions

abbrev new_downlink : Downlink rates
new_downlink = record {
  first = true;
  queue = [];
  taken = [];
  delivered = [];
  pumping = true;
  reading = true;
  gate = init rates "a" none 0;
  ctx = new_upload.ctx;
}

-- One read of three bytes, which the client gets, and the end of the stream.
abbrev one_read : Downlink rates
one_read = fetched rates true (received rates true now (7 ∷ 8 ∷ 9 ∷ []) new_downlink)

still_reading : (received rates true now (7 ∷ 8 ∷ 9 ∷ []) new_downlink).reading ≡ true
unfolding received Downlink.passed Gate.add Gate.flush_due list_beq init
still_reading = refl

fifo_example :
    (one_read.delivered ++ waiting one_read.queue ≡ stream_of true one_read.taken)
    × (one_read.reading ≡ false → one_read.delivered ≡ stream_of true one_read.taken)
fifo_example = fifo rates true one_read (
    Downlink.sent still_reading (
      Downlink.read now (7 ∷ 8 ∷ 9 ∷ []) refl (omega arith)
        (Downlink.opened (init rates "a" none 0) new_upload.ctx)))

abbrev ones : ℕ → List (Option Bytes)
ones zero = []
ones (suc n) = some (1 ∷ []) ∷ ones n

length-ones : (n : ℕ) → length (ones n) ≡ n
length-ones zero = refl
length-ones (suc n) = ap suc (length-ones n)

ones_unmarked : (n : ℕ) → has_end (ones n) ≡ false
unfolding has_end
ones_unmarked zero = refl
ones_unmarked (suc n) = ones_unmarked n

abbrev full_downlink : Downlink rates
full_downlink = record new_downlink { first = false; queue = ones 512 }

end_lost_example : (fetch_all rates true 600 (finished rates true now full_downlink)).reading ≡ true
end_lost_example =
    end_lost rates true now full_downlink 600 (omega (arith, length-ones 512)) (ones_unmarked 512)
      refl
