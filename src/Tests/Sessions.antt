-- ===== src/Tests/Sessions.antt =====
-- The session table of xHTTP (core/voidz_core/relay/xhttp.py) at concrete inputs.
use voidz.Prelude.{
  ◌-◌, ◌≡◌, refl, true, [], ◌∷◌, none, some, ltb, if◌then◌else◌, arith, contains, string_eq,
  pair_eq,
}
use voidz.Prelude.Dict
use voidz.Prelude.Dict.{Dict, Distinct}
use voidz.Prelude.Result.{ok}
use voidz.Core.Link.{Link, Time, is_allowed, is_expired}
use voidz.Core.Tracker
use voidz.Core.Stats
use voidz.Relay.Sessions.{
  Engine, Request, new_session, new_conn, get_or_create_session, create_session, per_link_count,
  reap,
}
use voidz.Relay.Sessions.Caps.{
  IsSound, request, reaper, here, then_step, get_or_create_own, Reach-IsSound,
}
use voidz.Relay.Sessions.Reaping.{reap_exact}

abbrev clock : Time
clock = record { now = 0; fromisoformat = λ _. none }

abbrev link : Link
link = record {
  uuid = "a";
  label = [];
  protocol = "vless";
  active = true;
  limit_bytes = 0;
  used_bytes = 0;
  created_at = "";
  expires_at = none;
  note = [];
  alpn = [];
  fingerprint = "";
  ss_cipher = none;
  ss_password = none;
  max_devices = 1;
  allowed_ips = [];
}

abbrev no_sessions : Engine
no_sessions = record {
  sessions = [];
  links = ("a", link) ∷ [];
  connections = Tracker.empty;
  stats = Stats.init;
}

abbrev req : Request
req = record {
  uuid = "a";
  session_id = "s";
  mode = "packet-up";
  ip = "1.1.1.1";
  conn_id = "c";
  connected_at = "";
}

abbrev one_session : Engine
one_session = record no_sessions {
  sessions = (("a", "s"), new_session req 1000) ∷ [];
  connections = Tracker.register (new_conn req) (some (Tracker.teardown "a" "s")) Tracker.empty;
}

no_sessions-IsSound : IsSound no_sessions
unfolding per_link_count Dict.count_keys Dict.get
no_sessions-IsSound = record {
  global = omega arith;
  per_link = λ uuid. omega arith;
  own = λ uuid session_id s there. cc;
}

created : get_or_create_session clock 1000 req no_sessions ≡ ok (new_session req 1000, one_session)
unfolding get_or_create_session create_session is_allowed is_expired per_link_count Dict.count_keys
    Dict.get Dict.put Tracker.device_slot_available Tracker.active_ips_for contains
created = refl

get_or_create_own_example :
    ((new_session req 1000).uuid ≡ "a")
    × (Dict.get ("a", "s") one_session.sessions ≡ some (new_session req 1000))
    × IsSound one_session
get_or_create_own_example =
    get_or_create_own clock 1000 req no_sessions one_session (new_session req 1000)
      no_sessions-IsSound created

Reach-IsSound_example : IsSound (reap 40000 5 one_session)
Reach-IsSound_example = Reach-IsSound no_sessions-IsSound (
    then_step (then_step here (request clock 1000 req (new_session req 1000) created))
      (reaper 40000 5))

one_session-Distinct : Distinct one_session.sessions
unfolding Dict.get
one_session-Distinct = (refl, tt)

reap_exact_example :
    Dict.get ("a", "s") (reap 40000 5 one_session).sessions
    ≡ (elim (Dict.get ("a", "s") one_session.sessions) [
      | none ↦ none
      | some s ↦
          if ltb (if s.tcp_open then 90000 else 30000) (40000 - s.last_seen) then none else some s
    ])
reap_exact_example = reap_exact 40000 5 one_session ("a", "s") one_session-Distinct
