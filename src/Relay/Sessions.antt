-- ===== src/Relay/Sessions.antt =====
-- The session table of `XHttpEngine` in core/voidz_core/relay/xhttp.py. Times are milliseconds.
-- `get_or_create_session` holds the engine's lock throughout, and `teardown` takes its session from
-- the table under it.
pub mod Caps
pub mod Reaping
use voidz.Prelude.{
  ℕ, ◌+◌, ◌-◌, ◌*◌, String, Bool, true, false, not, ◌||◌, List, [], ◌∷◌, Option, none, some, length,
  ltb, leb, if◌then◌else◌, ◌==◌, string_eq, pair_eq,
}
use voidz.Prelude.Dict
use voidz.Prelude.Dict.{Dict}
use voidz.Prelude.Result.{Result, ok, raise, http, fail_if, or_raise, ◌>>=◌, ◌>>◌}
use voidz.Core.Link.{Link, Time, is_allowed}
use voidz.Core.Store.{LinkStore}
use voidz.Core.Tracker
use voidz.Core.Tracker.{Tracker, device_slot_available}
use Prim.Native.String.{◌++◌}
use voidz.Relay.Uplink
use voidz.Core.Stats.{RuntimeStats, prune_hourly}

abbrev pub max_sessions_global : ℕ
max_sessions_global = 2048

abbrev pub max_sessions_per_link : ℕ
max_sessions_per_link = 64

abbrev pub session_idle_timeout : ℕ
session_idle_timeout = 30 * 1000

abbrev pub session_idle_timeout_active : ℕ
session_idle_timeout_active = 90 * 1000

-- The link and the session id.
abbrev pub Key : Type 0
Key = String × String

pub record Sess : Type 0 where
  pub uuid : String
  pub mode : String
  pub conn_id : String
  pub last_seen : ℕ
  pub tcp_open : Bool
  pub uplink : Uplink.Session

pub record Engine : Type 0 where
  pub sessions : Dict Key Sess
  pub links : LinkStore
  pub connections : Tracker
  pub stats : RuntimeStats

unfoldable pub per_link_count : String → Engine → ℕ
per_link_count uuid eng = Dict.count_keys (λ (k : Key). k.0 == uuid) eng.sessions

-- A request for a session: `conn_id` is the token drawn for a new one, and `connected_at` the text
-- of the time.
pub record Request : Type 0 where
  pub uuid : String
  pub session_id : String
  pub mode : String
  pub ip : String
  pub conn_id : String
  pub connected_at : String

abbrev pub new_session : Request → ℕ → Sess
new_session req now = record {
  uuid = req.uuid;
  mode = req.mode;
  conn_id = req.conn_id;
  last_seen = now;
  tcp_open = false;
  uplink = Uplink.fresh;
}

-- The connection that a new session registers.
abbrev pub new_conn : Request → Tracker.Conn
new_conn req = record {
  conn_id = req.conn_id;
  uuid = req.uuid;
  ip = req.ip;
  transport = "xhttp-" ++ req.mode;
  connected_at = req.connected_at;
  bytes = 0;
}

unfoldable pub create_session : Time → ℕ → Request → Engine → Result (Sess × Engine)
create_session t now req eng = do
  fail_if
      (leb max_sessions_global (length eng.sessions)
        || leb max_sessions_per_link (per_link_count req.uuid eng))
      (http 429)
  link ← or_raise (http 403) (Dict.get req.uuid eng.links)
  fail_if (not (is_allowed t link)) (http 403)
  fail_if
      (not
        (device_slot_available req.uuid req.ip link.max_devices link.allowed_ips eng.connections))
      (http 403)
  ok (
    new_session req now,
    record eng {
      sessions = Dict.put (req.uuid, req.session_id) (new_session req now) eng.sessions;
      connections =
          Tracker.register (new_conn req) (some (Tracker.teardown req.uuid req.session_id))
            eng.connections;
    },
  )

unfoldable pub get_or_create_session : Time → ℕ → Request → Engine → Result (Sess × Engine)
get_or_create_session t now req eng = elim (Dict.get (req.uuid, req.session_id) eng.sessions) [
  | none ↦ create_session t now req eng
  | some sess ↦
      let seen = record sess { last_seen = now } in
      ok (seen, record eng { sessions = Dict.put (req.uuid, req.session_id) seen eng.sessions })
]

unfoldable pub teardown : Key → Engine → Engine
teardown key eng = elim (Dict.get key eng.sessions) [
  | none ↦ eng
  | some sess ↦ record eng {
    sessions = Dict.remove key eng.sessions;
    connections = Tracker.remove sess.conn_id eng.connections;
  }
]

-- Whether the reaper ends a session.
unfoldable pub is_stale : ℕ → Sess → Bool
is_stale now s =
    let limit = if s.tcp_open then session_idle_timeout_active else session_idle_timeout in
    ltb limit (now - s.last_seen)

unfoldable pub stale_keys : ℕ → Dict Key Sess → List Key
stale_keys now [] = []
stale_keys now ((key, s) ∷ rest) =
    let others = stale_keys now rest in if is_stale now s then key ∷ others else others

unfoldable pub teardown_all : List Key → Engine → Engine
teardown_all [] eng = eng
teardown_all (key ∷ rest) eng = teardown_all rest (teardown key eng)

-- One round of `_reaper` at a time and in an hour, as one step: what other handlers do between its
-- teardowns is not part of it.
unfoldable pub reap : ℕ → ℕ → Engine → Engine
reap now hour eng =
    let swept = teardown_all (stale_keys now eng.sessions) eng in
    record swept { stats = prune_hourly 48 hour swept.stats }
