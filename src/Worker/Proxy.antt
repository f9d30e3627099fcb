-- ===== src/Worker/Proxy.antt =====
-- The reverse proxy of worker/voidz_worker/main.py: the routes under /pub, which a token of an
-- instance opens, and the one for the console behind the worker's token. Texts are lists of code
-- points; the names of headers are in lower case, in which HTTP does not distinguish.

pub mod Rewriting
pub mod Direct
use voidz.Prelude.{
  ℕ, String, Bool, true, false, not, ◌||◌, List, [], ◌∷◌, ◌++◌, Option, none, some, eqb, ◌==◌, any,
  contains, keep, list_eq, nat_eq, string_eq, if◌then◌else◌,
}
use voidz.Prelude.Dict.{get}
use voidz.Prelude.Result.{Result, ok, raise, http, fail_if, or_raise, ◌>>=◌, ◌>>◌}
use voidz.Prelude.Texts.{codes}
use voidz.Relay.Bytes.{Text, compare_digest}
use voidz.Console.ClientIp.{Headers, header_of, real_client_ip}
use voidz.DirectToken.{Hmac, decode}
use voidz.Worker.Driver.{InstanceId, Handle, Outcome, Report, done, driver_error, other_error}
use voidz.Worker.Api.{DriverApi}
use voidz.Worker.Service.{require_worker_token, text_or}

-- `s.startswith(prefix)`
unfoldable pub starts_with : Text → Text → Bool
starts_with [] s = true
starts_with (p ∷ ps) [] = false
starts_with (p ∷ ps) (c ∷ s) = if eqb p c then starts_with ps s else false

-- `_is_public_client_path`: the paths of the relay transports.
unfoldable pub is_public_client_path : Text → Bool
is_public_client_path path =
    contains (codes "trojan-ws" ∷ codes "ss-ws" ∷ []) path
    || any (λ prefix. starts_with prefix path)
        (codes "ws/" ∷ codes "xhttp-siz10/" ∷ codes "txhttp-siz10/" ∷ [])

-- `_origin_client_ip`, which has the code of the console's `real_client_ip`; `peer` is the host
-- of the connection, empty if there is none.
unfoldable pub origin_client_ip : (Text → Text) → Text → Headers → Text → Result Text
unfolding text_or
origin_client_ip strip edge_secret headers peer =
    real_client_ip strip edge_secret headers (text_or peer (codes "unknown"))

-- A header of the client that is passed on.
unfoldable pub is_passed : String → Bool
is_passed name = not (
    contains ("host" ∷ "content-length" ∷ "authorization" ∷ "x-forwarded-for" ∷ "x-real-ip" ∷ [])
      name)

-- The instance's own token, if the driver knows one.
unfoldable pub authorization : Option Text → Headers
authorization none = []
authorization (some []) = []
authorization (some (c ∷ token)) = ("authorization", codes "Bearer " ++ (c ∷ token)) ∷ []

unfoldable pub forward_headers : Headers → Text → Option Text → Headers
unfolding authorization is_passed
forward_headers headers origin_ip token =
    keep (λ (header : String × Text). is_passed header.0) headers
    ++ ((("x-forwarded-for", origin_ip) ∷ ("x-real-ip", origin_ip) ∷ []) ++ authorization token)

-- A request as it comes: its path behind the prefix of the route, its headers and its peer.
pub record Incoming : Type 0 where
  pub path : Text
  pub headers : Headers
  pub peer : Text

-- The request to the core of an instance; `streamed` says that the body is not read first.
pub record Forwarded : Type 0 where
  pub port : ℕ
  pub path : Text
  pub headers : Headers
  pub streamed : Bool

-- The port of an instance that runs.
unfoldable pub port_of : Outcome Report → Result ℕ
port_of (done (some (true, port))) = ok port
port_of (done (some (false, port))) = raise (http 502)
port_of (done none) = raise (http 502)
port_of driver_error = raise (http 502)
port_of other_error = raise (http 500)

-- How the connection to the core ends for a websocket: it cannot be made or breaks with an
-- exception, or it ends, with the core's close code or without one.
pub data Upstream : Type 0 where
  broken : Upstream
  ended : Option ℕ → Upstream

-- The closes that the relay sends to the client, in order; the first one is what it sees. A close
-- behind another raises, which is passed over.
unfoldable pub closes : Upstream → List ℕ
closes broken = 1014 ∷ 1000 ∷ []
closes (ended none) = 1000 ∷ []
closes (ended (some code)) = (if eqb code 0 then 1000 else code) ∷ []

-- A websocket is closed at once, or it is relayed to a port and a path with the headers that are
-- set, and closed then.
pub data WsResult : Type 0 where
  refused : ℕ → WsResult
  relayed : ℕ → Text → Headers → List ℕ → WsResult

-- The driver of the worker, and `str.strip`, VOIDZ_EDGE_SECRET and VOIDZ_WORKER_TOKEN.
module _ {R M W : Type 0} (api : DriverApi R M W) (strip : Text → Text) (edge_secret : Text)
    (worker_token : Text) where
  open api use {handles}

  -- `handle.meta.get("api_token")` of an instance that is known
  unfoldable pub token_of : InstanceId → M → Option Text
  token_of id m = elim (get id (handles m)) [ none ↦ none | some h ↦ some h.api_token ]

  -- `sent_path` is what httpx makes of the path of a URL when it puts it behind the base URL of the
  -- core: it takes dot segments out and quotes characters.
  unfoldable pub forward_http : (Text → Text) → InstanceId → Incoming → W → M → Result Forwarded
  unfolding token_of
  forward_http sent_path id req w m = do
    port ← port_of (api.status id w m)
    origin_ip ← origin_client_ip strip edge_secret req.headers req.peer
    ok (record {
      port = port;
      path = sent_path (codes "/" ++ req.path);
      headers = forward_headers req.headers origin_ip (token_of id m);
      streamed = is_public_client_path req.path;
    })

  -- The console's route: every path, with the worker's token.
  unfoldable pub instance_proxy :
      (Text → Text) → Text → InstanceId → Incoming → W → M → Result Forwarded
  unfolding forward_http
  instance_proxy sent_path bearer id req w m = do
    require_worker_token worker_token bearer
    forward_http sent_path id req w m

  unfoldable pub direct_http_proxy :
      (Text → Text) → Hmac → Text → Incoming → W → M → Result Forwarded
  unfolding forward_http
  direct_http_proxy sent_path hmac token req w m = do
    fail_if (not (is_public_client_path req.path)) (http 404)
    id ← or_raise (http 404) (decode hmac token worker_token)
    forward_http sent_path id req w m

  -- `_forward_ws` behind the driver's answer.
  unfoldable pub relayed_ws : Incoming → Upstream → Outcome Report → Result WsResult
  relayed_ws req up (done none) = ok (refused 1014)
  relayed_ws req up (done (some (false, port))) = ok (refused 1014)
  relayed_ws req up driver_error = ok (refused 1014)
  relayed_ws req up other_error = raise (http 500)
  relayed_ws req up (done (some (true, port))) = do
    origin_ip ← origin_client_ip strip edge_secret req.headers req.peer
    ok (
        relayed port req.path
          (("user-agent", header_of "user-agent" req.headers)
            ∷ ("x-forwarded-for", origin_ip)
            ∷ ("x-real-ip", origin_ip)
            ∷ [])
          (closes up))

  unfoldable pub forward_ws : InstanceId → Incoming → W → Upstream → M → Result WsResult
  unfolding relayed_ws
  forward_ws id req w up m = relayed_ws req up (api.status id w m)

  unfoldable pub direct_ws_proxy : Hmac → Text → Incoming → W → Upstream → M → Result WsResult
  direct_ws_proxy hmac token req w up m =
      if not (is_public_client_path req.path)
      then ok (refused 1008)
      else (elim (decode hmac token worker_token) [
        | none ↦ ok (refused 1008)
        | some id ↦ forward_ws id req w up m
      ])

  -- The console's websocket route, with the token of the query.
  unfoldable pub instance_ws_proxy :
      Text → InstanceId → Incoming → W → Upstream → M → Result WsResult
  instance_ws_proxy token id req w up m = if token == [] then ok (refused 1008) else do
    same ← compare_digest token worker_token
    if not same then ok (refused 1008) else forward_ws id req w up m
