-- ===== src/Lib.antt =====
-- The relay core, the worker and parts of the console of voidz, a service that runs VPN relays.
--
-- The relay core (core/voidz_core) keeps links, which are credentials with a quota, an end and a
-- limit of devices; relays of several protocols carry the traffic of a link and charge it to the
-- link. The worker (worker/voidz_worker) runs cores as containers or processes on ports of its own.
-- The console (console/api/voidz_console) is the control plane.
--
-- Which file models what:
-- - Prelude and its children: lists, Boolean tests, equality, slices and the order of texts; Result
--   for Python's exceptions; Dict for Python's dict, an association list in insertion order.
-- - Core/Link, Core/Alpn, Core/Store: Link and LinkStore of core/voidz_core/state.py. `construct` is
--   `Link(...)`, `use_bytes` is `LinkStore.use`. Core/Tracker: ConnectionTracker. Core/Stats:
--   RuntimeStats. Core/Persist: StateStore.load and save. Core/Debounce: StateStore.schedule_save.
-- - Core/Admin: the management API of core/voidz_core/app.py: the token, and links that are created,
--   patched and deleted. A patch with a device lock calls `kick`. Core/Grouped: the report of the
--   connections, which the device limits of the console read.
-- - Relay/Gate: QuotaGate and RelayContext of core/voidz_core/relay/base.py. It calls the stores of
--   Core as `_account` does.
-- - Relay/Bytes, Relay/Address, Relay/Vless, Relay/Trojan, Relay/Socks: the header parsers and
--   encoders of relay/vless.py, relay/trojan.py and relay/shadowsocks.py.
-- - Relay/Aead: AEADStream of relay/shadowsocks.py.
-- - Relay/Uplink, Relay/Sessions, Relay/Flow: the packets of packet_up_upload, the session table and
--   _AdaptiveFlow of relay/xhttp.py. Relay/Opening: the target of a session. Relay/Stream: the chunks
--   of stream_up_upload. Relay/Uploads: both upload routes as a whole. Relay/Downlink: the guards
--   of the downlink route, the pump and the queue behind it.
--   A session is created with the checks of Core/Link and Core/Tracker.
-- - DirectToken: direct_token.py of the worker and the console.
-- - Worker/Ports, Worker/Driver, Worker/Docker, Worker/Process: worker/voidz_worker/driver.py.
--   Worker/Api is the interface of a driver, and Worker/Backends gives it for both.
-- - Worker/Registry: worker/voidz_worker/registry.py. Worker/Service, Worker/Proxy and Worker/Status:
--   the instance lifecycle, the proxy routes and the reports of worker/voidz_worker/main.py, over any
--   driver behind the interface.
-- - Console/Fleet: the calls of the console to the cores of a plan, one region after the other. A
--   call that arrives runs the handler of Core/Admin on the core of its region.
-- - Console/Quota, Console/Reconcile, Console/Presence, Console/Devices: services/quota.py of the
--   console: customers and their links, pooled quotas, and device limits over all regions.
-- - Console/Customers: the routes of console/api/voidz_console/routers/plans.py that change a customer,
--   over the state of Console/Reconcile and Console/Devices.
-- - Console/Workers, Console/Deploy, Console/Pipelines, Console/Instances: pick_worker of
--   services/workers.py, and services/deployments.py of the console.
-- - Console/RateLimit, Console/ClientIp, Console/Auth: security/ratelimit.py, security/edge.py and
--   auth/sessions.py of the console.
-- - Tests: the theorems at concrete inputs.
--
-- How the code is read. Numbers are natural; the byte counts, ports and times of the code are not
-- negative. Times are milliseconds, in Relay/Flow microseconds. Bytes and the texts that are parsed
-- are lists of numbers; identifiers are native strings. A method that holds its lock or has no await
-- is one step, and concurrency is the order of the steps: the data types Reach, Reachable and Served
-- hold every such order. Worker/Service has each handler, and the relaunch, as run alone; in its
-- Lifetimes they are cut at the calls of the driver, whose steps come in any order. An
-- exception is a value of Result, and Outcome is the end of a command outside.
--
-- What stands outside the code is a parameter with the facts that the proofs use: UTF-8 and
-- ipaddress (Host), SHA-224 (Digest), the AEAD of a cipher under a salt (Cipher), HMAC (Hmac), clocks
-- and dates (Time, Now), str.strip and str.lower (Str), JSON (Codec), uuid5, the floating-point rate
-- of the gate (Rates), what httpx makes of a path, the probe of a free port, docker and the processes of the operating system.
-- What a call or a disk does is an argument with all its outcomes: Saving for a save, Delivery for a
-- call to a core, Site and Railway for a deployment. The tables of the database are part of the
-- state, and a statement on them does not fail.
--
-- Fuel. decrypt_loop runs on the length of its buffer, since each round takes 34 bytes or more;
-- drain runs on the size of its buffer, since each round takes a packet. The health checks and the
-- polls of a deployment run on the number of attempts that the code gives them, 30 and 90. The drain
-- of the debounce runs on 2 wakes, which its theorem shows to be enough.
--
-- Not modelled: sockets, websockets and HTTP, the websocket pumps around the gate, the share links and
-- reports of the core, the worker's metrics and heartbeat, and the gateway, the GitHub login, the other
-- routers and the pages of the console.
pub mod Prelude
pub mod Core
pub mod Relay
pub mod Console
pub mod Worker
pub mod DirectToken
pub mod Tests
