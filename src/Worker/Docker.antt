-- ===== src/Worker/Docker.antt =====
-- `DockerDriver` of worker/voidz_worker/driver.py. What docker answers is an argument.
use voidz.Prelude.{ℕ, Bool, [], ◌++◌, none, some, take, list_eq, nat_eq}
use voidz.Prelude.Dict
use voidz.Prelude.Dict.{get, put}
use voidz.Worker.Ports.{allocate, release}
use voidz.Prelude.Texts.{codes}
use voidz.Relay.Bytes.{Text}
use voidz.Worker.Driver.{
  InstanceId, LaunchSpec, Handle, Driver, Outcome, Report, done, driver_error, other_error, forget,
}

-- A failed run releases the port again, if the failure is a `DriverError`.
unfoldable pub started :
    LaunchSpec → ℕ → Driver Text → Outcome Unit → Outcome (Handle Text) × Driver Text
started spec port d (done u) =
    let handle : Handle Text = record {
      reference = codes "voidz-inst-" ++ take 12 spec.instance_id;
      port = port;
      api_token = spec.api_token;
    } in
    (done handle, record d { handles = put spec.instance_id handle d.handles })
started spec port d driver_error = (driver_error, record d { ports = release port d.ports })
started spec port d other_error = (other_error, d)

-- `DockerDriver.launch`: `run` is what `docker run` does.
unfoldable pub launch :
    (ℕ → Bool) → LaunchSpec → Outcome Unit → Driver Text → Outcome (Handle Text) × Driver Text
launch port_is_free spec run d = elim (allocate port_is_free spec.port d.ports) [
  | none ↦ (driver_error, d)
  | some (port, ports) ↦ started spec port (record d { ports = ports }) run
]

-- `DockerDriver.stop`: `answer` is what `docker stop` does.
unfoldable pub stop : InstanceId → Outcome Unit → Driver Text → Outcome Unit
stop id answer d = elim (get id d.handles) [ none ↦ driver_error | some handle ↦ answer ]

unfoldable pub inspected : ℕ → Outcome Bool → Outcome Report
inspected port (done running) = done (some (running, port))
inspected port driver_error = driver_error
inspected port other_error = other_error

-- `DockerDriver.status`: `answer` is what `docker inspect` says of the container.
unfoldable pub status : InstanceId → Outcome Bool → Driver Text → Outcome Report
status id answer d = elim (get id d.handles) [
  | none ↦ done none
  | some handle ↦ inspected handle.port answer
]

-- `DockerDriver.remove`: the port is released however `docker rm` ends.
unfoldable pub remove : InstanceId → Outcome Unit → Driver Text → Outcome Unit × Driver Text
remove id rm d = elim (get id d.handles) [
  | none ↦ (done tt, d)
  | some handle ↦
      (rm, record { ports = release handle.port d.ports; handles = Dict.remove id d.handles })
]

-- A worker's driver from its start: launches, removals, and handles that are dropped, one after
-- another.
pub data Reachable : Driver Text → Type 0 where
  start :
      (first last : ℕ)
      → Reachable (record {
        ports = record { first_port = first; last_port = last; used = [] };
        handles = [];
      })
  launched :
      {d : Driver Text} (port_is_free : ℕ → Bool) (spec : LaunchSpec) (run : Outcome Unit)
      → Reachable d
      → Reachable ((launch port_is_free spec run d).1)
  removed :
      {d : Driver Text} (id : InstanceId) (rm : Outcome Unit)
      → Reachable d
      → Reachable ((remove id rm d).1)
  forgotten : {d : Driver Text} (id : InstanceId) → Reachable d → Reachable (forget id d)
