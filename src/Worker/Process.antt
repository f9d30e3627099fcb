-- ===== src/Worker/Process.antt =====
-- `ProcessDriver` of worker/voidz_worker/driver.py. The processes are those of the operating
-- system; what it does when a process is created, and whether a process that is asked to end does
-- so in time, are arguments.
pub mod Orphans
use voidz.Prelude.{
  ℕ, Bool, true, false, not, List, [], ◌∷◌, Option, none, some, keep, contains, ◌==◌, if◌then◌else◌,
  list_eq, nat_eq,
}
use voidz.Prelude.Dict
use voidz.Prelude.Dict.{get, put}
use voidz.Worker.Ports.{allocate, release}
use voidz.Worker.Driver.{
  InstanceId, LaunchSpec, Handle, Driver, Outcome, Report, forget, done, driver_error, other_error,
}

pub record Machine : Type 0 where
  pub driver : Driver ℕ
  pub alive : List ℕ

-- The process is created, or its creation raises and nothing is undone.
unfoldable pub spawned : LaunchSpec → ℕ → Machine → Outcome ℕ → Outcome (Handle ℕ) × Machine
spawned spec port m (done pid) =
    let handle : Handle ℕ = record { reference = pid; port = port; api_token = spec.api_token } in
    (
      done handle,
      record {
        driver = record m.driver { handles = put spec.instance_id handle m.driver.handles };
        alive = pid ∷ m.alive;
      },
    )
spawned spec port m driver_error = (driver_error, m)
spawned spec port m other_error = (other_error, m)

unfoldable pub launch : (ℕ → Bool) → LaunchSpec → Outcome ℕ → Machine → Outcome (Handle ℕ) × Machine
launch port_is_free spec spawn m = elim (allocate port_is_free spec.port m.driver.ports) [
  | none ↦ (driver_error, m)
  | some (port, ports) ↦
      spawned spec port (record m { driver = record m.driver { ports = ports } }) spawn
]

-- `terminate`, a wait, and `kill`: the process has ended when this returns.
unfoldable pub stop : InstanceId → Machine → Outcome Unit × Machine
stop id m = elim (get id m.driver.handles) [
  | none ↦ (driver_error, m)
  | some handle ↦
      (done tt, record m { alive = keep (λ pid. not (pid == handle.reference)) m.alive })
]

-- The handle is popped, `stop` is called and its `DriverError` passed over, the port released.
unfoldable pub remove : InstanceId → Machine → Outcome Unit × Machine
remove id m = elim (get id m.driver.handles) [
  | none ↦ (done tt, m)
  | some handle ↦
      let popped = record m {
        driver = record m.driver { handles = Dict.remove id m.driver.handles };
      } in
      let stopped = (stop id popped).1 in
      (
        done tt,
        record stopped {
          driver = record stopped.driver { ports = release handle.port stopped.driver.ports };
        },
      )
]

-- `ProcessDriver.status`
unfoldable pub status : InstanceId → Machine → Report
status id m = elim (get id m.driver.handles) [
  | none ↦ none
  | some handle ↦ some (contains m.alive handle.reference, handle.port)
]

-- A worker's driver from its start: launches, stops and removals, handles that are dropped, and
-- processes that end by themselves.
pub data Reachable : Machine → Type 0 where
  start :
      (first last : ℕ)
      → Reachable (record {
        driver = record {
          ports = record { first_port = first; last_port = last; used = [] };
          handles = [];
        };
        alive = [];
      })
  launched :
      {m : Machine} (port_is_free : ℕ → Bool) (spec : LaunchSpec) (spawn : Outcome ℕ)
      → Reachable m
      → Reachable ((launch port_is_free spec spawn m).1)
  stopped : {m : Machine} (id : InstanceId) → Reachable m → Reachable ((stop id m).1)
  removed : {m : Machine} (id : InstanceId) → Reachable m → Reachable ((remove id m).1)
  ended :
      {m : Machine} (pid : ℕ)
      → Reachable m
      → Reachable (record m { alive = keep (λ p. not (p == pid)) m.alive })
  forgotten :
      {m : Machine} (id : InstanceId)
      → Reachable m
      → Reachable (record m { driver = forget id m.driver })
