-- ===== src/Worker/Service.antt =====
-- The instance lifecycle of worker/voidz_worker/main.py: the routes under
-- /worker/api/instances, behind the worker's token, and the relaunch after a restart. What the
-- driver answers to each call is an argument, and so is whether the registry's file is written.
pub mod Agreement
pub mod Relaunch
pub mod Lifetimes
pub mod Handlers
pub mod Leak
use voidz.Prelude.{
  ℕ, Bool, true, false, not, ◌||◌, List, [], ◌∷◌, Option, none, some, eqb, ◌==◌, list_eq, nat_eq,
  if◌then◌else◌,
}
use voidz.Prelude.Dict.{Dict, get}
use voidz.Prelude.Result.{Result, ok, raise, http, fail_if, ◌>>=◌, ◌>>◌}
use voidz.Prelude.Texts.{codes}
use voidz.Relay.Bytes.{Text, compare_digest}
use voidz.Worker.Driver.{
  InstanceId, LaunchSpec, Handle, Outcome, Report, done, driver_error, other_error,
}
use voidz.Worker.Api.{DriverApi}
use voidz.Worker.Registry
use voidz.Worker.Registry.{Entry, Rows, RegistryFile, Write, load, save_instance}

-- `require_worker_token` on the stripped bearer token of a request.
unfoldable pub require_worker_token : Text → Text → Result (Unit {0})
require_worker_token worker_token token = do
  fail_if (token == []) (http 401)
  same ← compare_digest token worker_token
  fail_if (not same) (http 401)

-- The body of a launch, with the types the console sends: an absent field is empty or 0.
pub record LaunchBody : Type 0 where
  pub deployment_id : Text
  pub core_version : Text
  pub core_api_token : Text
  pub public_host : Text
  pub cpu_limit : ℕ
  pub memory_mb : ℕ
  pub max_processes : ℕ

-- Python's `or`, on texts and on numbers.
unfoldable pub text_or : Text → Text → Text
text_or [] other = other
text_or (c ∷ cs) other = c ∷ cs

unfoldable pub number_or : ℕ → ℕ → ℕ
number_or n other = if eqb n 0 then other else n

-- The `LaunchSpec` of a launch and of a restart; `drawn` is `secrets.token_urlsafe(24)`.
unfoldable pub launch_spec : InstanceId → LaunchBody → Text → LaunchSpec
unfolding text_or number_or
launch_spec id body drawn = record {
  instance_id = id;
  deployment_id = body.deployment_id;
  core_version = text_or body.core_version (codes "latest");
  api_token = text_or body.core_api_token drawn;
  public_host = body.public_host;
  cpu_limit = number_or body.cpu_limit 500;
  memory_mb = number_or body.memory_mb 256;
  max_processes = number_or body.max_processes 128;
  port = none;
}

-- The row that is saved of a launch.
unfoldable pub entry_of : {R : Type 0} → LaunchSpec → Handle R → Entry
entry_of spec handle = record {
  deployment_id = spec.deployment_id;
  core_version = spec.core_version;
  api_token = spec.api_token;
  public_host = spec.public_host;
  cpu_limit = spec.cpu_limit;
  memory_mb = spec.memory_mb;
  max_processes = spec.max_processes;
  port = handle.port;
}

-- The `LaunchSpec` of a row after a restart of the worker.
unfoldable pub relaunch_spec : InstanceId → Entry → Text → LaunchSpec
unfolding text_or number_or
relaunch_spec id entry drawn = record {
  instance_id = id;
  deployment_id = entry.deployment_id;
  core_version = text_or entry.core_version (codes "latest");
  api_token = text_or entry.api_token drawn;
  public_host = entry.public_host;
  cpu_limit = number_or entry.cpu_limit 500;
  memory_mb = number_or entry.memory_mb 256;
  max_processes = number_or entry.max_processes 128;
  port = if eqb entry.port 0 then none else some entry.port;
}

-- The driver with its machine, and the registry's file.
pub record Worker (M : Type 0) : Type 0 where
  pub machine : M
  pub registry : RegistryFile

module _ {R M W : Type 0} (api : DriverApi R M W) where
  open api use {handles}

  unfoldable pub is_known : InstanceId → M → Bool
  is_known id m = elim (get id (handles m)) [ none ↦ false | some h ↦ true ]

  -- A redeploy stops the instance, passes over a `DriverError` and drops the handle.
  unfoldable pub dropped : InstanceId → Outcome Unit × M → Result (Unit {0}) × M
  dropped id (done u, m) = (ok tt, api.forget id m)
  dropped id (driver_error, m) = (ok tt, api.forget id m)
  dropped id (other_error, m) = (raise (http 500), m)

  -- A restart stops it and reports the error.
  unfoldable pub stopped : Outcome Unit × M → Result (Unit {0}) × M
  stopped (done u, m) = (ok tt, m)
  stopped (driver_error, m) = (raise (http 502), m)
  stopped (other_error, m) = (raise (http 500), m)

  -- What a launch answers, and the saved row.
  unfoldable pub answered :
      LaunchSpec → Write → RegistryFile → Outcome (Handle R) × M → Result (Handle R) × Worker M
  unfolding entry_of
  answered spec write file (done h, m) = (
    ok h,
    record { machine = m; registry = save_instance spec.instance_id (entry_of spec h) write file },
  )
  answered spec write file (driver_error, m) =
      (raise (http 502), record { machine = m; registry = file })
  answered spec write file (other_error, m) =
      (raise (http 500), record { machine = m; registry = file })

  -- The launch behind the stop, unless that ended the request.
  unfoldable pub launch_behind :
      LaunchSpec → W → Write → RegistryFile → Result (Unit {0}) × M → Result (Handle R) × Worker M
  launch_behind spec w write file (raise e, m) = (raise e, record { machine = m; registry = file })
  launch_behind spec w write file (ok u, m) = answered spec write file (api.launch spec w m)

  -- `w` and `w'` are what the stop and the launch meet.
  unfoldable pub launch_instance :
      InstanceId → LaunchBody → Text → W → W → Write → Worker M → Result (Handle R) × Worker M
  unfolding is_known
  launch_instance id body drawn w w' write s =
      launch_behind (launch_spec id body drawn) w' write s.registry
        (if is_known id s.machine then dropped id (api.stop id w s.machine) else (ok tt, s.machine))

  unfoldable pub restart_instance :
      InstanceId → LaunchBody → Text → W → W → Write → Worker M → Result (Handle R) × Worker M
  unfolding is_known
  restart_instance id body drawn w w' write s =
      launch_behind (launch_spec id body drawn) w' write s.registry
        (if is_known id s.machine then stopped (api.stop id w s.machine) else (ok tt, s.machine))

  unfoldable pub stop_instance : InstanceId → W → Worker M → Result (Unit {0}) × Worker M
  stop_instance id w s =
      let (answer, m) = stopped (api.stop id w s.machine) in (answer, record s { machine = m })

  -- The row is removed only if the driver's removal did not raise.
  unfoldable pub removed :
      InstanceId → Write → RegistryFile → Result (Unit {0}) × M → Result (Unit {0}) × Worker M
  removed id write file (raise e, m) = (raise e, record { machine = m; registry = file })
  removed id write file (ok u, m) =
      (ok tt, record { machine = m; registry = Registry.remove id write file })

  -- The handler run alone; Lifetimes takes the await of `driver.remove` as the place where another
  -- one may run.
  unfoldable pub remove_instance : InstanceId → W → Write → Worker M → Result (Unit {0}) × Worker M
  remove_instance id w write s = removed id write s.registry (stopped (api.remove id w s.machine))

  -- One row: an instance that is known is passed by, and so is an exception of the launch.
  unfoldable pub relaunch_row : InstanceId × Entry → Text → W → M → M
  unfolding is_known
  relaunch_row (id, entry) drawn w m =
      if is_known id m then m else (api.launch (relaunch_spec id entry drawn) w m).1

  -- `_relaunch_known_instances`, with a token drawn and an answer for each row, where no handler
  -- runs between two rows; Lifetimes takes each row as a step.
  unfoldable pub relaunch_all : (InstanceId → Text × W) → Rows → M → M
  relaunch_all at_row [] m = m
  relaunch_all at_row ((id, entry) ∷ rows) m =
      relaunch_all at_row rows (relaunch_row (id, entry) (at_row id).0 (at_row id).1 m)

  unfoldable pub relaunch_known_instances : (InstanceId → Text × W) → Worker M → Worker M
  relaunch_known_instances at_row s = record s {
    machine = relaunch_all at_row (load s.registry) s.machine;
  }
