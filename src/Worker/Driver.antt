-- ===== src/Worker/Driver.antt =====
-- What the drivers of worker/voidz_worker/driver.py share: launch parameters, the instances that
-- are known with their ports, and how a command of docker or the operating system ends.
use voidz.Prelude.{ℕ, Bool, Option, list_eq, nat_eq}
use voidz.Prelude.Dict
use voidz.Prelude.Dict.{Dict}
use voidz.Relay.Bytes.{Text}
use voidz.Worker.Ports.{PortAllocator}

-- An instance's id, as the console names it.
abbrev pub InstanceId : Type 0
InstanceId = Text

-- `cpu_limit` is in thousandths of a processor.
pub record LaunchSpec : Type 0 where
  pub instance_id : InstanceId
  pub deployment_id : Text
  pub core_version : Text
  pub api_token : Text
  pub public_host : Text
  pub cpu_limit : ℕ
  pub memory_mb : ℕ
  pub max_processes : ℕ
  pub port : Option ℕ

-- `InstanceHandle`: a container's name or a process's number, the port, and `meta["api_token"]`.
pub record Handle (R : Type 0) : Type 0 where
  pub reference : R
  pub port : ℕ
  pub api_token : Text

pub record Driver (R : Type 0) : Type 0 where
  pub ports : PortAllocator
  pub handles : Dict InstanceId (Handle R)

-- `handles.pop(instance_id, None)`
unfoldable pub forget : {R : Type 0} → InstanceId → Driver R → Driver R
forget id d = record d { handles = Dict.remove id d.handles }

-- How a command ends: with its result, with `DriverError`, or with another exception.
pub data Outcome (A : Type 0) : Type 0 where
  done : A → Outcome A
  driver_error : Outcome A
  other_error : Outcome A

-- The answer of `status`: nothing for an instance that is not known, else whether it runs, and
-- its port.
abbrev pub Report : Type 0
Report = Option (Bool × ℕ)
