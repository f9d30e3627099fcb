-- ===== src/Worker/Registry.antt =====
-- worker/voidz_worker/registry.py: the file that keeps the launch parameters of a worker's
-- instances over its restarts.
use voidz.Prelude.{ℕ, ◌≡◌, [], Option, none, some, list_eq, nat_eq, ◌==◌, if◌then◌else◌}
use voidz.Prelude.Dict
use voidz.Prelude.Dict.{Dict, get, get-put, get-remove}
use voidz.Relay.Bytes.{Text}
use voidz.Worker.Driver.{InstanceId}

-- A row of the file. `cpu_limit` is in thousandths of a processor.
pub record Entry : Type 0 where
  pub deployment_id : Text
  pub core_version : Text
  pub api_token : Text
  pub public_host : Text
  pub cpu_limit : ℕ
  pub memory_mb : ℕ
  pub max_processes : ℕ
  pub port : ℕ

abbrev pub Rows : Type 0
Rows = Dict InstanceId Entry

-- What the file holds: nothing, if it is not there or cannot be read.
abbrev pub RegistryFile : Type 0
RegistryFile = Option Rows

-- How a write ends: the file is written, or `OSError` is passed over and the file holds whatever
-- it holds then.
pub data Write : Type 0 where
  written : Write
  failed : RegistryFile → Write

unfoldable pub load : RegistryFile → Rows
load none = []
load (some rows) = rows

unfoldable pub write_text : Rows → Write → RegistryFile
write_text rows written = some rows
write_text rows (failed after) = after

unfoldable pub save_instance : InstanceId → Entry → Write → RegistryFile → RegistryFile
unfolding load write_text
save_instance id entry write file = write_text (Dict.put id entry (load file)) write

-- The file is written only if the instance is there.
unfoldable pub remove : InstanceId → Write → RegistryFile → RegistryFile
unfolding load write_text
remove id write file = elim (get id (load file)) [
  | none ↦ file
  | some entry ↦ write_text (Dict.remove id (load file)) write
]

pub load-save_instance :
    (id j : InstanceId) (entry : Entry) (file : RegistryFile)
    → get j (load (save_instance id entry written file))
      ≡ (if id == j then some entry else get j (load file))
unfolding load save_instance
load-save_instance id j entry none = get-put id j entry []
load-save_instance id j entry (some rows) = get-put id j entry rows
