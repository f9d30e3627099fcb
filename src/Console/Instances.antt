-- ===== src/Console/Instances.antt =====
-- Deployments are queued, and instances stopped and restarted
-- (console/api/voidz_console/services/deployments.py).
use voidz.Prelude.{
  ℕ, ◌+◌, max, String, Bool, true, false, ◌||◌, ◌&&◌, [], ◌∷◌, Option, none, some, if◌then◌else◌,
  ◌==◌, string_eq,
}
use voidz.Prelude.Result.{Result, ok, raise, value_error, or_raise}
use voidz.Prelude.Dict
use voidz.Prelude.Dict.{Dict}
use voidz.Console.Deploy.{
  queued, starting, stopped, Deployment, Instance, Tables, Task, ◌>>=◌, ◌>>◌, call, write, ask,
  set_instance,
}
use voidz.Console.Pipelines.{Railway, is_railway}

-- `COALESCE(MAX(version), 0) + 1`
unfoldable pub last_version : String → Dict String Deployment → ℕ
last_version id [] = 0
last_version id ((dep, d) ∷ rows) =
    let others = last_version id rows in
    if d.instance_id == id then max d.version others else others

-- `dep` is `token_hex(16)`. The pipeline runs later, on the row that is returned.
unfoldable pub deploy_instance : String → String → ℕ → Tables → Result Instance × Tables
deploy_instance dep id now t = elim (Dict.get id t.instances) [
  | none ↦ (raise value_error, t)
  | some inst ↦ (
    ok inst,
    record t {
      deployments =
          Dict.put dep
            (record {
              instance_id = id;
              version = last_version id t.deployments + 1;
              status = queued;
              error = none;
              started_at = some now;
              finished_at = none;
              duration_ms = none;
              node_id = none;
            })
            t.deployments;
    },
  )
]

-- `_provider_for_instance`
unfoldable pub lives_on_railway : Railway → Instance → Bool
lives_on_railway rail inst =
    is_railway inst || ((elim inst.provider [ none ↦ true | some p ↦ false ]) && rail.configured)

unfoldable pub instance_row : String → Task Instance
instance_row id = do row ← ask (λ t. Dict.get id t.instances); call (or_raise value_error row)

-- The call that stops an instance: of Railway where it has a service there, or of its worker.
unfoldable pub stop_call : Railway → Result (Unit {0}) → Instance → Result (Unit {0})
stop_call rail worker_stop inst =
    if lives_on_railway rail inst
    then elim inst.provider_ref [
      | none ↦ ok tt
      | some service ↦ if rail.configured then rail.stop_service else ok tt
    ]
    else worker_stop

unfoldable pub stop_instance : Railway → Result (Unit {0}) → String → Task (Unit {0})
stop_instance rail worker_stop id = do
  inst ← instance_row id
  call (stop_call rail worker_stop inst)
  write (set_instance id stopped)

unfoldable pub restart_call : Railway → Instance → Result (Unit {0})
restart_call rail inst = elim inst.provider_ref [
  | none ↦ ok tt
  | some service ↦ if rail.configured then rail.restart_service else ok tt
]

unfoldable pub restart_service : Railway → String → Instance → Task (Option Instance)
restart_service rail id inst = do
  call (restart_call rail inst)
  write (set_instance id starting)
  call (ok none)

unfoldable pub redeploy : String → String → ℕ → Task (Option Instance)
redeploy dep id now = do inst ← deploy_instance dep id now; call (ok (some inst))

-- An instance of a worker is deployed again: the row on which its pipeline will run.
unfoldable pub restart_instance : Railway → String → String → ℕ → Task (Option Instance)
restart_instance rail dep id now = do
  inst ← instance_row id
  if lives_on_railway rail inst then restart_service rail id inst else redeploy dep id now
