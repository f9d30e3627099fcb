-- ===== src/Console/Pipelines.antt =====
-- The two pipelines, and what runs them
-- (console/api/voidz_console/services/deployments.py).
pub mod Healthy
pub mod Endings
pub mod Rows
pub mod Kept
pub mod Runs
use Prim.Native.String.{◌++◌ as ◌⧺◌}
use voidz.Prelude.{
  ℕ, zero, suc, ◌+◌, ◌*◌, max, String, Bool, true, false, not, ◌||◌, ◌&&◌, List, [], ◌∷◌, ◌++◌,
  Option, none, some, any, keep, leb, ltb, if◌then◌else◌, ◌==◌, string_eq,
}
use voidz.Prelude.Result.{Exn, Result, ok, raise, value_error, runtime_error, name_error}
use voidz.Prelude.Dict
use voidz.Prelude.Dict.{Dict}
use voidz.Console.Workers.{WorkerRow, pick_worker}
use voidz.Console.Deploy.{
  Status, queued, preparing, building, starting, health_check, running, failed, stopped, Deployment,
  Instance, InstanceLink, Tables, Task, ◌>>=◌, ◌>>◌, call, write, ask, update_row, set_instance,
  set_deployment, finish_deployment, Probe, health_checks, public_checks, require_healthy,
  health_check_attempts, railway_poll_attempts,
}

-- What the outside does during one run, and the time at its end. `post` is the answer of the new
-- core to the creation of a link, `none` if that raises.
pub record Site : Type 0 where
  pub now : ℕ
  pub workers : List WorkerRow
  pub default_node : String
  pub region : Option String
  pub launch : Result (Unit {0})
  pub probe : ℕ → Probe
  pub post : String → Option String

-- Railway: whether it is configured, and the results of its calls.
pub record Railway : Type 0 where
  pub configured : Bool
  pub create_service : Result String
  pub create_domain : Result String
  pub configure_service : Result (Unit {0})
  pub restart_service : Result (Unit {0})
  pub start_service : Result (Unit {0})
  pub latest_deployment : ℕ → Result (Option String)
  pub stop_service : Result (Unit {0})
  pub public : ℕ → Probe

unfoldable pub pretty : String → String
pretty p =
    if p == "vless-ws"
    then "VLESS"
    else if p == "trojan-ws"
    then "Trojan"
    else if p == "shadowsocks"
    then "Shadowsocks"
    else if p == "xhttp-packet-up" || p == "xhttp-stream-up"
    then "xHTTP"
    else p

-- The rows that the loop inserts before it ends or raises.
unfoldable pub created_links :
    (String → Option String) → String → String → List String → List InstanceLink
created_links post instance_id name [] = []
created_links post instance_id name (proto ∷ protos) =
    let rest = created_links post instance_id name protos in
    elim (post proto) [
      | none ↦ []
      | some uuid ↦
          record {
            instance_id = instance_id;
            link_uuid = uuid;
            label = name ⧺ (" · " ⧺ pretty proto);
          }
          ∷ rest
    ]

-- The protocols of the configuration, or else the one of the instance.
unfoldable pub selected : Instance → List String
selected inst = elim inst.protocols [
  | p ∷ ps ↦ p ∷ ps
  | [] ↦
      (elim inst.protocol [ none ↦ "vless-ws" | some p ↦ if p == "" then "vless-ws" else p ]) ∷ []
]

unfoldable pub provision_default_link : Site → String → Tables → Tables
provision_default_link site id t = elim (Dict.get id t.instances) [
  | none ↦ t
  | some inst ↦
      if any (λ (link : InstanceLink). link.instance_id == id) t.links
      then t
      else record t { links = t.links ++ created_links site.post id inst.name (selected inst) }
]

-- The last statements of both pipelines.
unfoldable pub finish_running : Site → String → String → Task (Unit {0})
finish_running site dep id = do
  write (provision_default_link site id)
  write (finish_deployment dep running none site.now)
  write (set_instance id running)

unfoldable pub set_node : String → String → Tables → Tables
set_node dep node t = record t {
  deployments = update_row dep (λ (d : Deployment). record d { node_id = some node }) t.deployments;
}

unfoldable pub pipeline_local : Site → String → String → Task (Unit {0})
pipeline_local site dep id = do
  write (set_deployment dep preparing)
  write (set_node dep (pick_worker site.default_node site.region site.workers))
  write (set_deployment dep building)
  write (set_deployment dep starting)
  call site.launch
  write (set_deployment dep health_check)
  healthy ← call (health_checks site.probe health_check_attempts 1)
  call (require_healthy healthy)
  finish_running site dep id

-- A deployment that Railway reports: `STATUS_MAP` is no name of the module, so its status raises.
unfoldable pub after_poll : Result (Option String) → Result (Unit {0}) → Result (Unit {0})
after_poll (raise e) rest = raise e
after_poll (ok none) rest = rest
after_poll (ok (some status)) rest = raise name_error

unfoldable pub polls : (ℕ → Result (Option String)) → ℕ → ℕ → Result (Unit {0})
polls latest zero attempt = ok tt
polls latest (suc left) attempt = after_poll (latest attempt) (polls latest left (attempt + 1))

abbrev pub on_railway : String → Instance → Instance
on_railway service inst = record inst { provider = some "railway"; provider_ref = some service }

-- The service of an instance, created where it has none.
unfoldable pub service_of : Railway → String → Option String → Task String
service_of rail id (some service) = call (ok service)
service_of rail id none = do
  service ← call rail.create_service
  write (λ t. record t { instances = update_row id (on_railway service) t.instances })
  call (ok service)

unfoldable pub domain_of : Railway → String → Option String → Task String
domain_of rail id (some domain) = call (ok domain)
domain_of rail id none = do
  domain ← call rail.create_domain
  write (λ t. record t { domains = Dict.put id domain t.domains })
  call (ok domain)

-- `inst` is the row as it was when the deployment was queued.
unfoldable pub triggered : Railway → Instance → Bool → Result (Unit {0})
triggered rail inst is_redeploy = elim inst.provider_ref [
  | none ↦ rail.start_service
  | some service ↦ if is_redeploy then rail.restart_service else rail.start_service
]

unfoldable pub require_configured : Bool → Result (Unit {0})
require_configured true = ok tt
require_configured false = raise runtime_error

unfoldable pub pipeline_railway :
    Site → Railway → String → String → Instance → Bool → Task (Unit {0})
pipeline_railway site rail dep id inst is_redeploy = do
  call (require_configured rail.configured)
  write (set_deployment dep preparing)
  service_of rail id inst.provider_ref
  known ← ask (λ t. Dict.get id t.domains)
  domain_of rail id known
  write (set_deployment dep building)
  call rail.configure_service
  write (set_deployment dep starting)
  call (triggered rail inst is_redeploy)
  call (polls rail.latest_deployment railway_poll_attempts 1)
  write (set_deployment dep health_check)
  healthy ← call (public_checks rail.public health_check_attempts 1)
  call (require_healthy healthy)
  finish_running site dep id

unfoldable pub is_railway : Instance → Bool
is_railway inst = elim inst.provider [ none ↦ false | some p ↦ p == "railway" ]

unfoldable pub pipeline : Site → Railway → String → String → Instance → Bool → Task (Unit {0})
pipeline site rail dep id inst is_redeploy =
    if is_railway inst || rail.configured
    then pipeline_railway site rail dep id inst is_redeploy
    else pipeline_local site dep id

-- `except Exception`
unfoldable pub settle : Site → String → String → Result (Unit {0}) × Tables → Tables
settle site dep id (ok _, t) = t
settle site dep id (raise e, t) =
    set_instance id failed (finish_deployment dep failed (some e) site.now t)

unfoldable pub run_pipeline : Site → Railway → String → String → Instance → Bool → Tables → Tables
run_pipeline site rail dep id inst is_redeploy t =
    settle site dep id (pipeline site rail dep id inst is_redeploy t)
