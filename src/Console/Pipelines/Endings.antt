-- ===== src/Console/Pipelines/Endings.antt =====
-- Every run of a pipeline comes to an end
-- (console/api/voidz_console/services/deployments.py).
use voidz.Prelude.{
  ℕ, ◌≡◌, refl, ap, String, Bool, true, false, Option, none, some, string_eq, Option-cases, inl,
  inr,
}
use mathlib.Core.Path.{subst}
use voidz.Prelude.Result.{Exn, Result, ok, raise}
use voidz.Prelude.Dict
use voidz.Prelude.Dict.{Dict, get-put, get-put-some}
use voidz.Console.Workers.{pick_worker}
use voidz.Console.Pipelines.Healthy.{WasHealthy, health_checks-WasHealthy, public_checks-WasHealthy}
use voidz.Console.Deploy.{
  ◌>>=◌, ◌>>◌, call, write, ask, railway_poll_attempts, building, health_check, preparing,
  set_deployment, starting, Status, running, Deployment, Instance, Tables, Task, resume, update_row,
  set_instance, with_status, follow, ended, finish_deployment, Probe, health_checks, public_checks,
  require_healthy, health_check_attempts,
}
use voidz.Console.Pipelines.{
  require_configured, service_of, domain_of, triggered, polls, Site, Railway,
  provision_default_link, finish_running, pipeline_local, pipeline_railway, set_node,
}

-- where a row comes from after an update
get-update_row {ℓ} :
    {V : Type ℓ} (id : String) (f : V → V) (rows : Dict String V) (row : V)
    → Dict.get id (update_row id f rows) ≡ some row
    → (old : V) × (row ≡ f old)
unfolding update_row
get-update_row id f rows row h = elim (Option-cases (Dict.get id rows)) [
  | inl absent ↦ (let no = rw (absent, update_row) at h in cc)
  | inr (old, there) ↦ elim (get-put-some id id (f old) row rows (rw (there, update_row) at h)) [
    | inl (_, new) ↦ (old, new)
    | inr (other, _) ↦ absurd (other refl)
  ]
]

follow-deployments :
    (dep : String) (status : Status) (t : Tables)
    → (follow dep status t).deployments ≡ t.deployments
unfolding follow set_instance
follow-deployments dep status t = elim (Option-cases (Dict.get dep t.deployments)) [
  | inl absent ↦ rw (absent, follow)
  | inr (d, there) ↦ rw (there, follow)
]

-- The deployment has ended with a status that the instance has too.
abbrev pub HasEnded : String → String → ℕ → Status → Tables → Type 0
HasEnded dep id now status t =
    (d : Deployment) (inst : Instance)
    → Dict.get dep t.deployments ≡ some d
    → Dict.get id t.instances ≡ some inst
    → (d.finished_at ≡ some now) × (d.status ≡ status) × (inst.status ≡ status)

pub finish-HasEnded :
    (dep id : String) (status : Status) (error : Option Exn) (now : ℕ) (t : Tables)
    → HasEnded dep id now status (set_instance id status (finish_deployment dep status error now t))
unfolding set_instance finish_deployment ended
finish-HasEnded dep id status error now t d inst found_d found_inst =
    let rows = update_row dep (ended status error now) t.deployments in
    let (old_d, d_is) = get-update_row dep (ended status error now) t.deployments d (
      subst (λ r. Dict.get dep r ≡ some d)
        (follow-deployments dep status (record t { deployments = rows })) found_d) in
    let (old_i, inst_is) =
      get-update_row id (with_status status)
        (follow dep status (record t { deployments = rows })).instances inst found_inst in
    (
      ap (λ (r : Deployment). r.finished_at) d_is,
      ap (λ (r : Deployment). r.status) d_is,
      ap (λ (r : Instance). r.status) inst_is,
    )

-- What holds after each rest of a task that returns holds after the task.
resume-returns {ℓ κ} :
    {A : Type ℓ} (P : Tables → Type κ) (result : Result A) (t : Tables) (next : A → Task (Unit {0}))
    → ((a : A) → result ≡ ok a → (next a t).0 ≡ ok tt → P (next a t).1)
    → (resume result t next).0 ≡ ok tt
    → P (resume result t next).1
unfolding resume
resume-returns P (raise e) t next h returns = cc
resume-returns P (ok a) t next h returns = h a refl returns

require_healthy-ok : (healthy : Bool) → require_healthy healthy ≡ ok tt → healthy ≡ true
unfolding require_healthy
require_healthy-ok true h = refl
require_healthy-ok false h = cc

-- What a pipeline that returns has left.
abbrev pub IsDone : (ℕ → Probe) → Site → String → String → Tables → Type 0
IsDone probe site dep id t =
    HasEnded dep id site.now running t × WasHealthy probe 1 health_check_attempts

finish_running-HasEnded :
    (site : Site) (dep id : String) (t : Tables)
    → HasEnded dep id site.now running (finish_running site dep id t).1
unfolding finish_running resume
finish_running-HasEnded site dep id t =
    finish-HasEnded dep id running none site.now (provision_default_link site id t)

-- The last steps of both pipelines, from the result of the health checks on.
checked : Site → String → String → Bool → Task (Unit {0})
checked site dep id healthy =
    λ t. resume (require_healthy healthy) t (λ _. finish_running site dep id)

checked-IsDone :
    (probe : ℕ → Probe) (site : Site) (dep id : String) (checks : Result Bool) (t : Tables)
    → (checks ≡ ok true → WasHealthy probe 1 health_check_attempts)
    → (resume checks t (checked site dep id)).0 ≡ ok tt
    → IsDone probe site dep id (resume checks t (checked site dep id)).1
unfolding resume require_healthy checked
checked-IsDone probe site dep id (raise e) t healthy returns = cc
checked-IsDone probe site dep id (ok false) t healthy returns = cc
checked-IsDone probe site dep id (ok true) t healthy returns =
    (finish_running-HasEnded site dep id t, healthy refl)

-- A task after which a property holds if it returns.
pub record IsFollowed (P : Tables → Type 0) (m : Task (Unit {0})) : Type 0 where
  pub at_end : (t : Tables) → (m t).0 ≡ ok tt → P (m t).1

-- a task, and one that goes on with its value
bind-IsFollowed {ℓ} :
    {A : Type ℓ} {P : Tables → Type 0} (m : Task A) {next : A → Task (Unit {0})}
    → ((a : A) → IsFollowed P (next a))
    → IsFollowed P (m >>= next)
bind-IsFollowed {P = P} m {next = next} rest = record {
  at_end =
      λ t returns. resume-returns P (m t).0 (m t).1 next (λ a e. (rest a).at_end (m t).1) returns;
}

-- a task in front
infixr 5 ◌⟫◌
◌⟫◌ {ℓ} :
    {A : Type ℓ} {P : Tables → Type 0} (m : Task A) {next : Task (Unit {0})}
    → IsFollowed P next
    → IsFollowed P (m >> next)
m ⟫ rest = bind-IsFollowed m (λ _. rest)

-- the end of both pipelines
checked-IsFollowed :
    (probe : ℕ → Probe) (site : Site) (dep id : String) (checks : Result Bool)
    → (checks ≡ ok true → WasHealthy probe 1 health_check_attempts)
    → IsFollowed
        (IsDone probe site dep id)
        (call checks >>= (λ healthy. call (require_healthy healthy) >> finish_running site dep id))
unfolding checked
checked-IsFollowed probe site dep id checks healthy = record {
  at_end = λ t. checked-IsDone probe site dep id checks t healthy;
}

pub pipeline_local-IsDone :
    (site : Site) (dep id : String)
    → IsFollowed (IsDone site.probe site dep id) (pipeline_local site dep id)
unfolding pipeline_local
pipeline_local-IsDone site dep id =
    write (set_deployment dep preparing)
    ⟫ write (set_node dep (pick_worker site.default_node site.region site.workers))
    ⟫ write (set_deployment dep building)
    ⟫ write (set_deployment dep starting)
    ⟫ call site.launch
    ⟫ write (set_deployment dep health_check)
    ⟫ checked-IsFollowed site.probe site dep id (health_checks site.probe health_check_attempts 1)
        (health_checks-WasHealthy site.probe health_check_attempts 1)

pub pipeline_railway-IsDone :
    (site : Site) (rail : Railway) (dep id : String) (inst : Instance) (is_redeploy : Bool)
    → IsFollowed
        (IsDone rail.public site dep id)
        (pipeline_railway site rail dep id inst is_redeploy)
unfolding pipeline_railway
pipeline_railway-IsDone site rail dep id inst is_redeploy =
    call (require_configured rail.configured)
    ⟫ write (set_deployment dep preparing)
    ⟫ service_of rail id inst.provider_ref
    ⟫ bind-IsFollowed (ask (λ t. Dict.get id t.domains)) (λ known.
      domain_of rail id known
      ⟫ write (set_deployment dep building)
      ⟫ call rail.configure_service
      ⟫ write (set_deployment dep starting)
      ⟫ call (triggered rail inst is_redeploy)
      ⟫ call (polls rail.latest_deployment railway_poll_attempts 1)
      ⟫ write (set_deployment dep health_check)
      ⟫ checked-IsFollowed rail.public site dep id
          (public_checks rail.public health_check_attempts 1)
          (public_checks-WasHealthy rail.public health_check_attempts 1))
