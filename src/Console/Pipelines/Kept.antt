-- ===== src/Console/Pipelines/Kept.antt =====
-- The pipelines keep the rows of their deployment and their instance
-- (console/api/voidz_console/services/deployments.py).
use voidz.Prelude.{String, Bool, Option, none, some, string_eq}
use voidz.Prelude.Result.{Result, ok, raise}
use voidz.Prelude.Dict
use voidz.Prelude.Dict.{Dict}
use voidz.Console.Workers.{pick_worker}
use voidz.Console.Deploy.{
  call, write, ask, ◌>>=◌, ◌>>◌, railway_poll_attempts, health_check_attempts, building,
  health_check, preparing, starting, running, Status, Deployment, Instance, Tables, Task, resume,
  update_row, set_deployment, finish_deployment, health_checks, public_checks, require_healthy,
}
use voidz.Console.Pipelines.{
  Site, Railway, require_configured, triggered, polls, service_of, domain_of, on_railway,
  provision_default_link, finish_running, set_node, pipeline_local, pipeline_railway,
}
use voidz.Console.Pipelines.Rows.{
  update_row-IsThere, HasRows, set_instance-HasRows, set_deployment-HasRows,
  finish_deployment-HasRows, provision_default_link-HasRows,
}

module _ (dep id : String) where
  -- A task that keeps the rows, however it ends.
  pub record KeepsRows {ℓ} {A : Type ℓ} (m : Task A) : Type 0 where
    pub after : (t : Tables) → HasRows dep id t → HasRows dep id (m t).1

  resume-HasRows {ℓ κ} :
      {A : Type ℓ} {B : Type κ} (result : Result A) (t : Tables) (next : A → Task B)
      → HasRows dep id t
      → ((a : A) → HasRows dep id (next a t).1)
      → HasRows dep id (resume result t next).1
  unfolding resume
  resume-HasRows (raise e) t next h rest = h
  resume-HasRows (ok a) t next h rest = rest a

  -- a task, and one that goes on with its value
  pub bind-KeepsRows {ℓ κ} :
      {A : Type ℓ} {B : Type κ} {m : Task A} {next : A → Task B}
      → KeepsRows m
      → ((a : A) → KeepsRows (next a))
      → KeepsRows (m >>= next)
  bind-KeepsRows {m = m} {next = next} first rest = record {
    after = λ t h.
        resume-HasRows (m t).0 (m t).1 next (first.after t h)
          (λ a. (rest a).after (m t).1 (first.after t h));
  }

  -- a task after another
  infixr 5 ◌⟫◌
  pub ◌⟫◌ {ℓ κ} :
      {A : Type ℓ} {B : Type κ} {m : Task A} {next : Task B}
      → KeepsRows m
      → KeepsRows next
      → KeepsRows (m >> next)
  first ⟫ rest = bind-KeepsRows first (λ _. rest)

  pub call-KeepsRows {ℓ} : {A : Type ℓ} (result : Result A) → KeepsRows (call result)
  call-KeepsRows result = record { after = λ t h. h }

  pub status-KeepsRows :
      (i : String) (status : Status) → KeepsRows (write (set_deployment i status))
  status-KeepsRows i status = record { after = set_deployment-HasRows dep id i status }

  finish_running-KeepsRows : (site : Site) (i j : String) → KeepsRows (finish_running site i j)
  unfolding finish_running resume
  finish_running-KeepsRows site i j = record {
    after = λ t h.
        set_instance-HasRows dep id j running
          (finish_deployment i running none site.now (provision_default_link site j t))
          (finish_deployment-HasRows dep id i running none site.now
            (provision_default_link site j t) (provision_default_link-HasRows dep id site j t h));
  }

  -- the health checks and what follows them
  pub healthy-KeepsRows :
      (site : Site) (i j : String) (checks : Result Bool)
      → KeepsRows
          (call checks >>= (λ healthy. call (require_healthy healthy) >> finish_running site i j))
  healthy-KeepsRows site i j checks =
      bind-KeepsRows (call-KeepsRows checks)
        (λ healthy. call-KeepsRows (require_healthy healthy) ⟫ finish_running-KeepsRows site i j)

  node-KeepsRows : (i node : String) → KeepsRows (write (set_node i node))
  unfolding set_node
  node-KeepsRows i node = record {
    after = λ t (d, inst). (
      update_row-IsThere i dep (λ (d : Deployment). record d { node_id = some node }) t.deployments
          d,
      inst,
    );
  }

  pub pipeline_local-KeepsRows : (site : Site) (i j : String) → KeepsRows (pipeline_local site i j)
  unfolding pipeline_local
  pipeline_local-KeepsRows site i j =
      status-KeepsRows i preparing
      ⟫ node-KeepsRows i (pick_worker site.default_node site.region site.workers)
      ⟫ status-KeepsRows i building
      ⟫ status-KeepsRows i starting
      ⟫ call-KeepsRows site.launch
      ⟫ status-KeepsRows i health_check
      ⟫ healthy-KeepsRows site i j (health_checks site.probe health_check_attempts 1)

  service_of-KeepsRows :
      (rail : Railway) (j : String) (known : Option String) → KeepsRows (service_of rail j known)
  unfolding service_of
  service_of-KeepsRows rail j (some service) = call-KeepsRows (ok service)
  service_of-KeepsRows rail j none =
      bind-KeepsRows (call-KeepsRows rail.create_service)
        (λ service. named service ⟫ call-KeepsRows (ok service))
    where
      named :
          (service : String)
          → KeepsRows
              (write (λ t. record t { instances = update_row j (on_railway service) t.instances }))
      named service = record {
        after = λ t (d, inst). (d, update_row-IsThere j id (on_railway service) t.instances inst);
      }

  domain_of-KeepsRows :
      (rail : Railway) (j : String) (known : Option String) → KeepsRows (domain_of rail j known)
  unfolding domain_of
  domain_of-KeepsRows rail j (some domain) = call-KeepsRows (ok domain)
  domain_of-KeepsRows rail j none =
      bind-KeepsRows (call-KeepsRows rail.create_domain)
        (λ domain. named domain ⟫ call-KeepsRows (ok domain))
    where
      named :
          (domain : String)
          → KeepsRows (write (λ t. record t { domains = Dict.put j domain t.domains }))
      named domain = record { after = λ t h. h }

  pub pipeline_railway-KeepsRows :
      (site : Site) (rail : Railway) (i j : String) (inst : Instance) (is_redeploy : Bool)
      → KeepsRows (pipeline_railway site rail i j inst is_redeploy)
  unfolding pipeline_railway
  pipeline_railway-KeepsRows site rail i j inst is_redeploy =
      call-KeepsRows (require_configured rail.configured)
      ⟫ status-KeepsRows i preparing
      ⟫ service_of-KeepsRows rail j inst.provider_ref
      ⟫ bind-KeepsRows asks (λ known.
        domain_of-KeepsRows rail j known
        ⟫ status-KeepsRows i building
        ⟫ call-KeepsRows rail.configure_service
        ⟫ status-KeepsRows i starting
        ⟫ call-KeepsRows (triggered rail inst is_redeploy)
        ⟫ call-KeepsRows (polls rail.latest_deployment railway_poll_attempts 1)
        ⟫ status-KeepsRows i health_check
        ⟫ healthy-KeepsRows site i j (public_checks rail.public health_check_attempts 1))
    where
      asks : KeepsRows (ask (λ (t : Tables). Dict.get j t.domains))
      asks = record { after = λ t h. h }
