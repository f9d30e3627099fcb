-- ===== src/Console/Pipelines/Runs.antt =====
-- How a run of a pipeline ends (console/api/voidz_console/services/deployments.py).
use voidz.Prelude.{
  ◌≡◌, refl, sym, String, Bool, ◌||◌, some, if◌then◌else◌, Bool-cases, ◌⊎◌, inl, inr, string_eq,
}
use mathlib.Core.Path.{subst}
use voidz.Prelude.Result.{Exn, Result, ok, raise}
use voidz.Prelude.Dict
use voidz.Prelude.Dict.{Dict}
use voidz.Console.Deploy.{
  health_check_attempts, running, failed, Deployment, Instance, Tables, Task, set_instance,
  finish_deployment,
}
use voidz.Console.Pipelines.{
  Site, Railway, pipeline_local, pipeline_railway, pipeline, settle, run_pipeline, is_railway,
}
use voidz.Console.Pipelines.Healthy.{WasHealthy}
use voidz.Console.Pipelines.Endings.{
  IsDone, finish-HasEnded, pipeline_local-IsDone, pipeline_railway-IsDone,
}
use voidz.Console.Pipelines.Rows.{HasRows, set_instance-HasRows, finish_deployment-HasRows}
use voidz.Console.Pipelines.Kept.{pipeline_local-KeepsRows, pipeline_railway-KeepsRows}

module _ (site : Site) (rail : Railway) (dep id : String) (inst : Instance)
    (is_redeploy : Bool) where
  -- what a pipeline may do: keep the rows, and return only where it is done
  abbrev IsSafe : Task (Unit {0}) → Type 0
  IsSafe m =
      (t : Tables)
      → HasRows dep id t
      → HasRows dep id (m t).1
        × ((m t).0 ≡ ok tt
            → IsDone site.probe site dep id (m t).1 ⊎ IsDone rail.public site dep id (m t).1)

  pipeline-IsSafe : IsSafe (pipeline site rail dep id inst is_redeploy)
  unfolding pipeline
  pipeline-IsSafe =
      let choose : Bool → Task (Unit {0}) = λ b.
        if b
        then pipeline_railway site rail dep id inst is_redeploy
        else pipeline_local site dep id in
      elim (Bool-cases (is_railway inst || rail.configured)) [
        | inl on_rail ↦
            subst (λ b. IsSafe (choose b)) (sym on_rail)
              (λ t h. (
                (pipeline_railway-KeepsRows dep id site rail dep id inst is_redeploy).after t h,
                λ returns.
                    inr (
                      (pipeline_railway-IsDone site rail dep id inst is_redeploy).at_end t returns),
              ))
        | inr on_site ↦
            subst (λ b. IsSafe (choose b)) (sym on_site)
              (λ t h. (
                (pipeline_local-KeepsRows dep id site dep id).after t h,
                λ returns. inl ((pipeline_local-IsDone site dep id).at_end t returns),
              ))
      ]

-- A deployment that has ended, with the status that its instance has too.
abbrev pub IsEnded : Site → Railway → String → String → Tables → Type 0
IsEnded site rail dep id t =
    (d : Deployment) × (inst : Instance) × (Dict.get dep t.deployments ≡ some d)
    × (Dict.get id t.instances ≡ some inst)
    × (d.finished_at ≡ some site.now)
    × (((d.status ≡ running)
          × (inst.status ≡ running)
          × (WasHealthy site.probe 1 health_check_attempts
              ⊎ WasHealthy rail.public 1 health_check_attempts))
        ⊎ ((d.status ≡ failed) × (inst.status ≡ failed)))

failed-IsEnded :
    (site : Site) (rail : Railway) (dep id : String) (e : Exn) (t : Tables)
    → HasRows dep id t
    → IsEnded site rail dep id
        (set_instance id failed (finish_deployment dep failed (some e) site.now t))
failed-IsEnded site rail dep id e t h =
    let after = finish_deployment dep failed (some e) site.now t in
    let kept = finish_deployment-HasRows dep id dep failed (some e) site.now t h in
    let ((d, found), (inst, there)) = set_instance-HasRows dep id id failed after kept in
    let (finished, status, same) =
      finish-HasEnded dep id failed (some e) site.now t d inst found there in
    (d, inst, found, there, finished, inr (status, same))

done-IsEnded :
    (site : Site) (rail : Railway) (dep id : String) (t : Tables)
    → HasRows dep id t
    → IsDone site.probe site dep id t ⊎ IsDone rail.public site dep id t
    → IsEnded site rail dep id t
done-IsEnded site rail dep id t ((d, found), (inst, there)) (inl (ended, healthy)) =
    let (finished, status, same) = ended d inst found there in
    (d, inst, found, there, finished, inl (status, same, inl healthy))
done-IsEnded site rail dep id t ((d, found), (inst, there)) (inr (ended, healthy)) =
    let (finished, status, same) = ended d inst found there in
    (d, inst, found, there, finished, inl (status, same, inr healthy))

settle-IsEnded :
    (site : Site) (rail : Railway) (dep id : String) (run : Result (Unit {0}) × Tables)
    → HasRows dep id run.1
    → (run.0 ≡ ok tt → IsDone site.probe site dep id run.1 ⊎ IsDone rail.public site dep id run.1)
    → IsEnded site rail dep id (settle site dep id run)
unfolding settle
settle-IsEnded site rail dep id (ok tt, t) h done = done-IsEnded site rail dep id t h (done refl)
settle-IsEnded site rail dep id (raise e, t) h done = failed-IsEnded site rail dep id e t h

-- Every run of a deployment whose rows are there ends, with any answers and exceptions of the
-- worker or of Railway: the deployment has its end time, and the status `running` or `failed`,
-- which is also that of the instance. It is `running` only if one of the 30 health checks found
-- the instance healthy.
pub run_pipeline-IsEnded :
    (site : Site) (rail : Railway) (dep id : String) (inst : Instance) (is_redeploy : Bool)
    (t : Tables) (d : Deployment) (row : Instance)
    → Dict.get dep t.deployments ≡ some d
    → Dict.get id t.instances ≡ some row
    → IsEnded site rail dep id (run_pipeline site rail dep id inst is_redeploy t)
unfolding run_pipeline
run_pipeline-IsEnded site rail dep id inst is_redeploy t d row found there =
    let (kept, done) =
      pipeline-IsSafe site rail dep id inst is_redeploy t ((d, found), (row, there)) in
    settle-IsEnded site rail dep id (pipeline site rail dep id inst is_redeploy t) kept done
