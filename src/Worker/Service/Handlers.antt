-- ===== src/Worker/Service/Handlers.antt =====
-- The handlers of worker/voidz_worker/main.py and the relaunch, each run alone from its start to
-- its end, take steps of the worker's life.
use voidz.Prelude.{
  ◌≡◌, ◌≢◌, inl, inr, [], ◌∷◌, none, some, list_eq, nat_eq, ==_iff, Bool-cases, All, arith,
}
use voidz.Prelude.Dict
use voidz.Prelude.Dict.{Dict, Distinct, get, get-put-some, remove-Distinct, get-remove-some}
use voidz.Prelude.Dict.Rows.{get-row}
use voidz.Prelude.Result.{Result, ok, raise}
use voidz.Relay.Bytes.{Text}
use voidz.Worker.Driver.{InstanceId, LaunchSpec, Outcome, done, driver_error, other_error}
use voidz.Worker.Api.{DriverApi}
use voidz.Worker.Registry.{Entry, Rows, RegistryFile, written, load}
use voidz.Worker.Service.{
  LaunchBody, Worker, launch_spec, is_known, dropped, stopped, launch_behind, launch_instance,
  restart_instance, stop_instance, removed, remove_instance, relaunch_all, relaunch_known_instances,
}
use voidz.Worker.Service.Agreement.{text_or-ne_nil}
use voidz.Worker.Service.Lifetimes.{
  Life, halted, forgotten, launched, withdrawn, row_taken, relaunched, rebooted, Life-Agrees,
}

module _ {R M W : Type 0} (api : DriverApi R M W) where
  open api use {handles}

  launch_spec-token :
      (id : InstanceId) (body : LaunchBody) (drawn : Text)
      → drawn ≢ []
      → (launch_spec id body drawn).api_token ≢ []
  unfolding launch_spec
  launch_spec-token id body drawn h = text_or-ne_nil body.core_api_token drawn h

  behind-Life :
      (spec : LaunchSpec) (w : W) (file : RegistryFile) (o : Result (Unit {0}) × M)
      → spec.api_token ≢ []
      → Life api (record { machine = o.1; registry = file })
      → Life api ((launch_behind api spec w written file o).1)
  unfolding launch_behind
  behind-Life spec w file (raise e, m) t l = l
  behind-Life spec w file (ok u, m) t l = launched spec w t l

  dropped-Life :
      (id : InstanceId) (file : RegistryFile) (o : Outcome Unit × M)
      → Life api (record { machine = o.1; registry = file })
      → Life api (record { machine = (dropped api id o).1; registry = file })
  unfolding dropped
  dropped-Life id file (done u, m) l = forgotten id l
  dropped-Life id file (driver_error, m) l = forgotten id l
  dropped-Life id file (other_error, m) l = l

  stopped-Life :
      (file : RegistryFile) (o : Outcome Unit × M)
      → Life api (record { machine = o.1; registry = file })
      → Life api (record { machine = (stopped api o).1; registry = file })
  unfolding stopped
  stopped-Life file (done u, m) l = l
  stopped-Life file (driver_error, m) l = l
  stopped-Life file (other_error, m) l = l

  pub launch_instance-Life :
      (id : InstanceId) (body : LaunchBody) (drawn : Text) (w w' : W) (s : Worker M)
      → drawn ≢ []
      → Life api s
      → Life api ((launch_instance api id body drawn w w' written s).1)
  unfolding launch_instance
  launch_instance-Life id body drawn w w' s h l =
      let t = launch_spec-token id body drawn h in
      elim (Bool-cases (is_known api id s.machine)) [
        | inl e ↦ rw e (
            behind-Life _ w' s.registry _ t
              (dropped-Life id s.registry (api.stop id w s.machine) (halted id w l)))
        | inr e ↦ rw e (behind-Life _ w' s.registry _ t l)
      ]

  restart_instance-Life :
      (id : InstanceId) (body : LaunchBody) (drawn : Text) (w w' : W) (s : Worker M)
      → drawn ≢ []
      → Life api s
      → Life api ((restart_instance api id body drawn w w' written s).1)
  unfolding restart_instance
  restart_instance-Life id body drawn w w' s h l =
      let t = launch_spec-token id body drawn h in
      elim (Bool-cases (is_known api id s.machine)) [
        | inl e ↦ rw e (
            behind-Life _ w' s.registry _ t
              (stopped-Life s.registry (api.stop id w s.machine) (halted id w l)))
        | inr e ↦ rw e (behind-Life _ w' s.registry _ t l)
      ]

  stop_instance-Life :
      (id : InstanceId) (w : W) (s : Worker M)
      → Life api s
      → Life api ((stop_instance api id w s).1)
  unfolding stop_instance
  stop_instance-Life id w s l = stopped-Life s.registry (api.stop id w s.machine) (halted id w l)

  removed-Life :
      (id : InstanceId) (file : RegistryFile) (o : Outcome Unit × M)
      → get id (handles o.1) ≡ none
      → Life api (record { machine = o.1; registry = file })
      → Life api ((removed api id written file (stopped api o)).1)
  unfolding removed stopped
  removed-Life id file (done u, m) gone l = row_taken id gone l
  removed-Life id file (driver_error, m) gone l = l
  removed-Life id file (other_error, m) gone l = l

  remove_instance-Life :
      (id : InstanceId) (w : W) (s : Worker M)
      → Life api s
      → Life api ((remove_instance api id w written s).1)
  unfolding remove_instance
  remove_instance-Life id w s l =
      removed-Life id s.registry (api.remove id w s.machine)
        (rw (api.handles-remove id w s.machine)
          (ground (arith, ==_iff id id, Dict.get-remove id id (handles s.machine))))
        (withdrawn id w l)

  relaunch_all-Life :
      (file : RegistryFile) (part : Rows) (at_row : InstanceId → Text × W) (m : M)
      → All (λ (row : InstanceId × Entry). get row.0 (load file) ≡ some row.1) part
      → Life api (record { machine = m; registry = file })
      → Life api (record { machine = relaunch_all api at_row part m; registry = file })
  unfolding relaunch_all
  relaunch_all-Life file [] at_row m u l = l
  relaunch_all-Life file ((id, entry) ∷ part) at_row m (here, u) l =
      relaunch_all-Life file part at_row _ u
        (relaunched id entry (at_row id).0 (at_row id).1 here l)

  relaunch-Life :
      (m : M) (at_row : InstanceId → Text × W) (s : Worker M)
      → handles m ≡ []
      → Life api s
      → Life api (relaunch_known_instances api at_row (record s { machine = m }))
  unfolding relaunch_known_instances
  relaunch-Life m at_row s e l =
      relaunch_all-Life s.registry (load s.registry) at_row m
        (get-row (load s.registry) ((Life-Agrees api s l).distinct)) (rebooted m e l)
