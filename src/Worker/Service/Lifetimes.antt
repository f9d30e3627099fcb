-- ===== src/Worker/Service/Lifetimes.antt =====
-- The worker over its life (worker/voidz_worker/main.py). A step is what a handler does from one
-- call of the driver to the next, so the steps of several handlers and of the relaunch, which runs
-- in the background, come in any order.
use voidz.Prelude.{◌≡◌, ◌≢◌, ap, [], none, some, list_eq, nat_eq, ==_iff, arith}
use voidz.Prelude.Dict
use voidz.Prelude.Dict.{Dict, Distinct, get, get-put-some, remove-Distinct, get-remove-some}
use voidz.Relay.Bytes.{Text}
use voidz.Worker.Driver.{InstanceId, LaunchSpec}
use voidz.Worker.Api.{DriverApi}
use voidz.Worker.Registry
use voidz.Worker.Registry.{Entry, Rows, RegistryFile, written, load}
use voidz.Worker.Service.{Worker, answered, relaunch_row}
use voidz.Worker.Service.Agreement.{
  Agrees, Fewer-Agrees, same-Fewer, less-Fewer, answered-Agrees, remove_row,
}
use voidz.Worker.Service.Relaunch.{relaunch_row-Agrees}

module _ {R M W : Type 0} (api : DriverApi R M W) where
  open api use {handles}

  -- A worker from its first start; the file is written. A removal takes the row of an instance that
  -- has not been launched again, and the relaunch launches a row that is still there.
  pub data Life : Worker M → Type 0 where
    first : (m : M) → handles m ≡ [] → Life (record { machine = m; registry = none })
    -- `driver.stop`, and `driver.handles.pop`
    halted :
        {s : Worker M} (id : InstanceId) (w : W)
        → Life s
        → Life (record s { machine = (api.stop id w s.machine).1 })
    forgotten :
        {s : Worker M} (id : InstanceId)
        → Life s
        → Life (record s { machine = api.forget id s.machine })
    -- `driver.launch`, with the saved row
    launched :
        {s : Worker M} (spec : LaunchSpec) (w : W)
        → spec.api_token ≢ []
        → Life s
        → Life ((answered api spec written s.registry (api.launch spec w s.machine)).1)
    -- `driver.remove`, and `registry.remove`
    withdrawn :
        {s : Worker M} (id : InstanceId) (w : W)
        → Life s
        → Life (record s { machine = (api.remove id w s.machine).1 })
    row_taken :
        {s : Worker M} (id : InstanceId)
        → get id (handles s.machine) ≡ none
        → Life s
        → Life (record s { registry = Registry.remove id written s.registry })
    -- one row of the relaunch
    relaunched :
        {s : Worker M} (id : InstanceId) (entry : Entry) (drawn : Text) (w : W)
        → get id (load s.registry) ≡ some entry
        → Life s
        → Life (record s { machine = relaunch_row api (id, entry) drawn w s.machine })
    -- The worker starts again: its driver knows nothing.
    rebooted : {s : Worker M} (m : M) → handles m ≡ [] → Life s → Life (record s { machine = m })

  -- The row may go once the handle is gone.
  row_taken-Agrees :
      (id : InstanceId) (s : Worker M)
      → get id (handles s.machine) ≡ none
      → Agrees api s
      → Agrees api (record s { registry = Registry.remove id written s.registry })
  row_taken-Agrees id s gone a = record {
    recorded = λ i h here.
        let (r, there, token) = a.recorded i h here in
        (
          r,
          rw (remove_row id s.registry) (
              ground (
                arith,
                here,
                gone,
                there,
                ==_iff id i,
                ap (λ (x : InstanceId). get x (handles s.machine)) {x = id} {y = i},
                Dict.get-remove id i (load s.registry),
              )),
          token,
        );
    given = λ i r here.
        a.given i r
          ((get-remove-some id i r (load s.registry) (rw (remove_row id s.registry) at here)).1);
    distinct = rw (remove_row id s.registry) (remove-Distinct id (load s.registry) a.distinct);
  }

  pub Life-Agrees : (s : Worker M) → Life s → Agrees api s
  unfolding load get
  Life-Agrees s (first m e) = record {
    recorded = λ id h here. let no : none ≡ some h = rw e at here in cc;
    given = λ id r here. cc;
    distinct = tt;
  }
  Life-Agrees s (halted {s = t} id w l) =
      Fewer-Agrees api _ t.machine t.registry
        (same-Fewer api _ t.machine (api.handles-stop id w t.machine)) (Life-Agrees t l)
  Life-Agrees s (forgotten {s = t} id l) =
      Fewer-Agrees api _ t.machine t.registry
        (less-Fewer api _ t.machine id (api.handles-forget id t.machine)) (Life-Agrees t l)
  Life-Agrees s (launched {s = t} spec w h l) =
      answered-Agrees api spec t.registry t.machine (api.launch spec w t.machine)
        (api.launch-Launched spec w t.machine) h (Life-Agrees t l)
  Life-Agrees s (withdrawn {s = t} id w l) =
      Fewer-Agrees api _ t.machine t.registry
        (less-Fewer api _ t.machine id (api.handles-remove id w t.machine)) (Life-Agrees t l)
  Life-Agrees s (row_taken {s = t} id gone l) = row_taken-Agrees id t gone (Life-Agrees t l)
  Life-Agrees s (relaunched {s = t} id entry drawn w there l) =
      relaunch_row-Agrees api id entry drawn w t there (Life-Agrees t l)
  Life-Agrees s (rebooted {s = t} m e l) =
      let a = Life-Agrees t l in
      record {
        recorded = λ id h here. let no : none ≡ some h = rw e at here in cc;
        given = a.given;
        distinct = a.distinct;
      }
