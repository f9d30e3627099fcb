-- ===== src/Console/Fleet.antt =====
-- The calls of the console to the cores of a plan, one region after the other
-- (`worker_call` of console/api/voidz_console/services/workers.py and the loops around it in
-- services/quota.py). The worker passes a call on to the core of an instance.
pub mod Sweeps
pub mod Confirmed
use voidz.Prelude.{String, Bool, true, false, ◌&&◌, List, [], ◌∷◌, if◌then◌else◌, ◌==◌, string_eq}
use voidz.Prelude.Result.{Result, ok, raise, value_error, ◌>>=◌}
use voidz.Core.Admin.{Core}

-- The core of each instance.
abbrev pub Cores : Type 0
Cores = String → Core

unfoldable pub put_core : String → Core → Cores → Cores
put_core i core cores = λ j. if i == j then core else cores j

-- What happens to one call: the core answers; the call is lost; its answer is lost; or the answer
-- is no JSON, whether or not the core was reached.
pub data Delivery : Type 0 where
  delivered lost unanswered : Delivery
  garbled : Bool → Delivery

-- How the call ends for the console: with a reply, with `WorkerError`, or with the `ValueError`
-- of `resp.json()`.
pub data Reply : Type 0 where
  replied worker_error json_error : Reply

-- The core after a handler that was called on it.
unfoldable pub handled : Result Core → Core → Core
handled (ok after) core = after
handled (raise e) core = core

-- A handler that raises answers with its status code, which is a `WorkerError` here.
unfoldable pub worker_call : Delivery → Result Core → Core → Reply × Core
worker_call delivered (ok after) core = (replied, after)
worker_call delivered (raise e) core = (worker_error, core)
worker_call lost result core = (worker_error, core)
worker_call unanswered result core = (worker_error, handled result core)
worker_call (garbled false) result core = (json_error, core)
worker_call (garbled true) result core = (json_error, handled result core)

-- During one pass over a plan: which instances run, and what happens to the call of each
-- instance and protocol.
pub record World : Type 0 where
  pub running : String → Bool
  pub delivery : String → String → Delivery

-- `ok = False` in front of what the rest of a loop says
unfoldable pub failed : Result Bool → Result Bool
failed rest = do _ ← rest; ok false

-- What the loop over the protocols makes of one call: the rest follows unless it raised.
unfoldable pub next_call : Reply → Result Bool × Core → Core → Result Bool × Core
next_call replied rest after = rest
next_call worker_error (result, last) after = (failed result, last)
next_call json_error rest after = (raise value_error, after)

-- The loop over the protocols of one region: whether every call was answered.
unfoldable pub push_protocols :
    (String → Delivery) → (String → Core → Result Core) → List String → Core → Result Bool × Core
push_protocols delivery handler [] core = (ok true, core)
push_protocols delivery handler (proto ∷ protos) core =
    let (reply, after) = worker_call (delivery proto) (handler proto core) core in
    next_call reply (push_protocols delivery handler protos after) after

-- The same for the loop over the regions.
unfoldable pub next_region : Result Bool → Result Bool × Cores → Cores → Result Bool × Cores
next_region (raise e) rest cores = (raise e, cores)
next_region (ok true) rest cores = rest
next_region (ok false) (result, last) cores = (failed result, last)

module _ (w : World) where
  -- One region: nothing is called where the instance does not run.
  unfoldable pub push_region :
      String → (String → Core → Result Core) → List String → Core → Result Bool × Core
  push_region i handler protos core =
      if w.running i then push_protocols (w.delivery i) handler protos core else (ok false, core)

  -- The loop over the regions of a plan.
  unfoldable pub push_plan :
      (String → Core → Result Core) → List String → List String → Cores → Result Bool × Cores
  push_plan handler protos [] cores = (ok true, cores)
  push_plan handler protos (i ∷ is) cores =
      let (region, core) = push_region i handler protos (cores i) in
      let cores' = put_core i core cores in
      next_region region (push_plan handler protos is cores') cores'
