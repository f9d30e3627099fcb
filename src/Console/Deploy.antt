-- ===== src/Console/Deploy.antt =====
-- The deployment pipelines of console/api/voidz_console/services/deployments.py. The database is
-- here, and does not fail; a task reads and writes it and may raise, which keeps what it wrote.
-- What the worker and Railway answer is an argument. Times are milliseconds.
use voidz.Prelude.{
  ℕ, zero, suc, ◌+◌, ◌-◌, String, Bool, true, false, List, Option, none, some, string_eq,
}
use voidz.Prelude.Result.{Exn, Result, ok, raise, runtime_error}
use voidz.Prelude.Dict
use voidz.Prelude.Dict.{Dict}

pub data Status : Type 0 where
  queued preparing building starting health_check running failed stopped : Status

pub record Deployment : Type 0 where
  pub instance_id : String
  pub version : ℕ
  pub status : Status
  pub error : Option Exn
  pub started_at : Option ℕ
  pub finished_at : Option ℕ
  pub duration_ms : Option ℕ
  pub node_id : Option String

-- A row of `instances` with its row of `instance_configs`; a reference that is empty is none.
pub record Instance : Type 0 where
  pub name : String
  pub status : Status
  pub provider : Option String
  pub provider_ref : Option String
  pub protocol : Option String
  pub protocols : List String

pub record InstanceLink : Type 0 where
  pub instance_id : String
  pub link_uuid : String
  pub label : String

pub record Tables : Type 0 where
  pub deployments : Dict String Deployment
  pub instances : Dict String Instance
  -- the domain that was generated for an instance
  pub domains : Dict String String
  pub links : List InstanceLink

abbrev pub Task {ℓ} : Type ℓ → Type ℓ
Task A = Tables → Result A × Tables

-- The rest of a task, unless it has raised.
unfoldable pub resume {ℓ κ} :
    {A : Type ℓ} {B : Type κ} → Result A → Tables → (A → Task B) → Result B × Tables
resume (raise e) t next = (raise e, t)
resume (ok a) t next = next a t

abbrev pub ◌>>=◌ {ℓ κ} : {A : Type ℓ} {B : Type κ} (m : Task A) (next : A → Task B) → Task B
m >>= next = λ t. resume (m t).0 (m t).1 next

abbrev pub ◌>>◌ {ℓ κ} : {A : Type ℓ} {B : Type κ} (m : Task A) (next : Task B) → Task B
m >> next = λ t. resume (m t).0 (m t).1 (λ _. next)

infixl 5 ◌>>=◌ ◌>>◌
-- A call outside, and a statement of the database.
abbrev pub call {ℓ} : {A : Type ℓ} → Result A → Task A
call result = λ t. (result, t)

abbrev pub write : (Tables → Tables) → Task (Unit {0})
write f = λ t. (ok tt, f t)

abbrev pub ask {ℓ} : {A : Type ℓ} → (Tables → A) → Task A
ask f = λ t. (ok (f t), t)

-- `UPDATE ... WHERE id = ...`
unfoldable pub update_row {ℓ} : {V : Type ℓ} → String → (V → V) → Dict String V → Dict String V
update_row id f rows = elim (Dict.get id rows) [ none ↦ rows | some row ↦ Dict.put id (f row) rows ]

abbrev pub with_status : Status → Instance → Instance
with_status status inst = record inst { status = status }

unfoldable pub set_instance : String → Status → Tables → Tables
set_instance id status t = record t { instances = update_row id (with_status status) t.instances }

-- The end of a deployment at a time.
unfoldable pub ended : Status → Option Exn → ℕ → Deployment → Deployment
ended status error now d = record d {
  status = status;
  error = error;
  finished_at = some now;
  duration_ms = elim d.started_at [ none ↦ none | some started ↦ some (now - started) ];
}

abbrev pub moved : Status → Deployment → Deployment
moved status d = record d { status = status; error = none }

-- The instance of a deployment gets the same status.
unfoldable pub follow : String → Status → Tables → Tables
follow id status t = elim (Dict.get id t.deployments) [
  | none ↦ t
  | some d ↦ set_instance d.instance_id status t
]

-- `_set_deployment` without and with `finish`
unfoldable pub set_deployment : String → Status → Tables → Tables
set_deployment id status t =
    follow id status (record t { deployments = update_row id (moved status) t.deployments })

unfoldable pub finish_deployment : String → Status → Option Exn → ℕ → Tables → Tables
finish_deployment id status error now t =
    follow id status
      (record t { deployments = update_row id (ended status error now) t.deployments })

-- One health check: an answer with `healthy` and `running`, an error that is caught, or one that
-- is not.
pub data Probe : Type 0 where
  answered : Bool → Bool → Probe
  no_answer : Probe
  broken : Exn → Probe

abbrev pub health_check_attempts : ℕ
health_check_attempts = 30

abbrev pub railway_poll_attempts : ℕ
railway_poll_attempts = 90

-- What follows a probe of the worker, with what the later probes give.
unfoldable pub after_probe : Probe → Result Bool → Result Bool
after_probe (answered true alive) rest = ok true
after_probe (answered false true) rest = rest
after_probe (answered false false) rest = raise runtime_error
after_probe no_answer rest = rest
after_probe (broken e) rest = raise e

-- The loop from an attempt on, with the number of attempts left.
unfoldable pub health_checks : (ℕ → Probe) → ℕ → ℕ → Result Bool
health_checks probe zero attempt = ok false
health_checks probe (suc left) attempt =
    after_probe (probe attempt) (health_checks probe left (attempt + 1))

-- The same for the public address, where only the status code 200 counts.
unfoldable pub after_get : Probe → Result Bool → Result Bool
after_get (answered true alive) rest = ok true
after_get (answered false alive) rest = rest
after_get no_answer rest = rest
after_get (broken e) rest = raise e

unfoldable pub public_checks : (ℕ → Probe) → ℕ → ℕ → Result Bool
public_checks probe zero attempt = ok false
public_checks probe (suc left) attempt =
    after_get (probe attempt) (public_checks probe left (attempt + 1))

-- `if not healthy: raise RuntimeError`
unfoldable pub require_healthy : Bool → Result (Unit {0})
require_healthy true = ok tt
require_healthy false = raise runtime_error
