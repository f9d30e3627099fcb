-- ===== src/Worker/Api.antt =====
-- The interface of `BaseDriver` in worker/voidz_worker/driver.py that worker/voidz_worker/main.py
-- uses, with what it relies on. `M` is the state of the driver and its machine, `W` what docker
-- or the operating system answers in one call.
use voidz.Prelude.{ℕ, ◌≡◌, Bool, some, list_eq, nat_eq}
use voidz.Prelude.Dict
use voidz.Prelude.Dict.{Dict, get, put}
use voidz.Worker.Driver.{
  InstanceId, LaunchSpec, Handle, Outcome, Report, done, driver_error, other_error,
}

-- A launch knows the instance afterwards, under its token, or fails and knows what it knew.
pub data Launched {R M : Type 0} (handles : M → Dict InstanceId (Handle R)) (spec : LaunchSpec)
    (m : M) : Outcome (Handle R) × M → Type 0 where
  known :
      (h : Handle R) (m' : M)
      → handles m' ≡ put spec.instance_id h (handles m)
      → h.api_token ≡ spec.api_token
      → Launched handles spec m (done h, m')
  refused : (m' : M) → handles m' ≡ handles m → Launched handles spec m (driver_error, m')
  crashed : (m' : M) → handles m' ≡ handles m → Launched handles spec m (other_error, m')

pub record DriverApi (R M W : Type 0) : Type 0 where
  pub handles : M → Dict InstanceId (Handle R)
  pub launch : LaunchSpec → W → M → Outcome (Handle R) × M
  pub stop : InstanceId → W → M → Outcome Unit × M
  pub remove : InstanceId → W → M → Outcome Unit × M
  pub status : InstanceId → W → M → Outcome Report
  pub forget : InstanceId → M → M
  pub launch-Launched :
      (spec : LaunchSpec) (w : W) (m : M) → Launched handles spec m (launch spec w m)
  pub handles-stop : (id : InstanceId) (w : W) (m : M) → handles ((stop id w m).1) ≡ handles m
  pub handles-remove :
      (id : InstanceId) (w : W) (m : M) → handles ((remove id w m).1) ≡ Dict.remove id (handles m)
  pub handles-forget :
      (id : InstanceId) (m : M) → handles (forget id m) ≡ Dict.remove id (handles m)
  pub status-some :
      (id : InstanceId) (w : W) (m : M) (running : Bool) (port : ℕ)
      → status id w m ≡ done (some (running, port))
      → (h : Handle R) × (get id (handles m) ≡ some h) × (h.port ≡ port)
