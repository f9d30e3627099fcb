-- ===== src/Worker/Backends.antt =====
-- The two drivers of worker/voidz_worker/driver.py behind the interface that the service uses.
use voidz.Prelude.{
  ℕ, ◌≡◌, refl, sym, Bool, none, some, contains, list_eq, nat_eq, inl, inr, Option-cases,
}
use voidz.Prelude.Dict
use voidz.Prelude.Dict.{get}
use voidz.Prelude.Dict.Rows.{remove_absent}
use voidz.Relay.Bytes.{Text}
use voidz.Worker.Ports.{PortAllocator, allocate}
use voidz.Worker.Driver.{
  InstanceId, LaunchSpec, Handle, Driver, Outcome, Report, forget, done, driver_error, other_error,
}
use voidz.Worker.Docker
use voidz.Worker.Process
use voidz.Worker.Process.{Machine}
use voidz.Worker.Api.{DriverApi, Launched, known, refused, crashed}

-- The answers of docker to the commands of one call.
pub record DockerAnswer : Type 0 where
  pub port_is_free : ℕ → Bool
  pub command : Outcome Unit
  pub inspect : Outcome Bool

-- The answers of the operating system.
pub record SystemAnswer : Type 0 where
  pub port_is_free : ℕ → Bool
  pub spawn : Outcome ℕ

abbrev pub docker_handles : Driver Text → Dict.Dict InstanceId (Handle Text)
docker_handles d = d.handles

docker_started-Launched :
    (spec : LaunchSpec) (port : ℕ) (ports : PortAllocator) (run : Outcome Unit) (d : Driver Text)
    → Launched docker_handles spec d (Docker.started spec port (record d { ports = ports }) run)
unfolding Docker.started
docker_started-Launched spec port ports (done u) d = known _ _ refl refl
docker_started-Launched spec port ports driver_error d = refused _ refl
docker_started-Launched spec port ports other_error d = crashed _ refl

pub docker_launch-Launched :
    (spec : LaunchSpec) (w : DockerAnswer) (d : Driver Text)
    → Launched docker_handles spec d (Docker.launch w.port_is_free spec w.command d)
unfolding Docker.launch
docker_launch-Launched spec w d = elim (Option-cases (allocate w.port_is_free spec.port d.ports)) [
  | inl e ↦ rw (e, Docker.launch) (refused d refl)
  | inr ((port, ports), e) ↦
      rw (e, Docker.launch) (docker_started-Launched spec port ports w.command d)
]

pub docker_remove-handles :
    (id : InstanceId) (rm : Outcome Unit) (d : Driver Text)
    → (Docker.remove id rm d).1.handles ≡ Dict.remove id d.handles
unfolding Docker.remove
docker_remove-handles id rm d = elim (Option-cases (get id d.handles)) [
  | inl e ↦ rw (e, Docker.remove) (sym (remove_absent id d.handles e))
  | inr (h, e) ↦ rw (e, Docker.remove)
]

docker_inspected-some :
    (answer : Outcome Bool) (port : ℕ) (running : Bool) (p : ℕ)
    → Docker.inspected port answer ≡ done (some (running, p))
    → port ≡ p
unfolding Docker.inspected
docker_inspected-some (done r) port running p e = cc
docker_inspected-some driver_error port running p e = cc
docker_inspected-some other_error port running p e = cc

pub docker_status-some :
    (id : InstanceId) (w : DockerAnswer) (d : Driver Text) (running : Bool) (port : ℕ)
    → Docker.status id w.inspect d ≡ done (some (running, port))
    → (h : Handle Text) × (get id d.handles ≡ some h) × (h.port ≡ port)
unfolding Docker.status
docker_status-some id w d running port says = elim (Option-cases (get id d.handles)) [
  | inl e ↦
      let unknown : Outcome Report = done none in
      let no : unknown ≡ done (some (running, port)) = rw (e, Docker.status) at says in cc
  | inr (h, e) ↦
      (h, e, docker_inspected-some w.inspect h.port running port (rw (e, Docker.status) at says))
]

pub docker_forget :
    (id : InstanceId) (d : Driver Text) → (forget id d).handles ≡ Dict.remove id d.handles
unfolding forget
docker_forget id d = refl

unfoldable pub docker_api : DriverApi Text (Driver Text) DockerAnswer
docker_api = record {
  handles = docker_handles;
  launch = λ spec w d. Docker.launch w.port_is_free spec w.command d;
  stop = λ id w d. (Docker.stop id w.command d, d);
  remove = λ id w d. Docker.remove id w.command d;
  status = λ id w d. Docker.status id w.inspect d;
  forget = λ id d. forget id d;
  launch-Launched = docker_launch-Launched;
  handles-stop = λ id w d. refl;
  handles-remove = λ id w d. docker_remove-handles id w.command d;
  handles-forget = docker_forget;
  status-some = docker_status-some;
}

abbrev pub process_handles : Machine → Dict.Dict InstanceId (Handle ℕ)
process_handles m = m.driver.handles

process_spawned-Launched :
    (spec : LaunchSpec) (port : ℕ) (ports : PortAllocator) (spawn : Outcome ℕ) (m : Machine)
    → Launched process_handles spec m
        (Process.spawned spec port (record m { driver = record m.driver { ports = ports } }) spawn)
unfolding Process.spawned
process_spawned-Launched spec port ports (done pid) m = known _ _ refl refl
process_spawned-Launched spec port ports driver_error m = refused _ refl
process_spawned-Launched spec port ports other_error m = crashed _ refl

pub process_launch-Launched :
    (spec : LaunchSpec) (w : SystemAnswer) (m : Machine)
    → Launched process_handles spec m (Process.launch w.port_is_free spec w.spawn m)
unfolding Process.launch
process_launch-Launched spec w m =
    elim (Option-cases (allocate w.port_is_free spec.port m.driver.ports)) [
      | inl e ↦ rw (e, Process.launch) (refused m refl)
      | inr ((port, ports), e) ↦
          rw (e, Process.launch) (process_spawned-Launched spec port ports w.spawn m)
    ]

pub process_stop-handles :
    (id : InstanceId) (m : Machine) → (Process.stop id m).1.driver.handles ≡ m.driver.handles
unfolding Process.stop
process_stop-handles id m = elim (Option-cases (get id m.driver.handles)) [
  | inl e ↦ rw (e, Process.stop)
  | inr (h, e) ↦ rw (e, Process.stop)
]

pub process_remove-handles :
    (id : InstanceId) (m : Machine)
    → (Process.remove id m).1.driver.handles ≡ Dict.remove id m.driver.handles
unfolding Process.remove
process_remove-handles id m = elim (Option-cases (get id m.driver.handles)) [
  | inl e ↦ rw (e, Process.remove) (sym (remove_absent id m.driver.handles e))
  | inr (h, e) ↦
      rw (e, Process.remove)
        (process_stop-handles id
          (record m { driver = record m.driver { handles = Dict.remove id m.driver.handles } }))
]

pub process_status-some :
    (id : InstanceId) (m : Machine) (running : Bool) (port : ℕ)
    → done (Process.status id m) ≡ done (some (running, port))
    → (h : Handle ℕ) × (get id m.driver.handles ≡ some h) × (h.port ≡ port)
unfolding Process.status
process_status-some id m running port says = elim (Option-cases (get id m.driver.handles)) [
  | inl e ↦
      let unknown : Outcome Report = done none in
      let no : unknown ≡ done (some (running, port)) = rw (e, Process.status) at says in cc
  | inr (h, e) ↦
      let found : Outcome Report = done (some (contains m.alive h.reference, h.port)) in
      let same : found ≡ done (some (running, port)) = rw (e, Process.status) at says in (h, e, cc)
]

pub process_forget :
    (id : InstanceId) (m : Machine) → (forget id m.driver).handles ≡ Dict.remove id m.driver.handles
unfolding forget
process_forget id m = refl

unfoldable pub process_api : DriverApi ℕ Machine SystemAnswer
process_api = record {
  handles = process_handles;
  launch = λ spec w m. Process.launch w.port_is_free spec w.spawn m;
  stop = λ id w m. Process.stop id m;
  remove = λ id w m. Process.remove id m;
  status = λ id w m. done (Process.status id m);
  forget = λ id m. record m { driver = forget id m.driver };
  launch-Launched = process_launch-Launched;
  handles-stop = λ id w m. process_stop-handles id m;
  handles-remove = λ id w m. process_remove-handles id m;
  handles-forget = process_forget;
  status-some = λ id w m running port says. process_status-some id m running port says;
}
