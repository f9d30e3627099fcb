-- ===== src/Worker/Service/Leak.antt =====
-- The port of an instance that is deployed again (`launch_instance` of worker/voidz_worker/main.py
-- over the process driver of driver.py).
use voidz.Prelude.{
  ℕ, ◌≡◌, ◌≢◌, refl, sym, ap, ◌∙◌, inl, inr, true, false, List, ◌∷◌, some, list_eq, nat_eq, ◌==◌,
  not, keep, contains, arith,
}
use voidz.Prelude.Dict.{get, get-put-some, get-remove-some}
use voidz.Relay.Bytes.{Text}
use voidz.Worker.Ports.Allocation.{allocate_cases}
use voidz.Worker.Driver.{
  InstanceId, LaunchSpec, Handle, Driver, Outcome, forget, done, driver_error, other_error,
}
use voidz.Worker.Process
use voidz.Worker.Process.{Machine}
use voidz.Worker.Reserved.{IsSound}
use voidz.Worker.Backends.{SystemAnswer, process_api}
use voidz.Worker.Registry.{RegistryFile, Write}
use voidz.Worker.Service.{
  LaunchBody, Worker, launch_spec, is_known, dropped, answered, launch_behind, launch_instance,
}

-- A port is reserved that no instance has.
abbrev pub IsLost : ℕ → Driver ℕ → Type 0
IsLost port d =
    (contains d.ports.used port ≡ true)
    × ((id : InstanceId) (h : Handle ℕ) → get id d.handles ≡ some h → h.port ≢ port)

spawned-IsLost :
    (spec : LaunchSpec) (lost port : ℕ) (m : Machine) (spawn : Outcome ℕ)
    → contains m.driver.ports.used port ≡ false
    → IsLost lost m.driver
    → IsLost lost (
        (Process.spawned spec port
          (record m {
            driver = record m.driver {
              ports = record m.driver.ports { used = port ∷ m.driver.ports.used };
            };
          })
          spawn).1.driver)
unfolding Process.spawned contains
spawned-IsLost spec lost port m (done pid) fresh (used, apart) = (
  ground (arith, used),
  λ id h here same. elim (get-put-some spec.instance_id id _ h m.driver.handles here) [
    | inl (_, is_new) ↦
        let new_port : h.port ≡ port = ap (λ (x : Handle ℕ). x.port) is_new in
        let e : lost ≡ port = sym same ∙ new_port in
        let no : true ≡ false = sym used ∙ ap (contains m.driver.ports.used) e ∙ fresh in cc
    | inr (_, old) ↦ apart id h old same
  ],
)
spawned-IsLost spec lost port m driver_error fresh (used, apart) = (ground (arith, used), apart)
spawned-IsLost spec lost port m other_error fresh (used, apart) = (ground (arith, used), apart)

launch-IsLost :
    (spec : LaunchSpec) (lost : ℕ) (w : SystemAnswer) (m : Machine)
    → IsLost lost m.driver
    → IsLost lost ((Process.launch w.port_is_free spec w.spawn m).1.driver)
unfolding Process.launch
launch-IsLost spec lost w m l = elim (allocate_cases w.port_is_free spec.port m.driver.ports) [
  | inl (port, e, low, high, fresh, free) ↦
      rw (e, Process.launch) (spawned-IsLost spec lost port m w.spawn fresh l)
  | inr (e, none_left) ↦ rw (e, Process.launch) l
]

forget-IsLost :
    (id : InstanceId) (h : Handle ℕ) (m : Machine)
    → get id m.driver.handles ≡ some h
    → IsSound m.driver
    → IsLost h.port (forget id m.driver)
unfolding forget
forget-IsLost id h m here s = (
  s.0 id h here,
  λ i g there same.
      let (apart, old) = get-remove-some id i g m.driver.handles there in
      s.1 i id g h apart old here same,
)

answered-machine :
    (spec : LaunchSpec) (write : Write) (file : RegistryFile) (o : Outcome (Handle ℕ) × Machine)
    → (answered process_api spec write file o).1.machine ≡ o.1
unfolding answered
answered-machine spec write file (done h, m) = refl
answered-machine spec write file (driver_error, m) = refl
answered-machine spec write file (other_error, m) = refl

stop_known :
    (id : InstanceId) (h : Handle ℕ) (m : Machine)
    → get id m.driver.handles ≡ some h
    → (alive : List ℕ) × (Process.stop id m ≡ (done tt, record m { alive = alive }))
unfolding Process.stop
stop_known id h m here = (keep (λ pid. not (pid == h.reference)) m.alive, rw (here, Process.stop))

-- A redeploy of an instance that runs, whatever its launch ends with: the port it had stays
-- reserved, and no instance has it any more.
pub redeploy_leaks :
    (id : InstanceId) (body : LaunchBody) (drawn : Text) (w w' : SystemAnswer) (write : Write)
    (s : Worker Machine) (h : Handle ℕ)
    → get id s.machine.driver.handles ≡ some h
    → IsSound s.machine.driver
    → IsLost h.port (launch_instance process_api id body drawn w w' write s).1.machine.driver
unfolding launch_instance launch_behind dropped is_known process_api
redeploy_leaks id body drawn w w' write s h here sound =
    let (alive, stops) = stop_known id h s.machine here in
    rw (here, is_known)
      (rw stops (
        rw (answered-machine (launch_spec id body drawn) write s.registry _) (
          launch-IsLost (launch_spec id body drawn) h.port w' _
            (forget-IsLost id h (record s.machine { alive = alive }) here sound))))
