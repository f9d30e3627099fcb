-- ===== src/Worker/Reserved.antt =====
-- The ports of the instances a worker knows (worker/voidz_worker/driver.py).
use voidz.Prelude.{
  ℕ, ◌≡◌, ◌≢◌, sym, ap, ◌∙◌, Bool, true, false, ◌∷◌, some, ==_iff, contains, nat_eq, list_eq, ◌++◌,
  take, arith, inl, inr, Option-cases,
}
use mathlib.Core.Path.{subst}
use voidz.Prelude.Dict
use voidz.Prelude.Dict.{Dict, get, put, get-put-some, get-remove-some}
use voidz.Worker.Ports.{release}
use voidz.Worker.Ports.Allocation.{allocate_cases, contains-release}
use voidz.Prelude.Texts.{codes}
use voidz.Relay.Bytes.{Text}
use voidz.Worker.Driver.{
  InstanceId, LaunchSpec, forget, Handle, Driver, Outcome, done, driver_error, other_error,
}
use voidz.Worker.Docker
use voidz.Worker.Process
use voidz.Worker.Process.{Machine}

-- The port of every instance is reserved, and no two instances have the same.
abbrev pub IsSound : {R : Type 0} → Driver R → Type 0
IsSound {R} d =
    ((id : InstanceId) (h : Handle R)
      → get id d.handles ≡ some h
      → contains d.ports.used h.port ≡ true)
    × ((i j : InstanceId) (g h : Handle R)
        → i ≢ j
        → get i d.handles ≡ some g
        → get j d.handles ≡ some h
        → g.port ≢ h.port)

module _ {R : Type 0} where
  reserve-IsSound :
      (d : Driver R) (port : ℕ)
      → IsSound d
      → IsSound (record d { ports = record d.ports { used = port ∷ d.ports.used } })
  unfolding contains
  reserve-IsSound d port s = (λ id h e. ground (arith, s.0 id h e), s.1)

  put-IsSound :
      (d : Driver R) (id : InstanceId) (h : Handle R)
      → contains d.ports.used h.port ≡ false
      → IsSound d
      → IsSound (record {
        ports = record d.ports { used = h.port ∷ d.ports.used };
        handles = put id h d.handles;
      })
  unfolding contains
  put-IsSound d id h fresh s = (
    λ i g e. elim (get-put-some id i h g d.handles e) [
      | inl (_, is_new) ↦
          subst (λ (k : Handle R). contains (h.port ∷ d.ports.used) k.port ≡ true) (sym is_new)
            (ground (arith, ==_iff h.port h.port))
      | inr (_, old) ↦ ground (arith, s.0 i g old)
    ],
    λ i j g k apart ei ej same. elim (get-put-some id i h g d.handles ei) [
      | inl (i_id, g_new) ↦ elim (get-put-some id j h k d.handles ej) [
        | inl (j_id, _) ↦ apart (i_id ∙ sym j_id)
        | inr (_, old) ↦
            let g_port : g.port ≡ h.port = ap (λ (x : Handle R). x.port) g_new in
            let used = s.0 j k old in let e : k.port ≡ h.port = sym same ∙ g_port in cc
      ]
      | inr (_, old) ↦ elim (get-put-some id j h k d.handles ej) [
        | inl (_, k_new) ↦
            let k_port : k.port ≡ h.port = ap (λ (x : Handle R). x.port) k_new in
            let used = s.0 i g old in let e : g.port ≡ h.port = same ∙ k_port in cc
        | inr (_, old') ↦ s.1 i j g k apart old old' same
      ]
    ],
  )

  undo-IsSound :
      (d : Driver R) (port : ℕ)
      → contains d.ports.used port ≡ false
      → IsSound d
      → IsSound (record d { ports = release port (record d.ports { used = port ∷ d.ports.used }) })
  unfolding contains
  undo-IsSound d port fresh s = (
    λ i g e.
        let used = s.0 i g e in
        contains-release port g.port (record d.ports { used = port ∷ d.ports.used })
          (λ same.
            let e : contains d.ports.used g.port ≡ false =
              ap (contains d.ports.used) same ∙ fresh in
            cc)
          (ground (arith, used)),
    s.1,
  )

  remove-IsSound :
      (d : Driver R) (id : InstanceId) (h : Handle R)
      → get id d.handles ≡ some h
      → IsSound d
      → IsSound (record { ports = release h.port d.ports; handles = Dict.remove id d.handles })
  remove-IsSound d id h here s = (
    λ i g e.
        let (apart, old) = get-remove-some id i g d.handles e in
        contains-release h.port g.port d.ports (s.1 i id g h apart old here) (s.0 i g old),
    λ i j g k apart ei ej.
        s.1 i j g k apart ((get-remove-some id i g d.handles ei).1)
          ((get-remove-some id j k d.handles ej).1),
  )

  forget-IsSound : (d : Driver R) (id : InstanceId) → IsSound d → IsSound (forget id d)
  unfolding forget
  forget-IsSound d id s = (
    λ i g e. s.0 i g ((get-remove-some id i g d.handles e).1),
    λ i j g k apart ei ej.
        s.1 i j g k apart ((get-remove-some id i g d.handles ei).1)
          ((get-remove-some id j k d.handles ej).1),
  )

docker_started-IsSound :
    (spec : LaunchSpec) (port : ℕ) (run : Outcome Unit) (d : Driver Text)
    → contains d.ports.used port ≡ false
    → IsSound d
    → IsSound (
        (Docker.started spec port
          (record d { ports = record d.ports { used = port ∷ d.ports.used } })
          run).1)
unfolding Docker.started
docker_started-IsSound spec port (done u) d fresh s =
    put-IsSound d spec.instance_id
      (record {
        reference = codes "voidz-inst-" ++ take 12 spec.instance_id;
        port = port;
        api_token = spec.api_token;
      })
      fresh s
docker_started-IsSound spec port driver_error d fresh s = undo-IsSound d port fresh s
docker_started-IsSound spec port other_error d fresh s = reserve-IsSound d port s

docker_launch-IsSound :
    (port_is_free : ℕ → Bool) (spec : LaunchSpec) (run : Outcome Unit) (d : Driver Text)
    → IsSound d
    → IsSound ((Docker.launch port_is_free spec run d).1)
unfolding Docker.launch
docker_launch-IsSound port_is_free spec run d s =
    elim (allocate_cases port_is_free spec.port d.ports) [
      | inl (port, e, low, high, fresh, free) ↦
          rw (e, Docker.launch) (docker_started-IsSound spec port run d fresh s)
      | inr (e, none_left) ↦ rw (e, Docker.launch) s
    ]

docker_remove-IsSound :
    (id : InstanceId) (rm : Outcome Unit) (d : Driver Text)
    → IsSound d
    → IsSound ((Docker.remove id rm d).1)
unfolding Docker.remove
docker_remove-IsSound id rm d s = elim (Option-cases (get id d.handles)) [
  | inl e ↦ rw (e, Docker.remove) s
  | inr (h, e) ↦ rw (e, Docker.remove) (remove-IsSound d id h e s)
]

spawned-IsSound :
    (spec : LaunchSpec) (port : ℕ) (spawn : Outcome ℕ) (m : Machine)
    → contains m.driver.ports.used port ≡ false
    → IsSound m.driver
    → IsSound (
        (Process.spawned spec port
          (record m {
            driver = record m.driver {
              ports = record m.driver.ports { used = port ∷ m.driver.ports.used };
            };
          })
          spawn).1.driver)
unfolding Process.spawned
spawned-IsSound spec port (done pid) m fresh s =
    put-IsSound m.driver spec.instance_id
      (record { reference = pid; port = port; api_token = spec.api_token }) fresh s
spawned-IsSound spec port driver_error m fresh s = reserve-IsSound m.driver port s
spawned-IsSound spec port other_error m fresh s = reserve-IsSound m.driver port s

process_launch-IsSound :
    (port_is_free : ℕ → Bool) (spec : LaunchSpec) (spawn : Outcome ℕ) (m : Machine)
    → IsSound m.driver
    → IsSound ((Process.launch port_is_free spec spawn m).1.driver)
unfolding Process.launch
process_launch-IsSound port_is_free spec spawn m s =
    elim (allocate_cases port_is_free spec.port m.driver.ports) [
      | inl (port, e, low, high, fresh, free) ↦
          rw (e, Process.launch) (spawned-IsSound spec port spawn m fresh s)
      | inr (e, none_left) ↦ rw (e, Process.launch) s
    ]

-- A process's `stop` changes no handle and no port.
stop-driver : (id : InstanceId) (m : Machine) → (Process.stop id m).1.driver ≡ m.driver
unfolding Process.stop
stop-driver id m = elim (Option-cases (get id m.driver.handles)) [
  | inl e ↦ rw (e, Process.stop)
  | inr (h, e) ↦ rw (e, Process.stop)
]

process_remove-IsSound :
    (id : InstanceId) (m : Machine) → IsSound m.driver → IsSound ((Process.remove id m).1.driver)
unfolding Process.remove
process_remove-IsSound id m s = elim (Option-cases (get id m.driver.handles)) [
  | inl e ↦ rw (e, Process.remove) s
  | inr (h, e) ↦
      let popped = record m {
        driver = record m.driver { handles = Dict.remove id m.driver.handles };
      } in
      rw (e, Process.remove) (rw (stop-driver id popped) (remove-IsSound m.driver id h e s))
]

-- Whatever docker answers to the launches and removals of a worker, every instance's port is
-- reserved, and no two instances have the same port.
pub docker-IsSound : (d : Driver Text) → Docker.Reachable d → IsSound d
unfolding get
docker-IsSound d (Docker.start first last) = (λ id h e. cc, λ i j g h apart ei ej same. cc)
docker-IsSound d (Docker.launched port_is_free spec run r) =
    docker_launch-IsSound port_is_free spec run _ (docker-IsSound _ r)
docker-IsSound d (Docker.removed id rm r) = docker_remove-IsSound id rm _ (docker-IsSound _ r)
docker-IsSound d (Docker.forgotten id r) = forget-IsSound _ id (docker-IsSound _ r)

-- Whatever the operating system answers to the launches, stops and removals of a worker, every
-- instance's port is reserved, and no two instances have the same port.
pub process-IsSound : (m : Machine) → Process.Reachable m → IsSound m.driver
unfolding get
process-IsSound m (Process.start first last) = (λ id h e. cc, λ i j g h apart ei ej same. cc)
process-IsSound m (Process.launched port_is_free spec spawn r) =
    process_launch-IsSound port_is_free spec spawn _ (process-IsSound _ r)
process-IsSound m (Process.stopped {m = m'} id r) = rw (stop-driver id m') (process-IsSound _ r)
process-IsSound m (Process.removed id r) = process_remove-IsSound id _ (process-IsSound _ r)
process-IsSound m (Process.ended pid r) = process-IsSound _ r
process-IsSound m (Process.forgotten {m = m'} id r) =
    forget-IsSound m'.driver id (process-IsSound _ r)
