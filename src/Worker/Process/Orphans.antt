-- ===== src/Worker/Process/Orphans.antt =====
-- `remove` of the process driver (worker/voidz_worker/driver.py).
use voidz.Prelude.{
  ℕ, ◌≡◌, refl, false, not, List, [], ◌∷◌, none, some, keep, contains, ◌==◌, ==_iff, list_eq,
  nat_eq, arith,
}
use voidz.Prelude.Dict
use voidz.Prelude.Dict.{get, get-remove}
use voidz.Worker.Ports.{release}
use voidz.Worker.Driver.{InstanceId, Handle}
use voidz.Worker.Process.{Machine, stop, remove, status}

contains-keep_apart :
    (pid : ℕ) (pids : List ℕ) → contains (keep (λ p. not (p == pid)) pids) pid ≡ false
unfolding contains keep
contains-keep_apart pid [] = refl
contains-keep_apart pid (p ∷ pids) = ground (arith, contains-keep_apart pid pids)

-- An instance that is removed is forgotten and its port released, but `stop` is called after its
-- handle is popped and so does nothing: its process is left running. Before that, `stop` would
-- have ended it.
pub remove_orphan :
    (id : InstanceId) (m : Machine) (h : Handle ℕ)
    → get id m.driver.handles ≡ some h
    → ((remove id m).1.alive ≡ m.alive)
      × (status id ((remove id m).1) ≡ none)
      × ((remove id m).1.driver.ports ≡ release h.port m.driver.ports)
      × (contains ((stop id m).1.alive) h.reference ≡ false)
unfolding remove stop status
remove_orphan id m h here =
    let gone : get id (Dict.remove id m.driver.handles) ≡ none =
      ground (arith, get-remove id id m.driver.handles, ==_iff id id) in
    (
      rw (here, remove, gone, stop),
      rw (here, remove, gone, stop, gone, status),
      rw (here, remove, gone, stop),
      rw (here, stop) (contains-keep_apart h.reference m.alive),
    )
