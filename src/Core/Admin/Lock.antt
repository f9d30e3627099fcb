-- ===== src/Core/Admin/Lock.antt =====
-- A lock that is pushed to a core (core/voidz_core/app.py with core/voidz_core/state.py).
use voidz.Prelude.{
  ◌≡◌, ◌↔◌, true, String, List, ◌∷◌, none, some, contains, if◌then◌else◌, ==_refl, string_eq, ◌∙◌,
  ◌++◌,
}
use voidz.Prelude.Result.{ok}
use voidz.Prelude.Dict
use voidz.Prelude.Dict.{Dict, get-put}
use voidz.Core.Link.{Link}
use voidz.Core.Tracker.Called.{IsCalled, kick-IsCalled}
use voidz.Core.Tracker.{Kill, device_slot_available, kick}
use voidz.Core.Tracker.Kick.{reached, kick_exact}
use voidz.Core.Debounce.{edit}
use voidz.Core.Admin.{Core, Patch, close_others, patched, value_or, enforce_lock, core_links_update}

-- The core after the fields are set, before the lock closes connections.
abbrev edited : Patch → Link → Core → Core
edited patch link core = record core {
  links = Dict.put link.uuid (patched patch link) core.links;
  saver = edit core.saver;
}

enforce_lock-pushed :
    (patch : Patch) (link : Link) (core : Core) (ip : String) (ips : List String)
    → patch.allowed_ips ≡ some (some (ip ∷ ips))
    → enforce_lock patch link core ≡ record core {
      connections = (kick link.uuid (ip ∷ ips) core.connections).2;
      closed = core.closed ++ (kick link.uuid (ip ∷ ips) core.connections).1;
    }
unfolding enforce_lock value_or close_others
enforce_lock-pushed patch link core ip ips pushed =
    rw (enforce_lock, value_or, pushed, close_others)

-- When the console pushes a list of addresses to a link that exists, the patch succeeds; from then
-- on exactly the listed addresses get a slot on the link, whatever its device limit. The callbacks
-- that the patch calls are exactly those of the open connections of the link from other addresses,
-- and these are the only callbacks that are no longer kept.
pub lock_enforced :
    (patch : Patch) (link : Link) (core : Core) (ip : String) (ips : List String)
    → Dict.get link.uuid core.links ≡ some link
    → patch.allowed_ips ≡ some (some (ip ∷ ips))
    → (after : Core) × (core_links_update link.uuid patch core ≡ ok after)
      × (Dict.get link.uuid after.links ≡ some (patched patch link))
      × ((address : String)
          → device_slot_available link.uuid address
              (patched patch link).max_devices
              (patched patch link).allowed_ips
              after.connections
            ≡ contains (ip ∷ ips) address)
      × ((k : String)
          → Dict.get k after.connections.kills ≡ (
              if reached link.uuid (ip ∷ ips) core.connections.conns k
              then none
              else Dict.get k core.connections.kills))
      × ((called : List Kill) × (after.closed ≡ core.closed ++ called)
          × ((kill : Kill)
              → IsCalled kill called ↔ (
                  (k : String) × (reached link.uuid (ip ∷ ips) core.connections.conns k ≡ true)
                  × (Dict.get k core.connections.kills ≡ some kill))))
unfolding core_links_update device_slot_available
lock_enforced patch link core ip ips there pushed =
    let called = enforce_lock-pushed patch link (edited patch link core) ip ips pushed in
    let exact = kick_exact link.uuid (ip ∷ ips) core.connections in
    (
      enforce_lock patch link (edited patch link core),
      rw there,
      rw called
          (get-put link.uuid link.uuid (patched patch link) core.links ∙ rw (==_refl link.uuid)),
      λ address. unfold patched value_or in rw pushed,
      λ k. rw called (exact.1 k),
      (
        (kick link.uuid (ip ∷ ips) core.connections).1,
        rw called,
        kick-IsCalled link.uuid (ip ∷ ips) core.connections,
      ),
    )
