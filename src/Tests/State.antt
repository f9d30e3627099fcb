-- ===== src/Tests/State.antt =====
-- The saved state and the management API of a core (core/voidz_core/state.py and
-- core/voidz_core/app.py) at concrete inputs.
use voidz.Prelude.{
  ◌≤◌, ◌≡◌, ◌↔◌, List, All, refl, String, true, false, [], ◌∷◌, none, some, contains, eqb,
  if◌then◌else◌, string_eq, arith, list_beq,
}
use voidz.Prelude.Dict
use voidz.Prelude.Result.{ok, raise, Exn, os_error}
use voidz.Relay.Bytes.{join}
use voidz.Core.Alpn.{Str, tokens, kept, split_from, strip, lstrip, rstrip, is_kept}
use voidz.Core.Link.{Link, construct}
use voidz.Core.Store.{LinkStore}
use voidz.Core.Tracker.Called.{IsCalled}
use voidz.Core.Tracker.{Kill, Conn, close_ws, empty, register, device_slot_available}
use voidz.Core.Tracker.Kick.{reached}
use voidz.Core.Stats.{RuntimeStats, init}
use voidz.Core.Persist.{Doc, Codec, Saving, is_os_error, Disk, payload, load, save}
use voidz.Core.Persist.Saved.{attempt, reloaded, IsMade, save_atomic, load-save}
use voidz.Core.Debounce.{idle, edit, boot, tick, edited, drain, start_all}
use voidz.Core.Debounce.Settles.{settles}
use voidz.Core.Admin.{Core, Patch, patched, core_links_update}
use voidz.Core.Admin.Lock.{lock_enforced}

abbrev plain : Str
plain = record {
  is_space = λ c. eqb c 32;
  lower = λ t. t;
  visible = λ c above below. ground (arith, above);
  lower-http11 = refl;
}

-- A codec that keeps the document as it is.
abbrev as_is : Codec
as_is = record {
  File = Doc;
  dumps = λ doc. doc;
  loads = λ doc. some doc;
  loads-dumps = λ doc. refl;
}

abbrev given_link : Link
given_link = record {
  uuid = "a";
  label = [];
  protocol = "vless-ws";
  active = true;
  limit_bytes = 1000;
  used_bytes = 990;
  created_at = "";
  expires_at = none;
  note = [];
  alpn = [];
  fingerprint = "safari";
  ss_cipher = none;
  ss_password = none;
  max_devices = 1;
  allowed_ips = [];
}

abbrev made : Link
made = construct plain "noon" given_link

abbrev store : LinkStore
store = ("a", made) ∷ []

abbrev counted : RuntimeStats
counted = record init { total_bytes = 7; hourly = (3, 7) ∷ [] }

abbrev no_file : Disk Doc
no_file = record { path = none; tmp = none; backup = none }

made_named : "a" ≡ made.uuid
unfolding construct
made_named = refl

-- The disk is full when the new state is written; and a save in which all goes well.
abbrev disk_full : Saving Doc
disk_full = record { mkdir = ok tt; write_text = raise os_error; left = none; replace = ok tt }

abbrev whole : Saving Doc
whole = record { mkdir = ok tt; write_text = ok tt; left = none; replace = ok tt }

save_atomic_example :
    (attempt disk_full ≡ ok tt
      → ((save as_is disk_full "noon" store counted no_file).0 ≡ ok tt)
        × ((save as_is disk_full "noon" store counted no_file).1.path
            ≡ some (payload "noon" store counted)))
    × ((e : Exn)
        → attempt disk_full ≡ raise e
        → ((save as_is disk_full "noon" store counted no_file).0
            ≡ (if is_os_error e then ok tt else raise e))
          × ((save as_is disk_full "noon" store counted no_file).1.path ≡ none))
save_atomic_example = save_atomic as_is disk_full "noon" store counted no_file

load-save_example :
    (load as_is plain "later" true (save as_is whole "noon" store counted no_file).1 [] init ≡ (
      (save as_is whole "noon" store counted no_file).1,
      reloaded plain "later" store,
      record init { total_bytes = 7; hourly = (3, 7) ∷ [] },
    ))
    × (All (λ (e : String × Link). IsMade plain e.1) store → reloaded plain "later" store ≡ store)
unfolding Dict.get
load-save_example =
    load-save as_is plain "later" "noon" true whole store counted no_file
      ((refl, tt), (made_named, tt)) (refl, tt) refl

-- The link of the store is one that `construct` has made.
store-IsMade : All (λ (e : String × Link). IsMade plain e.1) store
unfolding tokens split_from kept strip lstrip rstrip is_kept join list_beq
store-IsMade = (("noon", given_link, λ e. cc, omega arith, refl), tt)

-- Two edits wait: the first one starts the sleeper, the second one makes it go round again.
settles_example :
    ((drain 2 (start_all 2 (edit (edit idle)))).pending ≡ false)
    × ((drain 2 (start_all 2 (edit (edit idle)))).tasks ≡ 0)
    × ((drain 2 (start_all 2 (edit (edit idle)))).tried ≡ 2)
    × ((drain 2 (start_all 2 (edit (edit idle)))).saves ≤ 2)
unfolding edit
settles_example = settles (tick (tick boot (edited idle)) (edited (edit idle)))

abbrev outsider : Conn
outsider = record {
  conn_id = "c1";
  uuid = "a";
  ip = "10.0.0.9";
  transport = "ws";
  connected_at = "noon";
  bytes = 0;
}

abbrev core : Core
core = record {
  links = ("a", given_link) ∷ [];
  connections = register outsider (some (close_ws "c1")) empty;
  saver = idle;
  closed = [];
}

abbrev lock : Patch
lock = record {
  label = none;
  active = none;
  note = none;
  reset_usage = none;
  limit_bytes = none;
  expires_at = none;
  max_devices = none;
  allowed_ips = some (some ("10.0.0.1" ∷ []));
}

lock_enforced_example :
    (after : Core) × (core_links_update "a" lock core ≡ ok after)
    × (Dict.get "a" after.links ≡ some (patched lock given_link))
    × ((address : String)
        → device_slot_available "a" address
            (patched lock given_link).max_devices
            (patched lock given_link).allowed_ips
            after.connections
          ≡ contains ("10.0.0.1" ∷ []) address)
    × ((k : String)
        → Dict.get k after.connections.kills ≡ (
            if reached "a" ("10.0.0.1" ∷ []) core.connections.conns k
            then none
            else Dict.get k core.connections.kills))
    × ((called : List Kill) × (after.closed ≡ called)
        × ((kill : Kill)
            → IsCalled kill called ↔ (
                (k : String) × (reached "a" ("10.0.0.1" ∷ []) core.connections.conns k ≡ true)
                × (Dict.get k core.connections.kills ≡ some kill))))
unfolding Dict.get
lock_enforced_example = lock_enforced lock given_link core "10.0.0.1" [] refl refl
