-- ===== src/Tests/Core.antt =====
-- Links, connections and counters (core/voidz_core/state.py) at concrete inputs.
use voidz.Prelude.{
  ◌+◌, ◌≤◌, ◌≡◌, refl, true, false, List, [], ◌∷◌, none, some, length, contains, Bool-cases, ◌==◌,
  ◌<◌, arith, string_eq, inl, inr,
}
use mathlib.Core.Path.{subst}
use voidz.Prelude.Dict
use voidz.Prelude.Dict.{Dict}
use voidz.Core.Link.{Link, Time, is_allowed, is_expired}
use voidz.Core.Store.{LinkStore, use_bytes}
use voidz.Core.Store.Accounting.{Charge, IsWithin}
use voidz.Core.Tracker.{
  Tracker, Conn, close_ws, empty, register, active_ips_for, device_slot_available,
}
use voidz.Core.Tracker.Devices.{admit, Reach, here, next, Reach-in_limit}
use voidz.Core.Stats.Bounds.{Call, traffic, request, failure}

abbrev noon : Time
noon = record { now = 720; fromisoformat = λ _. some 900 }

abbrev metered : Link
metered = record {
  uuid = "a";
  label = [];
  protocol = "vless";
  active = true;
  limit_bytes = 1000;
  used_bytes = 990;
  created_at = "";
  expires_at = some "later";
  note = [];
  alpn = [];
  fingerprint = "";
  ss_cipher = none;
  ss_password = none;
  max_devices = 1;
  allowed_ips = [];
}

abbrev one_link : LinkStore
one_link = ("a", metered) ∷ []

-- The charge that passes the quota is granted, the one after it is not.
abbrev charges : List Charge
charges =
    record { time = noon; uuid = "a"; bytes = 25 }
    ∷ record { time = noon; uuid = "a"; bytes = 1 }
    ∷ []

charges_run :
    use_bytes noon "a" 1 (use_bytes noon "a" 25 one_link).1
    ≡ (false, ("a", record metered { used_bytes = 1015 }) ∷ [])
unfolding use_bytes is_allowed is_expired Dict.get Dict.put
charges_run = refl

one_link-IsWithin : IsWithin 25 one_link
unfolding Dict.get
one_link-IsWithin = record {
  at_link = λ k link there. elim (Bool-cases ("a" == k)) [
    | inl same ↦
        let found : some metered ≡ some link = rw same at there in
        inr (
          subst (λ (l : Link). l.used_bytes < l.limit_bytes + 25) (let e : metered ≡ link = cc in e)
            (omega arith))
    | inr other ↦ let found : none ≡ some link = rw other at there in cc
  ];
}

abbrev phone : Conn
phone = record {
  conn_id = "c1";
  uuid = "a";
  ip = "1.1.1.1";
  transport = "ws";
  connected_at = "";
  bytes = 0;
}

abbrev laptop : Conn
laptop = record {
  conn_id = "c2";
  uuid = "a";
  ip = "2.2.2.2";
  transport = "ws";
  connected_at = "";
  bytes = 0;
}

-- Two connections of one address under a limit of one.
abbrev phone_twice : Tracker
phone_twice =
    register (record phone { conn_id = "c3" }) none (register phone (some (close_ws "c1")) empty)

phone_comes : Reach (λ _. 1) empty phone_twice
unfolding device_slot_available active_ips_for contains Dict.get register Dict.put
phone_comes = next (next here (admit empty phone (some (close_ws "c1")) refl refl)) (
    admit (register phone (some (close_ws "c1")) empty) (record phone { conn_id = "c3" }) none refl
      refl)

laptop_refused : device_slot_available "a" "2.2.2.2" 1 [] phone_twice ≡ false
unfolding device_slot_available active_ips_for contains Dict.get register Dict.put
laptop_refused = refl

empty_in_limit : length (active_ips_for "a" empty) ≤ 1
unfolding active_ips_for
empty_in_limit = omega arith

Reach-in_limit_example : length (active_ips_for "a" phone_twice) ≤ 1
Reach-in_limit_example = Reach-in_limit (λ _. 1) "a" (omega arith) empty_in_limit phone_comes

abbrev both : Tracker
both = register laptop (some (close_ws "c2")) (register phone (some (close_ws "c1")) empty)

abbrev calls : List Call
calls = traffic 5 100 ∷ request ∷ failure [] 7 ∷ traffic 6 20 ∷ traffic 5 1 ∷ []
