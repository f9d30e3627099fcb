-- ===== src/Core/Tracker/Devices.antt =====
-- The device limit of a link: how many addresses hold connections at once
-- (`ConnectionTracker` of core/voidz_core/state.py).
use voidz.Prelude.{
  ℕ, ◌+◌, ◌≤◌, ◌<◌, ◌≡◌, refl, String, true, ◌||◌, List, [], ◌∷◌, ◌++◌, Option, none, some, length,
  contains, if◌then◌else◌, ◌==◌, string_eq, arith, append_assoc, append-nil, Option-cases, inl, inr,
}
use text.Mathlib.TextEquality.{eq_iff}
use voidz.Prelude.Dict
use voidz.Prelude.Dict.{Dict}
use voidz.Core.Tracker.{
  Tracker, Conn, Kill, register, remove, add_bytes, as_set, ips_of, active_ips_for,
  device_slot_available,
}

contains-append :
    (xs ys : List String) (a : String) → contains (xs ++ ys) a ≡ contains xs a || contains ys a
unfolding contains
contains-append [] ys a = refl
contains-append (x ∷ xs) ys a = ground (arith, contains-append xs ys a)

-- An element more makes the set larger by one, or not at all if it was there.
length-as_set_middle :
    (xs ys : List String) (a : String)
    → length (as_set (xs ++ (a ∷ ys)))
      ≡ length (as_set (xs ++ ys)) + (if contains (xs ++ ys) a then 0 else 1)
unfolding as_set contains
length-as_set_middle [] ys a = ground arith
length-as_set_middle (x ∷ xs) ys a = ground (
  arith,
  length-as_set_middle xs ys a,
  contains-append xs (a ∷ ys) x,
  contains-append xs ys x,
  contains-append xs ys a,
  eq_iff a x,
  eq_iff x a,
)

contains-as_set : (xs : List String) (a : String) → contains (as_set xs) a ≡ contains xs a
unfolding as_set contains
contains-as_set [] a = refl
contains-as_set (x ∷ xs) a = ground (arith, contains-as_set xs a, eq_iff x a)

-- The list of addresses of a link, after each operation.
module _ (uuid : String) where
  ips_of-put_new :
      (k : String) (c : Conn) (d : Dict String Conn)
      → Dict.get k d ≡ none
      → ips_of uuid (Dict.put k c d) ≡ ips_of uuid d ++ (if c.uuid == uuid then c.ip ∷ [] else [])
  unfolding ips_of Dict.put Dict.get
  ips_of-put_new k c [] h = ground arith
  ips_of-put_new k c ((j, x) ∷ d) h = ground (arith, ips_of-put_new k c d)

  ips_of-put_same :
      (k : String) (c : Conn) (n : ℕ) (d : Dict String Conn)
      → Dict.get k d ≡ some c
      → ips_of uuid (Dict.put k (record c { bytes = n }) d) ≡ ips_of uuid d
  unfolding ips_of Dict.put Dict.get
  ips_of-put_same k c n [] h = cc
  ips_of-put_same k c n ((j, x) ∷ d) h = ground (arith, ips_of-put_same k c n d)

  -- the entries in front are the same on both sides
  as_set-remove-le :
      (front : List String) (k : String) (d : Dict String Conn)
      → length (as_set (front ++ ips_of uuid (Dict.remove k d)))
        ≤ length (as_set (front ++ ips_of uuid d))
  unfolding ips_of Dict.remove
  as_set-remove-le front k [] = omega arith
  as_set-remove-le front k ((j, c) ∷ d) = ground (
    arith,
    as_set-remove-le front k d,
    as_set-remove-le (front ++ (c.ip ∷ [])) k d,
    append_assoc front (c.ip ∷ []) (ips_of uuid d),
    append_assoc front (c.ip ∷ []) (ips_of uuid (Dict.remove k d)),
    length-as_set_middle front (ips_of uuid d) c.ip,
  )

-- What happens to a tracker while the limits stay as they are: a connection is registered after
-- the check of its slot (nothing runs in between) under a new id, a connection ends, traffic is
-- counted.
pub data Step (limit : String → ℕ) : Tracker → Tracker → Type 0 where
  admit :
      (t : Tracker) (conn : Conn) (kill : Option Kill)
      → Dict.get conn.conn_id t.conns ≡ none
      → device_slot_available conn.uuid conn.ip (limit conn.uuid) [] t ≡ true
      → Step limit t (register conn kill t)
  close : (t : Tracker) (conn_id : String) → Step limit t (remove conn_id t)
  traffic : (t : Tracker) (conn_id : String) (n : ℕ) → Step limit t (add_bytes conn_id n t)

pub data Reach (limit : String → ℕ) (s : Tracker) : Tracker → Type 0 where
  here : Reach limit s s
  next : {t u : Tracker} → Reach limit s t → Step limit t u → Reach limit s u

module _ (limit : String → ℕ) (uuid : String) (limited : 0 < limit uuid) where
  abbrev InLimit : Tracker → Type 0
  InLimit t = length (active_ips_for uuid t) ≤ limit uuid

  admit-InLimit :
      (t : Tracker) (conn : Conn) (kill : Option Kill)
      → Dict.get conn.conn_id t.conns ≡ none
      → device_slot_available conn.uuid conn.ip (limit conn.uuid) [] t ≡ true
      → InLimit t
      → InLimit (register conn kill t)
  unfolding register active_ips_for device_slot_available
  admit-InLimit t conn kill new free h = ground (
    arith,
    ips_of-put_new uuid conn.conn_id conn t.conns new,
    length-as_set_middle (ips_of uuid t.conns) [] conn.ip,
    append-nil (ips_of uuid t.conns),
    contains-as_set (ips_of uuid t.conns) conn.ip,
    eq_iff conn.uuid uuid,
  )

  traffic-InLimit :
      (t : Tracker) (conn_id : String) (n : ℕ) → InLimit t → InLimit (add_bytes conn_id n t)
  unfolding add_bytes active_ips_for
  traffic-InLimit t conn_id n h = elim (Option-cases (Dict.get conn_id t.conns)) [
    | inl absent ↦ rw (absent, add_bytes) h
    | inr (c, there) ↦
        rw (there, add_bytes) (rw (ips_of-put_same uuid conn_id c (c.bytes + n) t.conns there) h)
  ]

  step-InLimit : {t u : Tracker} → Step limit t u → InLimit t → InLimit u
  step-InLimit (admit t conn kill new free) h = admit-InLimit t conn kill new free h
  step-InLimit (close t conn_id) h =
      unfold remove active_ips_for in omega (arith, as_set-remove-le uuid [] conn_id t.conns)
  step-InLimit (traffic t conn_id n) h = traffic-InLimit t conn_id n h

-- However connections come and go on a link with a device limit and no pushed lock, the number of
-- distinct addresses with an open connection on it never passes the limit.
pub Reach-in_limit :
    (limit : String → ℕ) (uuid : String) {s t : Tracker}
    → 0 < limit uuid
    → length (active_ips_for uuid s) ≤ limit uuid
    → Reach limit s t
    → length (active_ips_for uuid t) ≤ limit uuid
Reach-in_limit limit uuid limited start here = start
Reach-in_limit limit uuid limited start (next r step) =
    step-InLimit limit uuid limited step (Reach-in_limit limit uuid limited start r)
