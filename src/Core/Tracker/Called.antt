-- ===== src/Core/Tracker/Called.antt =====
-- The callbacks that `ConnectionTracker.kick` calls (core/voidz_core/state.py).
use voidz.Prelude.{
  ℕ, zero, suc, get_elem?, ◌≡◌, ◌↔◌, ◌⊎◌, refl, ap, String, true, List, [], ◌∷◌, some, ◌==◌,
  string_eq, arith, any, ◌∙◌, ==_refl, ==_iff, Bool-cases, Option-cases, inl, inr,
}
use voidz.Prelude.Dict
use voidz.Prelude.Dict.{Dict, get-remove, get-remove-some}
use voidz.Core.Tracker.{Tracker, Conn, Kill, stays, kick_loop, kick}
use voidz.Core.Tracker.Kick.{reached}

-- A callback that is called.
abbrev pub IsCalled : Kill → List Kill → Type 0
IsCalled kill called = (i : ℕ) × (get_elem? called i ≡ some kill)

-- The first callback of a list, or one behind it.
get-cons :
    (i : ℕ) (first kill : Kill) (others : List Kill)
    → get_elem? (first ∷ others) i ≡ some kill
    → (first ≡ kill) ⊎ IsCalled kill others
get-cons zero first kill others found = inl (cc)
get-cons (suc i) first kill others found = inr (i, found)

later :
    (uuid : String) (keep_ips : List String) (j : String) (c : Conn) (rest : Dict String Conn)
    (kills : Dict String Kill) (kill : Kill)
    → (k : String) × (reached uuid keep_ips rest k ≡ true)
      × (Dict.get k (Dict.remove j kills) ≡ some kill)
    → (k : String) × (reached uuid keep_ips ((j, c) ∷ rest) k ≡ true)
      × (Dict.get k kills ≡ some kill)
unfolding reached any
later uuid keep_ips j c rest kills kill (k, r, there) =
    (k, ground (arith, r), (get-remove-some j k kill kills there).1)

-- The loop calls a callback only for a connection that does not stay.
called-reached :
    (uuid : String) (keep_ips : List String) (conns : Dict String Conn) (kills : Dict String Kill)
    (i : ℕ) (kill : Kill)
    → get_elem? (kick_loop uuid keep_ips conns kills).0 i ≡ some kill
    → (k : String) × (reached uuid keep_ips conns k ≡ true) × (Dict.get k kills ≡ some kill)
unfolding kick_loop reached any
called-reached uuid keep_ips [] kills i kill called = cc
called-reached uuid keep_ips ((j, c) ∷ rest) kills i kill called =
    elim (Bool-cases (stays uuid keep_ips c)) [
      | inl e ↦
          let (k, r, there) = called-reached uuid keep_ips rest kills i kill (rw e at called) in
          (k, ground (arith, r), there)
      | inr e ↦ elim (Option-cases (Dict.get j kills)) [
        | inl gone ↦ later uuid keep_ips j c rest kills kill (
            called-reached uuid keep_ips rest (Dict.remove j kills) i kill
              (rw gone at (rw e at called)))
        | inr (first, there) ↦ elim (get-cons i first kill _ (rw there at (rw e at called))) [
          | inl same ↦ (j, ground (arith, e, ==_refl j), there ∙ ap some same)
          | inr (n, found) ↦
              later uuid keep_ips j c rest kills kill
                (called-reached uuid keep_ips rest (Dict.remove j kills) n kill found)
        ]
      ]
    ]

-- It calls that of each of them.
reached-IsCalled :
    (uuid : String) (keep_ips : List String) (conns : Dict String Conn) (kills : Dict String Kill)
    (k : String) (kill : Kill)
    → reached uuid keep_ips conns k ≡ true
    → Dict.get k kills ≡ some kill
    → IsCalled kill (kick_loop uuid keep_ips conns kills).0
unfolding kick_loop reached any
reached-IsCalled uuid keep_ips [] kills k kill r there = cc
reached-IsCalled uuid keep_ips ((j, c) ∷ rest) kills k kill r there =
    elim (Bool-cases (stays uuid keep_ips c)) [
      | inl e ↦ rw e (reached-IsCalled uuid keep_ips rest kills k kill (ground (arith, r, e)) there)
      | inr e ↦ rw e (elim (Bool-cases (j == k)) [
        | inl same ↦
            let here : Dict.get j kills ≡ some kill = rw ((==_iff j k).0 same) there in
            rw here (0, refl)
        | inr apart ↦
            let (n, found) =
              reached-IsCalled uuid keep_ips rest (Dict.remove j kills) k kill
                (ground (arith, r, apart)) (get-remove j k kills ∙ ground (arith, apart, there)) in
            elim (Option-cases (Dict.get j kills)) [
              | inl gone ↦ rw gone (n, found)
              | inr (first, here) ↦ rw here (suc n, found)
            ]
      ])
    ]

-- The callbacks that are called are exactly those of the connections on the link whose address is
-- not to be kept.
pub kick-IsCalled :
    (uuid : String) (keep_ips : List String) (t : Tracker) (kill : Kill)
    → IsCalled kill (kick uuid keep_ips t).1
      ↔ ((k : String) × (reached uuid keep_ips t.conns k ≡ true) × (Dict.get k t.kills ≡ some kill))
unfolding kick
kick-IsCalled uuid keep_ips t kill = (
  λ (i, found). called-reached uuid keep_ips t.conns t.kills i kill found,
  λ (k, r, there). reached-IsCalled uuid keep_ips t.conns t.kills k kill r there,
)
