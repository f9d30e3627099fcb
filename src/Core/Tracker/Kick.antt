-- ===== src/Core/Tracker/Kick.antt =====
-- What `ConnectionTracker.kick` closes (core/voidz_core/state.py).
use voidz.Prelude.{
  ◌≡◌, refl, String, Bool, true, not, ◌&&◌, List, [], ◌∷◌, none, length, if◌then◌else◌, ◌==◌,
  string_eq, arith, any, ap, ◌∙◌, ==_refl,
}
use voidz.Prelude.Dict
use voidz.Prelude.Dict.{Dict, get-remove}
use voidz.Core.Tracker.{Tracker, Conn, Kill, stays, kick_loop, kick}

-- Whether the loop reaches a connection of this id that does not stay.
unfoldable pub reached : String → List String → Dict String Conn → String → Bool
reached uuid keep_ips conns k = any (λ e. e.0 == k && not (stays uuid keep_ips e.1)) conns

-- The callbacks that are left are those of the connections that stay.
get-kick_loop :
    (uuid : String) (keep_ips : List String) (conns : Dict String Conn) (kills : Dict String Kill)
    (k : String)
    → Dict.get k (kick_loop uuid keep_ips conns kills).1
      ≡ (if reached uuid keep_ips conns k then none else Dict.get k kills)
unfolding kick_loop reached any
get-kick_loop uuid keep_ips [] kills k = refl
get-kick_loop uuid keep_ips ((j, c) ∷ rest) kills k = ground (
  arith,
  get-kick_loop uuid keep_ips rest kills k,
  get-kick_loop uuid keep_ips rest (Dict.remove j kills) k,
  get-remove j k kills,
)

kick_loop-nil :
    (uuid : String) (keep_ips : List String) (conns : Dict String Conn) (kills : Dict String Kill)
    → ((k : String) → reached uuid keep_ips conns k ≡ true → Dict.get k kills ≡ none)
    → (kick_loop uuid keep_ips conns kills).0 ≡ []
unfolding kick_loop reached any
kick_loop-nil uuid keep_ips [] kills h = refl
kick_loop-nil uuid keep_ips ((j, c) ∷ rest) kills h =
    let passed = kick_loop-nil uuid keep_ips rest kills (λ k r. h k (ground (arith, r))) in
    let left =
      kick_loop-nil uuid keep_ips rest (Dict.remove j kills)
        (λ k r. get-remove j k kills ∙ ground (arith, h k (ground (arith, r)))) in
    ground (arith, passed, left, h j, ==_refl j)

-- `kick` keeps every connection in the table. It takes the callback of exactly the connections on
-- the link whose address is not to be kept, and leaves all the other callbacks. So a second kick
-- with the same addresses closes nothing.
pub kick_exact :
    (uuid : String) (keep_ips : List String) (t : Tracker)
    → ((kick uuid keep_ips t).2.conns ≡ t.conns)
      × ((k : String)
          → Dict.get k (kick uuid keep_ips t).2.kills
            ≡ (if reached uuid keep_ips t.conns k then none else Dict.get k t.kills))
      × ((kick uuid keep_ips (kick uuid keep_ips t).2).0 ≡ 0)
unfolding kick
kick_exact uuid keep_ips t = (
  refl,
  get-kick_loop uuid keep_ips t.conns t.kills,
  ap length (
      kick_loop-nil uuid keep_ips t.conns (kick_loop uuid keep_ips t.conns t.kills).1
        (λ k r. get-kick_loop uuid keep_ips t.conns t.kills k ∙ rw r)),
)
