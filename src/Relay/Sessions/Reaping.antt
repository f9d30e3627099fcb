-- ===== src/Relay/Sessions/Reaping.antt =====
-- What a round of the reaper ends (`_reaper` of core/voidz_core/relay/xhttp.py).
use voidz.Prelude.{
  ℕ, ◌-◌, ltb, ◌≡◌, refl, false, List, [], ◌∷◌, none, some, contains, if◌then◌else◌, ◌==◌,
  string_eq, pair_eq, pair_beq_iff, arith,
}
use voidz.Prelude.Dict
use voidz.Prelude.Dict.{Dict, Distinct, get-remove}
use voidz.Relay.Sessions.{Key, Sess, Engine, teardown, teardown_all, is_stale, stale_keys, reap}

get-teardown :
    (key j : Key) (eng : Engine)
    → Dict.get j (teardown key eng).sessions ≡ (if key == j then none else Dict.get j eng.sessions)
unfolding teardown
get-teardown key j eng = ground (arith, get-remove key j eng.sessions, pair_beq_iff key j)

get-teardown_all :
    (keys : List Key) (j : Key) (eng : Engine)
    → Dict.get j (teardown_all keys eng).sessions
      ≡ (if contains keys j then none else Dict.get j eng.sessions)
unfolding teardown_all contains
get-teardown_all [] j eng = refl
get-teardown_all (key ∷ rest) j eng =
    ground (arith, get-teardown_all rest j (teardown key eng), get-teardown key j eng)

contains-stale_keys :
    (now : ℕ) (j : Key) (d : Dict Key Sess)
    → Distinct d
    → contains (stale_keys now d) j
      ≡ (elim (Dict.get j d) [ none ↦ false | some s ↦ is_stale now s ])
unfolding stale_keys contains Dict.get
contains-stale_keys now j [] u = refl
contains-stale_keys now j ((k, s) ∷ d) u =
    ground (arith, u.0, contains-stale_keys now j d u.1, pair_beq_iff k j)

-- A round of the reaper ends every session that has been idle for more than its limit, 90 seconds
-- if its connection is open and 30 otherwise, and leaves every other session as it is.
pub reap_exact :
    (now hour : ℕ) (eng : Engine) (key : Key)
    → Distinct eng.sessions
    → Dict.get key (reap now hour eng).sessions ≡ (elim (Dict.get key eng.sessions) [
      | none ↦ none
      | some s ↦
          if ltb (if s.tcp_open then 90000 else 30000) (now - s.last_seen) then none else some s
    ])
unfolding reap is_stale
reap_exact now hour eng key u = ground (
  arith,
  get-teardown_all (stale_keys now eng.sessions) key eng,
  contains-stale_keys now key eng.sessions u,
)
