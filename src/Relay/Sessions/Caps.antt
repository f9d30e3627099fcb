-- ===== src/Relay/Sessions/Caps.antt =====
-- The caps on the number of sessions, and whose session a request gets
-- (`XHttpEngine` of core/voidz_core/relay/xhttp.py).
use voidz.Prelude.{
  ℕ, ◌≤◌, ◌≡◌, String, List, [], ◌∷◌, none, some, length, ◌==◌, string_eq, pair_eq, arith,
  Option-cases, inl, inr, pair_beq, ◌∙◌, ==_refl,
}
use mathlib.Core.Path.{subst}
use text.Mathlib.TextEquality.{eq_iff}
use voidz.Prelude.Dict
use voidz.Prelude.Dict.{
  Dict, length-put, length-remove-le, count_keys-put, count_keys-put_same, count_keys-remove-le,
  get-put, get-remove,
}
use voidz.Prelude.Result.{Result, ok}
use voidz.Core.Link.{Time}
use voidz.Relay.Sessions.{
  Key, Sess, Engine, Request, new_session, per_link_count, create_session, get_or_create_session,
  teardown, teardown_all, stale_keys, reap, max_sessions_global, max_sessions_per_link,
}

-- At most 2048 sessions, at most 64 on a link, and each under the link that it is for.
pub record IsSound (eng : Engine) : Type 0 where
  pub global : length eng.sessions ≤ max_sessions_global
  pub per_link : (uuid : String) → per_link_count uuid eng ≤ max_sessions_per_link
  pub own :
      (uuid session_id : String) (s : Sess)
      → Dict.get (uuid, session_id) eng.sessions ≡ some s
      → s.uuid ≡ uuid

module _ (t : Time) (now : ℕ) (req : Request) (eng : Engine) where
  created-IsSound :
      {s : Sess} {eng' : Engine}
      → Dict.get (req.uuid, req.session_id) eng.sessions ≡ none
      → create_session t now req eng ≡ ok (s, eng')
      → IsSound eng
      → IsSound eng'
  unfolding create_session per_link_count pair_beq
  created-IsSound absent h v = record {
    global =
        ground (arith, length-put (req.uuid, req.session_id) (new_session req now) eng.sessions);
    per_link = λ uuid. ground (
      arith,
      v.per_link uuid,
      eq_iff req.uuid uuid,
      count_keys-put (λ (k : Key). k.0 == uuid) (req.uuid, req.session_id) (new_session req now)
          eng.sessions,
    );
    own = λ uuid session_id s' there. ground (
      arith,
      v.own uuid session_id s',
      eq_iff req.uuid uuid,
      get-put (req.uuid, req.session_id) (uuid, session_id) (new_session req now) eng.sessions,
    );
  }

  seen-IsSound :
      (sess : Sess)
      → Dict.get (req.uuid, req.session_id) eng.sessions ≡ some sess
      → IsSound eng
      → IsSound (record eng {
        sessions =
            Dict.put (req.uuid, req.session_id) (record sess { last_seen = now }) eng.sessions;
      })
  unfolding per_link_count pair_beq
  seen-IsSound sess there v =
      let seen : Sess = record sess { last_seen = now } in
      let key : Key = (req.uuid, req.session_id) in
      record {
        global = ground (arith, v.global, length-put key seen eng.sessions);
        per_link = λ uuid. ground (
          arith,
          v.per_link uuid,
          count_keys-put_same (λ (k : Key). k.0 == uuid) key seen sess eng.sessions there,
        );
        own = λ uuid session_id s' found. ground (
          arith,
          v.own uuid session_id s',
          v.own req.uuid req.session_id sess there,
          eq_iff req.uuid uuid,
          get-put key (uuid, session_id) seen eng.sessions,
        );
      }

  created-own :
      {s : Sess} {eng' : Engine}
      → create_session t now req eng ≡ ok (s, eng')
      → (s.uuid ≡ req.uuid) × (Dict.get (req.uuid, req.session_id) eng'.sessions ≡ some s)
  unfolding create_session
  created-own {s} {eng'} h =
      let key : Key = (req.uuid, req.session_id) in
      let put = get-put key key (new_session req now) eng.sessions in
      (ground arith, ground (arith, put, ==_refl key))

-- A request that is not refused gets a session of its own link, and leaves the table sound: no
-- link reaches the session of another, whatever session id the request names, and the caps hold.
pub get_or_create_own :
    (t : Time) (now : ℕ) (req : Request) (eng eng' : Engine) (s : Sess)
    → IsSound eng
    → get_or_create_session t now req eng ≡ ok (s, eng')
    → (s.uuid ≡ req.uuid)
      × (Dict.get (req.uuid, req.session_id) eng'.sessions ≡ some s)
      × IsSound eng'
unfolding get_or_create_session
get_or_create_own t now req eng eng' s v h =
    let key : Key = (req.uuid, req.session_id) in
    elim (Option-cases (Dict.get key eng.sessions)) [
      | inl absent ↦
          let made : create_session t now req eng ≡ ok (s, eng') =
            rw (absent, get_or_create_session) at h in
          let (own, kept) = created-own t now req eng made in
          (own, kept, created-IsSound t now req eng absent made v)
      | inr (sess, there) ↦
          let seen : Sess = record sess { last_seen = now } in
          let after : Engine = record eng { sessions = Dict.put key seen eng.sessions } in
          let same : ◌≡◌ {A = Result (Sess × Engine)} (ok (seen, after)) (ok (s, eng')) =
            rw (there, get_or_create_session) at h in
          let s_is : seen ≡ s = ground arith in
          let eng_is : after ≡ eng' = ground arith in
          (
            rw (← s_is) (v.own req.uuid req.session_id sess there),
            rw (← s_is, ← eng_is) (get-put key key seen eng.sessions ∙ rw (==_refl key)),
            subst IsSound eng_is (seen-IsSound t now req eng sess there v),
          )
    ]

module _ (key : Key) (eng : Engine) where
  teardown-IsSound : IsSound eng → IsSound (teardown key eng)
  unfolding teardown per_link_count
  teardown-IsSound v = elim (Option-cases (Dict.get key eng.sessions)) [
    | inl absent ↦ rw (absent, teardown) v
    | inr (sess, there) ↦
        rw (there, teardown)
          (record {
            global = omega (arith, v.global, length-remove-le key eng.sessions);
            per_link = λ uuid. omega (
              arith,
              v.per_link uuid,
              count_keys-remove-le (λ (k : Key). k.0 == uuid) key eng.sessions,
            );
            own = λ uuid session_id s found.
                v.own uuid session_id s
                  (ground (arith, found, get-remove key (uuid, session_id) eng.sessions));
          })
  ]

teardown_all-IsSound :
    (keys : List Key) (eng : Engine) → IsSound eng → IsSound (teardown_all keys eng)
unfolding teardown_all
teardown_all-IsSound [] eng v = v
teardown_all-IsSound (key ∷ rest) eng v =
    teardown_all-IsSound rest (teardown key eng) (teardown-IsSound key eng v)

-- What happens to the table: a request that is not refused, a session that ends, a round of the
-- reaper.
pub data Step : Engine → Engine → Type 0 where
  request :
      (t : Time) (now : ℕ) (req : Request) (s : Sess) {eng eng' : Engine}
      → get_or_create_session t now req eng ≡ ok (s, eng')
      → Step eng eng'
  end : (key : Key) {eng : Engine} → Step eng (teardown key eng)
  reaper : (now hour : ℕ) {eng : Engine} → Step eng (reap now hour eng)

pub data Reach (start : Engine) : Engine → Type 0 where
  here : Reach start start
  then_step : {a b : Engine} → Reach start a → Step a b → Reach start b

Step-IsSound : {a b : Engine} → Step a b → IsSound a → IsSound b
unfolding reap per_link_count
Step-IsSound (request t now req s {eng} {eng'} h) v = (get_or_create_own t now req eng eng' s v h).2
Step-IsSound (end key {eng}) v = teardown-IsSound key eng v
Step-IsSound (reaper now hour {eng}) v =
    let swept = teardown_all-IsSound (stale_keys now eng.sessions) eng v in
    record { global = swept.global; per_link = swept.per_link; own = swept.own }

-- However requests, ends of sessions and rounds of the reaper follow one another, the table never
-- holds more than 2048 sessions, nor more than 64 of one link, and each session is stored under
-- the link that it belongs to.
pub Reach-IsSound : {start eng : Engine} → IsSound start → Reach start eng → IsSound eng
Reach-IsSound v here = v
Reach-IsSound v (then_step r step) = Step-IsSound step (Reach-IsSound v r)
