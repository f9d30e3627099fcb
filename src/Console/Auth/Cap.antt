-- ===== src/Console/Auth/Cap.antt =====
-- The cap on the sessions of a user (console/api/voidz_console/auth/sessions.py).
use voidz.Prelude.{
  ℕ, ◌+◌, ◌≤◌, ◌≡◌, refl, ap, some, true, false, Bool, Bool-cases, inl, inr, String, not, ◌||◌,
  List, [], ◌∷◌, none, keep, take, contains, count_if, length, length-map, length-take, ◌==◌,
  ==_iff, string_eq, arith,
}
use voidz.Prelude.Dict
use voidz.Prelude.Dict.{Dict, Distinct, put-Distinct, get-put}
use voidz.Relay.Bytes.{Text}
use voidz.Console.Auth.{
  Login, Logins, newest_first, kept_ids, cap_logins, create_session, max_sessions_per_user,
  session_ttl,
}

count_absent :
    (id : String) (d : Logins) → Dict.get id d ≡ none → count_if (λ row. row.0 == id) d ≡ 0
unfolding count_if Dict.get
count_absent id [] h = omega arith
count_absent id ((k, row) ∷ d) h = ground (arith, h, count_absent id d)

count_key : (id : String) (d : Logins) → Distinct d → count_if (λ row. row.0 == id) d ≤ 1
unfolding count_if
count_key id [] u = omega arith
count_key id ((k, row) ∷ d) u =
    ground (arith, u.0, count_absent k d u.0, count_key id d u.1, ==_iff k id)

count_either :
    (id : String) (ids : List String) (d : Logins)
    → count_if (λ row. contains (id ∷ ids) row.0) d
      ≤ count_if (λ row. row.0 == id) d + count_if (λ row. contains ids row.0) d
unfolding count_if contains
count_either id ids [] = omega arith
count_either id ids ((k, row) ∷ d) = ground (arith, count_either id ids d, ==_iff id k, ==_iff k id)

count_none : (d : Logins) → count_if (λ row. contains [] row.0) d ≤ 0
unfolding count_if contains
count_none [] = omega arith
count_none ((k, row) ∷ d) = omega (arith, count_none d)

-- rows with different keys among a list of ids
count_listed :
    (ids : List String) (d : Logins)
    → Distinct d
    → count_if (λ row. contains ids row.0) d ≤ length ids
count_listed [] d u = count_none d
count_listed (id ∷ ids) d u =
    omega (arith, count_either id ids d, count_key id d u, count_listed ids d u)

count_capped :
    (user_id : String) (ids : List String) (d : Logins)
    → count_if
        (λ row. row.1.user_id == user_id)
        (keep (λ row. not (row.1.user_id == user_id) || contains ids row.0) d)
      ≤ count_if (λ row. contains ids row.0) d
unfolding count_if keep
count_capped user_id ids [] = omega arith
count_capped user_id ids ((k, row) ∷ d) = ground (arith, count_capped user_id ids d)

length-kept_ids :
    (user_id : String) (d : Logins) → length (kept_ids user_id d) ≤ max_sessions_per_user
unfolding kept_ids
length-kept_ids user_id d =
    let rows = newest_first (keep (λ row. row.1.user_id == user_id) d) in
    omega (
      arith,
      length-map (λ (row : String × Login). row.0) (take max_sessions_per_user rows),
      length-take max_sessions_per_user rows,
    )

-- A row that is kept is found, whatever goes before it.
get-keep :
    (p : String × Login → Bool) (k : String) (login : Login) (d : Logins)
    → Dict.get k d ≡ some login
    → p (k, login) ≡ true
    → Dict.get k (keep p d) ≡ some login
unfolding keep Dict.get
get-keep p k login [] there kept = cc
get-keep p k login ((j, row) ∷ d) there kept = elim (Bool-cases (j == k)) [
  | inl same ↦
      let is_key : j ≡ k = (==_iff j k).0 same in
      let is_row : row ≡ login = ground (arith, same, there) in
      let kept_row : p (j, row) ≡ true = rw (is_key, is_row) kept in
      rw kept_row (rw same (ap some is_row))
  | inr apart ↦
      let later = get-keep p k login d (ground (arith, apart, there)) kept in
      ground (arith, apart, later)
]

others_kept :
    (user_id k : String) (ids : List String) (login : Login) (d : Logins)
    → Dict.get k d ≡ some login
    → (login.user_id == user_id) ≡ false
    → Dict.get k (keep (λ row. not (row.1.user_id == user_id) || contains ids row.0) d) ≡ some login
others_kept user_id k ids login d there other =
    get-keep (λ row. not (row.1.user_id == user_id) || contains ids row.0) k login d there
      (rw other refl)

-- In a table with one row for a hash, after a login with a token that no session has, no more than
-- 100 sessions of the user are left, and every session of another user is as it was.
pub create_session-cap :
    (hash : Text → String) (token : Text) (user_id : String) (now : ℕ) (logins : Logins)
    → Distinct logins
    → Dict.get (hash token) logins ≡ none
    → (count_if (λ row. row.1.user_id == user_id) (create_session hash token user_id now logins).1
        ≤ max_sessions_per_user)
      × ((k : String) (other : Login)
          → Dict.get k logins ≡ some other
          → (other.user_id == user_id) ≡ false
          → Dict.get k (create_session hash token user_id now logins).1 ≡ some other)
unfolding create_session cap_logins
create_session-cap hash token user_id now logins u fresh =
    let login : Login = record {
      user_id = user_id;
      created_at = now;
      expires_at = now + session_ttl;
    } in
    let grown = Dict.put (hash token) login logins in
    let ids = kept_ids user_id grown in
    (
      omega (
        arith,
        count_capped user_id ids grown,
        count_listed ids grown (put-Distinct (hash token) login logins u),
        length-kept_ids user_id grown,
      ),
      λ k other there apart.
          others_kept user_id k ids other grown
            (ground (
              arith,
              there,
              fresh,
              ==_iff (hash token) k,
              get-put (hash token) k login logins,
              ap (λ (x : String). Dict.get x logins) {x = hash token} {y = k},
            ))
            apart,
    )
