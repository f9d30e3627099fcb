-- ===== src/Console/Auth.antt =====
-- Login sessions of the console, and the check against forged requests
-- (console/api/voidz_console/auth/sessions.py). Times are milliseconds.
pub mod Forgery
pub mod Cap
use voidz.Prelude.{
  ℕ, ◌+◌, ◌*◌, String, Bool, true, false, not, ◌&&◌, ◌||◌, List, [], ◌∷◌, Option, none, some, map,
  keep, take, contains, leb, ltb, if◌then◌else◌, ◌==◌, string_eq,
}
use voidz.Prelude.Result.{Result, ok, raise, http, fail_if, or_raise, ◌>>=◌, ◌>>◌}
use voidz.Prelude.Dict
use voidz.Prelude.Dict.{Dict}
use voidz.Relay.Bytes.{Text, compare_digest}

-- 30 days
abbrev pub session_ttl : ℕ
session_ttl = 30 * 86400000

abbrev pub max_sessions_per_user : ℕ
max_sessions_per_user = 100

-- What the functions read of a request: its method, the cookie of the session, and the header.
pub record Visit : Type 0 where
  pub method : String
  pub cookie : Option Text
  pub csrf : Option Text

-- A row of `sessions`, under the hash of its token.
pub record Login : Type 0 where
  pub user_id : String
  pub created_at : ℕ
  pub expires_at : ℕ

abbrev pub Logins : Type 0
Logins = Dict String Login

pub record User : Type 0 where
  pub login : Text
  pub is_admin : Bool
  pub is_disabled : Bool

-- `ORDER BY created_at DESC`; rows of the same time may come in any order, here as in the table.
unfoldable pub place_login : String × Login → Logins → Logins
place_login row [] = row ∷ []
place_login row (other ∷ rows) =
    let rest = place_login row rows in
    if leb other.1.created_at row.1.created_at then row ∷ other ∷ rows else other ∷ rest

unfoldable pub newest_first : Logins → Logins
newest_first [] = []
newest_first (row ∷ rows) = place_login row (newest_first rows)

-- The ids that the cap keeps.
unfoldable pub kept_ids : String → Logins → List String
kept_ids user_id logins =
    map (λ row. row.0)
      (take max_sessions_per_user (newest_first (keep (λ row. row.1.user_id == user_id) logins)))

unfoldable pub cap_logins : String → Logins → Logins
cap_logins user_id logins =
    let ids = kept_ids user_id logins in
    keep (λ row. not (row.1.user_id == user_id) || contains ids row.0) logins

-- A disabled user counts as none.
unfoldable pub enabled : Option User → Option User
enabled none = none
enabled (some user) = if user.is_disabled then none else some user

-- `hash` is SHA-256 of a text, and `token` is `token_urlsafe(32)`.
module _ (hash : Text → String) where
  unfoldable pub create_session : Text → String → ℕ → Logins → Text × Logins
  create_session token user_id now logins = (
    token,
    cap_logins user_id (
        Dict.put (hash token)
          (record { user_id = user_id; created_at = now; expires_at = now + session_ttl }) logins),
  )

  -- The user of a session that has not ended, by the token of the cookie.
  unfoldable pub user_of_token : Text → ℕ → Dict String User → Logins → Option User
  user_of_token token now users logins = elim (Dict.get (hash token) logins) [
    | none ↦ none
    | some login ↦ if ltb now login.expires_at then Dict.get login.user_id users else none
  ]

  unfoldable pub get_session_user : Visit → ℕ → Dict String User → Logins → Option User
  get_session_user visit now users logins = elim visit.cookie [
    | none ↦ none
    | some [] ↦ none
    | some (c ∷ cs) ↦ enabled (user_of_token (c ∷ cs) now users logins)
  ]

  unfoldable pub destroy_session : Visit → Logins → Logins
  destroy_session visit logins = elim visit.cookie [
    | none ↦ logins
    | some [] ↦ logins
    | some (c ∷ cs) ↦ Dict.remove (hash (c ∷ cs)) logins
  ]

unfoldable pub destroy_all_sessions : String → Logins → Logins
destroy_all_sessions user_id logins = keep (λ row. not (row.1.user_id == user_id)) logins

unfoldable pub require_user : Option User → Result User
require_user user = or_raise (http 401) user

unfoldable pub require_admin : Option User → Result User
require_admin user = do found ← require_user user; fail_if (not found.is_admin) (http 403); ok found

-- `x or ""`
unfoldable pub csrf_token : Option Text → Text
csrf_token none = []
csrf_token (some text) = text

-- `not header_token or not compare_digest(...)`
unfoldable pub compare_tokens : Text → Text → Result (Unit {0})
compare_tokens [] cookie = raise (http 403)
compare_tokens (c ∷ cs) cookie = do
  same ← compare_digest (c ∷ cs) cookie
  fail_if (not same) (http 403)

unfoldable pub check_csrf : Visit → Option User → Result (Unit {0})
check_csrf visit none = ok tt
check_csrf visit (some user) =
    if contains ("GET" ∷ "HEAD" ∷ "OPTIONS" ∷ []) visit.method
    then ok tt
    else compare_tokens (csrf_token visit.csrf) (csrf_token visit.cookie)
