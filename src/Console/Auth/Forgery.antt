-- ===== src/Console/Auth/Forgery.antt =====
-- A change that a user did not ask for is refused (console/api/voidz_console/auth/sessions.py).
use voidz.Prelude.{
  ◌≡◌, ◌≢◌, false, [], ◌∷◌, some, contains, ==_iff, string_eq, list_eq, nat_eq, arith,
}
use voidz.Prelude.Result.{ok}
use voidz.Relay.Bytes.{Text, compare_digest}
use voidz.Console.Auth.{Visit, User, csrf_token, compare_tokens, check_csrf}

compare_tokens-ok :
    (header cookie : Text)
    → compare_tokens header cookie ≡ ok tt
    → (header ≢ []) × (header ≡ cookie)
unfolding compare_tokens compare_digest
compare_tokens-ok [] cookie h = cc
compare_tokens-ok (c ∷ cs) cookie h = (λ e. cc, ground (arith, h, ==_iff (c ∷ cs) cookie))

-- A request of a user that may change something passes only if its header repeats the token of
-- the session cookie, which is not empty.
pub check_csrf-ok :
    (visit : Visit) (user : User)
    → contains ("GET" ∷ "HEAD" ∷ "OPTIONS" ∷ []) visit.method ≡ false
    → check_csrf visit (some user) ≡ ok tt
    → (csrf_token visit.csrf ≢ []) × (csrf_token visit.csrf ≡ csrf_token visit.cookie)
unfolding check_csrf
check_csrf-ok visit user changes passes =
    compare_tokens-ok (csrf_token visit.csrf) (csrf_token visit.cookie)
      (rw (changes, check_csrf) at passes)
