-- ===== src/Relay/Downlink/Route.antt =====
-- The head of `xhttp_downlink` in core/voidz_core/relay/xhttp.py: what a client must show before
-- the queue of its session is sent to it.
use voidz.Prelude.{ℕ, ◌≡◌, false, not, [], ◌∷◌, some, contains, string_eq, pair_eq}
use voidz.Prelude.Result.{
  Result, ok, http, fail_if, or_raise, ◌>>=◌, ◌>>◌, >>=-eq-ok, >>-eq-ok, fail_if-eq-ok,
}
use voidz.Prelude.Dict
use voidz.Prelude.Texts.{codes}
use voidz.Core.Link.{Time, is_allowed}
use voidz.Relay.Opening.{check_identifiers}
use voidz.Relay.Sessions.{Sess, Engine, Request, get_or_create_session}
use voidz.Relay.Sessions.Caps.{IsSound, get_or_create_own}

-- The link must be allowed also where its session is there already. The table holds open sessions
-- only (`teardown` takes a session out as it closes it), so the test of `closed` has no case here.
unfoldable pub downlink_session : Time → ℕ → Request → Engine → Result (Sess × Engine)
downlink_session t clock req eng = do
  check_identifiers (codes req.session_id) (codes req.uuid)
  fail_if (not (contains ("packet-up" ∷ "stream-up" ∷ []) req.mode)) (http 404)
  link ← or_raise (http 403) (Dict.get req.uuid eng.links)
  fail_if (not (is_allowed t link)) (http 403)
  get_or_create_session t clock req eng

-- A downlink that is served belongs to a session of the link that was asked for, in the table
-- under the asked session id, and the mode is one of the two.
pub downlink_session_own :
    (t : Time) (clock : ℕ) (req : Request) (eng eng' : Engine) (s : Sess)
    → IsSound eng
    → downlink_session t clock req eng ≡ ok (s, eng')
    → (s.uuid ≡ req.uuid)
      × (Dict.get (req.uuid, req.session_id) eng'.sessions ≡ some s)
      × (not (contains ("packet-up" ∷ "stream-up" ∷ []) req.mode) ≡ false)
unfolding downlink_session
downlink_session_own t clock req eng eng' s sound h =
    let h1 = >>-eq-ok (check_identifiers (codes req.session_id) (codes req.uuid)) _ h in
    let (in_mode, h2) =
      fail_if-eq-ok (not (contains ("packet-up" ∷ "stream-up" ∷ []) req.mode)) (http 404) _ h1 in
    let (link, found, h3) = >>=-eq-ok (or_raise (http 403) (Dict.get req.uuid eng.links)) _ h2 in
    let (allowed, made) = fail_if-eq-ok (not (is_allowed t link)) (http 403) _ h3 in
    let own = get_or_create_own t clock req eng eng' s sound made in (own.0, own.1, in_mode)
