-- ===== src/Relay/Opening.antt =====
-- `_open_tcp_for_session` of core/voidz_core/relay/xhttp.py up to the connection, the checks of
-- identifiers in its routes, and `req_client_ip`.
use voidz.Prelude.{
  ℕ, zero, suc, String, Bool, true, false, not, ◌||◌, [], ◌∷◌, Option, none, some, length, ltb, eqb,
  if◌then◌else◌, ◌==◌, string_eq, list_eq, nat_eq,
}
use voidz.Prelude.Result.{Result, ok, http, value_error, fail_if, or_raise, ◌>>=◌, ◌>>◌}
use voidz.Prelude.Dict
use voidz.Prelude.Texts.{codes, first_chars}
use voidz.Core.Link.{Link, Time, is_allowed}
use voidz.Core.Store.{LinkStore}
use voidz.Relay.Bytes.{Bytes, Text, hex_value}
use voidz.Relay.Trojan.{Digest, given_hash, parse_trojan_request}
use voidz.Relay.Vless.{parse_vless_header}
use voidz.Console.ClientIp.{Headers, proxied_ip}

abbrev pub session_id_max : ℕ
session_id_max = 128

unfoldable pub is_hex : ℕ → Bool
unfolding hex_value
is_hex c = elim (hex_value c) [ none ↦ false | some v ↦ true ]

-- `n` hexadecimal digits, and what follows them
unfoldable pub hex_run : ℕ → Text → Option Text
unfolding is_hex
hex_run zero t = some t
hex_run (suc n) [] = none
hex_run (suc n) (c ∷ t) = let rest = hex_run n t in if is_hex c then rest else none

-- a dash and `n` hexadecimal digits
unfoldable pub dash_run : ℕ → Option Text → Option Text
unfolding hex_run
dash_run n (some (c ∷ t)) = if eqb c 45 then hex_run n t else none
dash_run n (some []) = none
dash_run n none = none

-- `$` matches at the end, and in front of a line end that is the last character.
unfoldable pub at_end : Option Text → Bool
at_end none = false
at_end (some []) = true
at_end (some (c ∷ [])) = eqb c 10
at_end (some (c ∷ d ∷ t)) = false

-- `UUID_RE.match(s)`
unfoldable pub is_uuid : Text → Bool
unfolding hex_run dash_run at_end
is_uuid t = at_end (dash_run 12 (dash_run 4 (dash_run 4 (dash_run 4 (hex_run 8 t)))))

-- The check at the head of the three routes.
unfoldable pub check_identifiers : Text → Text → Result (Unit {0})
unfolding is_uuid
check_identifiers session_id uuid =
    fail_if (ltb session_id_max (length session_id) || not (is_uuid uuid)) (http 400)

-- `req_client_ip`; `peer` is the host of the connection, or "unknown".
unfoldable pub req_client_ip : (Text → Text) → Headers → Text → Text
unfolding proxied_ip
req_client_ip strip headers peer = proxied_ip strip headers peer

-- Where a session connects: the address, the port, what follows the header, and whether its
-- downlink begins with the answer of VLESS.
pub record Target : Type 0 where
  pub address : Text
  pub port : ℕ
  pub payload : Bytes
  pub vless_prefix : Bool

module _ (digest : Digest) (decode : Bytes → Text) where
  open digest use {trojan_password_hash}

  unfoldable pub trojan_target : Text → Bytes → Result Target
  trojan_target uuid first_chunk = do
    fail_if (ltb (length first_chunk) 60) value_error
    fail_if (not (given_hash first_chunk == trojan_password_hash uuid)) value_error
    (address, port, payload) ← parse_trojan_request decode first_chunk (trojan_password_hash uuid)
    ok (record { address = address; port = port; payload = payload; vless_prefix = false })

  unfoldable pub vless_target : Text → Bytes → Result Target
  unfolding is_uuid
  vless_target uuid first_chunk = do
    fail_if (not (is_uuid uuid)) value_error
    (command, address, port, payload) ← parse_vless_header decode first_chunk
    ok (record { address = address; port = port; payload = payload; vless_prefix = true })

  -- The branch on the protocol of the link.
  unfoldable pub target_for : String → Link → Bytes → Result Target
  unfolding trojan_target vless_target
  target_for uuid link first_chunk =
      if first_chars 6 link.protocol == "trojan"
      then trojan_target (codes link.uuid) first_chunk
      else vless_target (codes uuid) first_chunk

  unfoldable pub target_of : Time → String → Bytes → LinkStore → Result Target
  unfolding target_for
  target_of t uuid first_chunk links = do
    link ← or_raise (http 403) (Dict.get uuid links)
    fail_if (not (is_allowed t link)) (http 403)
    target_for uuid link first_chunk
