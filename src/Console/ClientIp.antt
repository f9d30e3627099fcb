-- ===== src/Console/ClientIp.antt =====
-- `real_client_ip` of console/api/voidz_console/security/edge.py. Texts of headers are lists of
-- code points, and the names of headers are in lower case.
pub mod Trust
use voidz.Prelude.{
  ℕ, String, Bool, true, false, not, ◌&&◌, List, [], ◌∷◌, Option, none, some, ltb, eqb, ◌==◌,
  if◌then◌else◌, string_eq, nat_eq, list_eq,
}
use voidz.Prelude.Dict.{Dict, get}
use voidz.Relay.Bytes.{Text, compare_digest}
use voidz.Prelude.Result.{Result, ok, raise, type_error, fail_if, ◌>>=◌, ◌>>◌}

abbrev pub Headers : Type 0
Headers = Dict String Text

-- `headers.get(name, "")`, which is false if the header is absent or empty
unfoldable pub header_of : String → Headers → Text
header_of name headers = elim (get name headers) [ none ↦ [] | some value ↦ value ]

-- `fwd.split(",")[0]`
unfoldable pub before_comma : Text → Text
before_comma [] = []
before_comma (c ∷ cs) = let rest = before_comma cs in if eqb c 44 then [] else c ∷ rest

-- The address that a proxy gave, from X-Forwarded-For or X-Real-IP, or that of the connection.
unfoldable pub first_given : (Text → Text) → Text → Text → Text → Text
first_given strip (c ∷ cs) real_ip direct_host = strip (before_comma (c ∷ cs))
first_given strip [] (c ∷ cs) direct_host = strip (c ∷ cs)
first_given strip [] [] direct_host = direct_host

unfoldable pub proxied_ip : (Text → Text) → Headers → Text → Text
proxied_ip strip headers direct_host =
    first_given strip (header_of "x-forwarded-for" headers) (header_of "x-real-ip" headers)
      direct_host

-- Whether the request comes through the edge that knows the secret.
unfoldable pub from_edge : Text → Headers → Result Bool
from_edge [] headers = ok false
from_edge (c ∷ cs) headers = compare_digest (header_of "x-voidz-edge-secret" headers) (c ∷ cs)

-- `strip` is `str.strip`, and `direct_host` the host of the connection, or "unknown".
unfoldable pub real_client_ip : (Text → Text) → Text → Headers → Text → Result Text
real_client_ip strip edge_secret headers direct_host = do
  trusted ← from_edge edge_secret headers
  ok (
      if trusted
      then (elim (header_of "x-voidz-real-ip" headers) [
        | c ∷ cs ↦ strip (c ∷ cs)
        | [] ↦ proxied_ip strip headers direct_host
      ])
      else proxied_ip strip headers direct_host)
