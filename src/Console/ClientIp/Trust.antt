-- ===== src/Console/ClientIp/Trust.antt =====
-- Which headers are trusted (console/api/voidz_console/security/edge.py).
use voidz.Prelude.{
  ◌≡◌, refl, String, Bool, true, false, [], ◌∷◌, ◌≢◌, ◌==◌, ==_iff, string_eq, nat_eq, list_eq,
  arith,
}
use voidz.Prelude.Dict.{put, get-put}
use voidz.Prelude.Result.{Result, ok, raise}
use voidz.Relay.Bytes.{Text, compare_digest}
use voidz.Console.ClientIp.{Headers, header_of, proxied_ip, from_edge, real_client_ip}

header_of-put_other :
    (name other : String) (value : Text) (headers : Headers)
    → (name == other) ≡ false
    → header_of other (put name value headers) ≡ header_of other headers
unfolding header_of
header_of-put_other name other value headers apart =
    rw (get-put name other value headers, apart, header_of)

compare_digest-true : (a b : Text) → compare_digest a b ≡ ok true → a ≡ b
unfolding compare_digest
compare_digest-true a b h = ground (arith, h, ==_iff a b)

from_edge-true :
    (edge_secret : Text) (headers : Headers)
    → from_edge edge_secret headers ≡ ok true
    → header_of "x-voidz-edge-secret" headers ≡ edge_secret
unfolding from_edge
from_edge-true [] headers h = cc
from_edge-true (c ∷ cs) headers h =
    compare_digest-true (header_of "x-voidz-edge-secret" headers) (c ∷ cs) h

-- The claimed address is no part of what else is read.
from_edge-put :
    (edge_secret claimed : Text) (headers : Headers)
    → from_edge edge_secret (put "x-voidz-real-ip" claimed headers) ≡ from_edge edge_secret headers
unfolding from_edge
from_edge-put [] claimed headers = refl
from_edge-put (c ∷ cs) claimed headers =
    rw (header_of-put_other "x-voidz-real-ip" "x-voidz-edge-secret" claimed headers refl)

proxied_ip-put :
    (strip : Text → Text) (claimed : Text) (headers : Headers) (direct_host : Text)
    → proxied_ip strip (put "x-voidz-real-ip" claimed headers) direct_host
      ≡ proxied_ip strip headers direct_host
unfolding proxied_ip
proxied_ip-put strip claimed headers direct_host = rw (
  header_of-put_other "x-voidz-real-ip" "x-forwarded-for" claimed headers refl,
  header_of-put_other "x-voidz-real-ip" "x-real-ip" claimed headers refl,
)

untrusted_same :
    (strip : Text → Text) (edge_secret claimed : Text) (headers : Headers) (direct_host : Text)
    (trusted : Result Bool)
    → from_edge edge_secret headers ≡ trusted
    → trusted ≢ ok true
    → real_client_ip strip edge_secret (put "x-voidz-real-ip" claimed headers) direct_host
      ≡ real_client_ip strip edge_secret headers direct_host
unfolding real_client_ip
untrusted_same strip edge_secret claimed headers direct_host (raise exn) e other =
    rw (from_edge-put edge_secret claimed headers, e, real_client_ip)
untrusted_same strip edge_secret claimed headers direct_host (ok true) e other = absurd (other refl)
untrusted_same strip edge_secret claimed headers direct_host (ok false) e other = rw (
  from_edge-put edge_secret claimed headers,
  e,
  proxied_ip-put strip claimed headers direct_host,
  real_client_ip,
)

-- A request whose X-Voidz-Edge-Secret is not the edge's secret gets the same answer whatever it
-- says in X-Voidz-Real-IP.
pub real_client_ip-put :
    (strip : Text → Text) (edge_secret claimed : Text) (headers : Headers) (direct_host : Text)
    → header_of "x-voidz-edge-secret" headers ≢ edge_secret
    → real_client_ip strip edge_secret (put "x-voidz-real-ip" claimed headers) direct_host
      ≡ real_client_ip strip edge_secret headers direct_host
real_client_ip-put strip edge_secret claimed headers direct_host outside =
    untrusted_same strip edge_secret claimed headers direct_host (from_edge edge_secret headers)
      refl (λ trusted. outside (from_edge-true edge_secret headers trusted))
