-- ===== src/Core/Link/Normal.antt =====
-- A link that is constructed from its own fields is itself (core/voidz_core/state.py).
use voidz.Prelude.{
  ℕ, zero, suc, ◌≤◌, ◌≡◌, ◌≢◌, refl, ap, String, [], ◌∷◌, take, length, contains, ==_iff, string_eq,
  arith,
}
use voidz.Relay.Bytes.{Text, join}
use voidz.Core.Alpn.{Str, tokens}
use voidz.Core.Alpn.Stable.{alpn_of-alpn_of}
use voidz.Core.Link.{Link, construct, created_of, fingerprint_of}

take-take : (n : ℕ) (t : Text) → take n (take n t) ≡ take n t
take-take zero t = refl
take-take (suc n) [] = refl
take-take (suc n) (c ∷ cs) = ap (◌∷◌ c) (take-take n cs)

fingerprint_of-fingerprint_of : (f : String) → fingerprint_of (fingerprint_of f) ≡ fingerprint_of f
unfolding fingerprint_of contains
fingerprint_of-fingerprint_of f =
    ground (arith, ==_iff "chrome" f, ==_iff "firefox" f, ==_iff "ios" f)

created_of-created_of :
    (now later created_at : String)
    → now ≢ ""
    → created_of later (created_of now created_at) ≡ created_of now created_at
unfolding created_of
created_of-created_of now later created_at some_time =
    ground (arith, ==_iff now "", ==_iff created_at "", some_time)

-- A second construction changes nothing, at any time.
pub construct-construct :
    (s : Str) (now later : String) (args : Link)
    → now ≢ ""
    → length (join 44 (tokens s args.alpn)) ≤ 60
    → construct s later (construct s now args) ≡ construct s now args
unfolding construct
construct-construct s now later args some_time short = rw (
  take-take 80 args.label,
  take-take 300 args.note,
  created_of-created_of now later args.created_at some_time,
  alpn_of-alpn_of s args.alpn short,
  fingerprint_of-fingerprint_of args.fingerprint,
)
