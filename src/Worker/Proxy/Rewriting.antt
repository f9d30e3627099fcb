-- ===== src/Worker/Proxy/Rewriting.antt =====
-- The headers of a forwarded request (`_forward_http` of worker/voidz_worker/main.py).
use voidz.Prelude.{
  ◌≡◌, refl, sym, ap, ◌∙◌, append-nil, String, Bool, true, false, List, [], ◌∷◌, ◌++◌, Option, none,
  some, ◌==◌, ==_iff, keep, contains, string_eq, if◌then◌else◌, Bool-cases, inl, inr, arith,
}
use voidz.Relay.Bytes.{Text}
use voidz.Console.ClientIp.{Headers}
use voidz.Worker.Proxy.{is_passed, authorization, forward_headers}

-- The values of a header, in order.
unfoldable pub values : String → Headers → List Text
values name [] = []
values name ((k, v) ∷ headers) =
    let rest = values name headers in if k == name then v ∷ rest else rest

values-append :
    (name : String) (h h' : Headers) → values name (h ++ h') ≡ values name h ++ values name h'
unfolding values
values-append name [] h' = refl
values-append name ((k, v) ∷ h) h' = ground (arith, values-append name h h')

values-keep :
    (name : String) (h : Headers)
    → values name (keep (λ (header : String × Text). is_passed header.0) h)
      ≡ (if is_passed name then values name h else [])
unfolding values keep
values-keep name [] = ground arith
values-keep name ((k, v) ∷ h) = elim (Bool-cases (k == name)) [
  | inl same ↦ ground (arith, same, (==_iff k name).0 same, values-keep name h)
  | inr apart ↦ ground (arith, apart, values-keep name h)
]

forwarded_for_dropped : is_passed "x-forwarded-for" ≡ false
unfolding is_passed contains
forwarded_for_dropped = refl

real_ip_dropped : is_passed "x-real-ip" ≡ false
unfolding is_passed contains
real_ip_dropped = refl

host_dropped : is_passed "host" ≡ false
unfolding is_passed contains
host_dropped = refl

content_length_dropped : is_passed "content-length" ≡ false
unfolding is_passed contains
content_length_dropped = refl

authorization_dropped : is_passed "authorization" ≡ false
unfolding is_passed contains
authorization_dropped = refl

-- The values of a name behind the rewriting: the client's if it is passed, and the added ones.
values_rewritten :
    (name : String) (headers added : Headers)
    → values name (keep (λ (header : String × Text). is_passed header.0) headers ++ added)
      ≡ (if is_passed name then values name headers else []) ++ values name added
values_rewritten name headers added =
    values-append name _ added
    ∙ ap (λ (vs : List Text). vs ++ values name added) (values-keep name headers)

values_replaced :
    (name : String) (headers added : Headers)
    → is_passed name ≡ false
    → values name (keep (λ (header : String × Text). is_passed header.0) headers ++ added)
      ≡ values name added
values_replaced name headers added dropped =
    values_rewritten name headers added
    ∙ ap (λ (b : Bool). (if b then values name headers else []) ++ values name added) dropped

-- A header that is passed on is none of the dropped ones.
passed_apart : (k name : String) → is_passed k ≡ false → is_passed name ≡ true → (k == name) ≡ false
passed_apart k name dropped passed = elim (Bool-cases (k == name)) [
  | inl same ↦
      let no : false ≡ true = sym dropped ∙ ap is_passed ((==_iff k name).0 same) ∙ passed in cc
  | inr apart ↦ apart
]

values-authorization :
    (name : String) (token : Option Text)
    → ("authorization" == name) ≡ false
    → values name (authorization token) ≡ []
unfolding values authorization
values-authorization name none apart = refl
values-authorization name (some []) apart = refl
values-authorization name (some (c ∷ token)) apart = rw apart

values_added :
    (name : String) (ip : Text) (token : Option Text)
    → is_passed name ≡ true
    → values name ((("x-forwarded-for", ip) ∷ ("x-real-ip", ip) ∷ []) ++ authorization token) ≡ []
unfolding values
values_added name ip token passed =
    rw (passed_apart "x-forwarded-for" name forwarded_for_dropped passed) (
      rw (passed_apart "x-real-ip" name real_ip_dropped passed) (
        values-authorization name token
          (passed_apart "authorization" name authorization_dropped passed)))

-- What a core is told: exactly one X-Forwarded-For and one X-Real-Ip, which hold the address that
-- the worker found and nothing a client sent under these names; as Authorization only the
-- instance's own token, if it is known; no Host or Content-Length of the client. Every other
-- header has the values that the client sent, in order.
pub forward_headers_exact :
    (headers : Headers) (ip : Text) (token : Option Text)
    → (values "x-forwarded-for" (forward_headers headers ip token) ≡ ip ∷ [])
      × (values "x-real-ip" (forward_headers headers ip token) ≡ ip ∷ [])
      × (values "authorization" (forward_headers headers ip token)
          ≡ values "authorization" (authorization token))
      × (values "host" (forward_headers headers ip token) ≡ [])
      × (values "content-length" (forward_headers headers ip token) ≡ [])
      × ((name : String)
          → is_passed name ≡ true
          → values name (forward_headers headers ip token) ≡ values name headers)
unfolding forward_headers values
forward_headers_exact headers ip token = (
  values_replaced "x-forwarded-for" headers _ forwarded_for_dropped
      ∙ ap (◌∷◌ ip) (values-authorization "x-forwarded-for" token refl),
  values_replaced "x-real-ip" headers _ real_ip_dropped
      ∙ ap (◌∷◌ ip) (values-authorization "x-real-ip" token refl),
  values_replaced "authorization" headers _ authorization_dropped,
  values_replaced "host" headers _ host_dropped ∙ values-authorization "host" token refl,
  values_replaced "content-length" headers _ content_length_dropped
      ∙ values-authorization "content-length" token refl,
  λ name passed.
      values_rewritten name headers _
      ∙ rw passed (rw (values_added name ip token passed) (append-nil (values name headers))),
)
