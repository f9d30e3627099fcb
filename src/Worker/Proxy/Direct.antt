-- ===== src/Worker/Proxy/Direct.antt =====
-- What the public routes of worker/voidz_worker/main.py reach.
use voidz.Prelude.{
  ◌≡◌, refl, sym, ◌∙◌, true, false, not, List, [], ◌∷◌, ◌++◌, Option, none, some, Bool-cases,
  Option-cases, ℕ, length, inl, inr, list_eq, nat_eq, list_beq, contains, any, All, arith, ◌<◌, ap,
  Bool, leb, eqb, ◌&&◌, ◌||◌,
}
use mathlib.Core.Path.{subst}
use voidz.Prelude.Dict.{get}
use voidz.Prelude.Result.{ok, http, or_raise, >>=-eq-ok, fail_if-eq-ok}
use voidz.Prelude.Texts.{codes}
use voidz.Relay.Bytes.{Text}
use voidz.DirectToken.{Hmac, encode, decode}
use voidz.DirectToken.RoundTrip.{decode_exact}
use voidz.Console.ClientIp.{Headers, header_of}
use voidz.Worker.Driver.{InstanceId, Handle, Outcome, Report, done, driver_error, other_error}
use voidz.Worker.Api.{DriverApi}
use voidz.Worker.Proxy.{
  Incoming, Forwarded, Upstream, relayed, refused, starts_with, is_public_client_path,
  origin_client_ip, forward_headers, port_of, closes, token_of, forward_http, direct_http_proxy,
  relayed_ws, forward_ws, direct_ws_proxy,
}

port_of-ok : (o : Outcome Report) (port : ℕ) → port_of o ≡ ok port → o ≡ done (some (true, port))
unfolding port_of
port_of-ok (done none) port h = cc
port_of-ok (done (some (true, p))) port h = let same : p ≡ port = cc in rw same
port_of-ok (done (some (false, p))) port h = cc
port_of-ok driver_error port h = cc
port_of-ok other_error port h = cc

or_raise-ok : {A : Type 0} (o : Option A) (a : A) → or_raise (http 404) o ≡ ok a → o ≡ some a
or_raise-ok none a h = cc
or_raise-ok (some b) a h = let same : b ≡ a = cc in rw same

first_char : (c : ℕ) (path : Text) → starts_with (codes "core/") (c ∷ path) ≡ true → 99 ≡ c
unfolding starts_with
first_char c path h = ground arith

not_core : (path : Text) → is_public_client_path (99 ∷ path) ≡ false
unfolding is_public_client_path starts_with contains any list_beq
not_core path = refl

-- Nothing under `core/`, where a core has its management, is a public path.
core_path :
    (path : Text) → starts_with (codes "core/") path ≡ true → is_public_client_path path ≡ false
unfolding starts_with
core_path [] h = cc
core_path (c ∷ path) h =
    subst (λ (x : ℕ). is_public_client_path (x ∷ path) ≡ false) (first_char c path h)
      (not_core path)

public_path :
    (path : Text) → is_public_client_path path ≡ true → starts_with (codes "core/") path ≡ false
public_path path public = elim (Bool-cases (starts_with (codes "core/") path)) [
  | inl core ↦ let no : true ≡ false = sym public ∙ core_path path core in cc
  | inr other ↦ other
]

-- A letter, a digit, `-`, `_` or `/`.
abbrev pub is_plain : ℕ → Bool
is_plain c =
    (leb 97 c && leb c 122)
    || (leb 65 c && leb c 90)
    || (leb 48 c && leb c 57)
    || eqb c 45
    || eqb c 95
    || eqb c 47

plain_path :
    (path : Text)
    → All (λ c. is_plain c ≡ true) path
    → All (λ c. is_plain c ≡ true) (codes "/" ++ path)
plain_path path h = (refl, h)

under_slash :
    (path : Text)
    → starts_with (codes "/core/") (codes "/" ++ path) ≡ starts_with (codes "core/") path
unfolding starts_with
under_slash path = refl

module _ {R M W : Type 0} (api : DriverApi R M W) (strip : Text → Text) (edge_secret : Text)
    (worker_token : Text) (hmac : Hmac) where
  open api use {handles}

  -- What a request to a core says of the token, the instance and the client's address.
  pub record IsRouted (token : Text) (req : Incoming) (m : M) (id : InstanceId) (h : Handle R)
      (ip : Text) : Type 0 where
    pub made : token ≡ encode hmac id worker_token
    pub named : 0 < length id
    pub known : get id (handles m) ≡ some h
    pub address : origin_client_ip strip edge_secret req.headers req.peer ≡ ok ip
    pub outside : starts_with (codes "core/") req.path ≡ false

  -- What the public HTTP route sends to a core: the token is the one that the console makes with
  -- this worker's secret for the instance, the port is that instance's, the client's path does not
  -- begin with `core/`, the address in the headers is the one that the worker found, and the
  -- instance's own token goes with it. The path that is sent is what httpx makes of the client's;
  -- if httpx leaves a path of letters, digits, `-`, `_` and `/` as it is and the client's is one,
  -- then it is the client's, so what is sent is not under `core/`, where a core has its management.
  -- Of a path with dots nothing is said: httpx takes dot segments out behind the check.
  pub direct_http-IsRouted :
      (sent_path : Text → Text) (token : Text) (req : Incoming) (w : W) (m : M) (f : Forwarded)
      → ((path : Text) → All (λ c. is_plain c ≡ true) path → sent_path path ≡ path)
      → direct_http_proxy api strip edge_secret worker_token sent_path hmac token req w m ≡ ok f
      → (id : InstanceId) × (h : Handle R) × (ip : Text) × IsRouted token req m id h ip
        × (f ≡ record {
          port = h.port;
          path = sent_path (codes "/" ++ req.path);
          headers = forward_headers req.headers ip (some h.api_token);
          streamed = true;
        })
        × (All (λ c. is_plain c ≡ true) req.path
            → (f.path ≡ codes "/" ++ req.path) × (starts_with (codes "/core/") f.path ≡ false))
  unfolding direct_http_proxy forward_http token_of
  direct_http-IsRouted sent_path token req w m f kept returns =
      let (public, rest) =
        fail_if-eq-ok (not (is_public_client_path req.path)) (http 404) _ returns in
      let (id, decoded, forwards) = >>=-eq-ok _ _ rest in
      let (port, running, sends) = >>=-eq-ok _ _ forwards in
      let (ip, found, built) = >>=-eq-ok _ _ sends in
      let (h, here, same) = api.status-some id w m true port (port_of-ok _ port running) in
      let public' : is_public_client_path req.path ≡ true = ground (arith, public) in
      let token_is : token_of api strip edge_secret worker_token id m ≡ some h.api_token =
        rw (here, token_of) in
      let (made, named) = (decode_exact hmac token worker_token id).0 (or_raise-ok _ id decoded) in
      let is_sent : f ≡ record {
        port = h.port;
        path = sent_path (codes "/" ++ req.path);
        headers = forward_headers req.headers ip (some h.api_token);
        streamed = true;
      } =
        ground (arith, built, token_is, same, public') in
      (
        id,
        h,
        ip,
        record {
          made = made;
          named = named;
          known = here;
          address = found;
          outside = public_path req.path public';
        },
        is_sent,
        λ plain.
            let unchanged : f.path ≡ codes "/" ++ req.path =
              ap (λ (x : Forwarded). x.path) is_sent
              ∙ kept (codes "/" ++ req.path) (plain_path req.path plain) in
            (
              unchanged,
              ap (starts_with (codes "/core/")) unchanged
                  ∙ (under_slash req.path ∙ public_path req.path public'),
            ),
      )

  -- The headers that the websocket relay sets.
  abbrev pub ws_headers : Incoming → Text → Headers
  ws_headers req ip =
      ("user-agent", header_of "user-agent" req.headers)
      ∷ ("x-forwarded-for", ip)
      ∷ ("x-real-ip", ip)
      ∷ []

  relayed_ws-ok :
      (req : Incoming) (up : Upstream) (o : Outcome Report) (port : ℕ) (path : Text) (hs : Headers)
      (cs : List ℕ)
      → relayed_ws api strip edge_secret worker_token req up o ≡ ok (relayed port path hs cs)
      → (ip : Text) × (o ≡ done (some (true, port)))
        × (origin_client_ip strip edge_secret req.headers req.peer ≡ ok ip)
        × (path ≡ req.path)
        × (hs ≡ ws_headers req ip)
        × (cs ≡ closes up)
  unfolding relayed_ws
  relayed_ws-ok req up (done none) port path hs cs h = cc
  relayed_ws-ok req up (done (some (false, p))) port path hs cs h = cc
  relayed_ws-ok req up driver_error port path hs cs h = cc
  relayed_ws-ok req up other_error port path hs cs h = cc
  relayed_ws-ok req up (done (some (true, p))) port path hs cs h =
      let (ip, found, built) =
        >>=-eq-ok (origin_client_ip strip edge_secret req.headers req.peer)
          (λ (x : Text). ok (relayed p req.path (ws_headers req x) (closes up))) h in
      (
        ip,
        ground (arith, built),
        found,
        ground (arith, built),
        ground (arith, built),
        ground (arith, built),
      )

  -- The public websocket route relays under the same conditions: the token is the console's for
  -- the instance, the port that instance's, and the path is not under `core/`. The core gets the
  -- user agent and the address that the worker found and no other header, and the client's close
  -- follows the core's.
  pub direct_ws-IsRouted :
      (token : Text) (req : Incoming) (w : W) (up : Upstream) (m : M) (port : ℕ) (path : Text)
      (hs : Headers) (cs : List ℕ)
      → direct_ws_proxy api strip edge_secret worker_token hmac token req w up m
        ≡ ok (relayed port path hs cs)
      → (id : InstanceId) × (h : Handle R) × (ip : Text) × IsRouted token req m id h ip
        × (port ≡ h.port)
        × (path ≡ req.path)
        × (hs ≡ ws_headers req ip)
        × (cs ≡ closes up)
  unfolding direct_ws_proxy forward_ws
  direct_ws-IsRouted token req w up m port path hs cs returns =
      elim (Bool-cases (is_public_client_path req.path)) [
        | inr hidden ↦
            let no : ok (refused 1008) ≡ ok (relayed port path hs cs) = rw hidden at returns in cc
        | inl public ↦ elim (Option-cases (decode hmac token worker_token)) [
          | inl bad ↦
              let no : ok (refused 1008) ≡ ok (relayed port path hs cs) =
                rw bad at (rw public at returns) in
              cc
          | inr (id, decoded) ↦
              let (ip, running, found, e, e', e'') =
                relayed_ws-ok req up (api.status id w m) port path hs cs
                  (rw decoded at (rw public at returns)) in
              let (h, here, same) = api.status-some id w m true port running in
              let (made, named) = (decode_exact hmac token worker_token id).0 decoded in
              (
                id,
                h,
                ip,
                record {
                  made = made;
                  named = named;
                  known = here;
                  address = found;
                  outside = public_path req.path public;
                },
                sym same,
                e,
                e',
                e'',
              )
        ]
      ]
