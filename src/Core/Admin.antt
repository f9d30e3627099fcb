-- ===== src/Core/Admin.antt =====
-- The management API of core/voidz_core/app.py: links are created, patched and deleted by the
-- console. A handler that raises has changed nothing.
pub mod Updates
pub mod Lock
use Prim.Native.String.{count, find, len, ◌++◌ as ◌⧺◌}
use voidz.Prelude.{
  ℕ, ◌+◌, String, Bool, true, false, not, ◌&&◌, ◌||◌, List, [], ◌∷◌, Option, none, some, ◌++◌, take,
  drop, eqb, ltb, leb, contains, if◌then◌else◌, ◌==◌, string_eq, list_eq, nat_eq,
}
use voidz.Prelude.Texts.{first_chars, skip_chars}
use voidz.Prelude.Integers.{ℤ, at_least_zero}
use voidz.Prelude.Result.{Result, ok, raise, http, type_error, fail_if, or_raise, ◌>>=◌, ◌>>◌}
use voidz.Prelude.Dict
use voidz.Relay.Bytes.{Text, compare_digest}
use voidz.Core.Alpn.{Str, strip}
use voidz.Core.Link.{Link, construct}
use voidz.Core.Store
use voidz.Core.Store.{LinkStore}
use voidz.Core.Tracker.{Tracker, Kill, kick}
use voidz.Core.Debounce.{Saver, edit}

-- One core: `closed` are the callbacks that were called, in order.
pub record Core : Type 0 where
  pub links : LinkStore
  pub connections : Tracker
  pub saver : Saver
  pub closed : List Kill

-- The body of a creation, `none` for a key that is missing or null (`active` is not null). Its
-- numbers are not negative.
pub record Body : Type 0 where
  pub uuid : Option String
  pub label : Option Text
  pub protocol : Option String
  pub active : Option Bool
  pub limit_bytes : Option ℕ
  pub used_bytes : Option ℕ
  pub expires_at : Option String
  pub note : Option Text
  pub alpn : Option Text
  pub fingerprint : Option String
  pub ss_cipher : Option String
  pub ss_password : Option String
  pub max_devices : Option ℕ
  pub allowed_ips : Option (List String)

-- The body of a patch, `none` for a key that is missing; a number, a time or a list may be null.
pub record Patch : Type 0 where
  pub label : Option Text
  pub active : Option Bool
  pub note : Option Text
  pub reset_usage : Option Bool
  pub limit_bytes : Option (Option ℤ)
  pub expires_at : Option (Option String)
  pub max_devices : Option (Option ℤ)
  pub allowed_ips : Option (Option (List String))

abbrev pub protocols : List String
protocols =
    "vless-ws" ∷ "xhttp-packet-up" ∷ "xhttp-stream-up" ∷ "trojan-ws" ∷ "trojan-xhttp-packet-up"
    ∷ "trojan-xhttp-stream-up" ∷ "shadowsocks" ∷ []

abbrev pub default_protocol : String
default_protocol = "vless-ws"

-- `x or d` for a text that may be null
unfoldable pub given : String → Option String → String
given d none = d
given d (some x) = if x == "" then d else x

unfoldable pub given_text : Text → Option Text → Text
given_text d none = d
given_text d (some []) = d
given_text d (some (c ∷ cs)) = c ∷ cs

-- `x or 0`, `x or []`, and `body.get(key, d)`
unfoldable pub value_or {ℓ} : {A : Type ℓ} → A → Option A → A
value_or d none = d
value_or d (some x) = x

-- `uuid[a:a + n]`
unfoldable pub chars_at : String → ℕ → ℕ → String
chars_at uuid a n = first_chars n (skip_chars a uuid)

-- The dashes of a uuid that is given as 32 characters.
unfoldable pub canonical : String → String
canonical uuid =
    if eqb (count uuid) 32 && ltb (len uuid) (find uuid "-")
    then first_chars 8 uuid
      ⧺ ("-"
          ⧺ (chars_at uuid 8 4
              ⧺ ("-"
                  ⧺ (chars_at uuid 12 4
                      ⧺ ("-" ⧺ (chars_at uuid 16 4 ⧺ ("-" ⧺ chars_at uuid 20 12)))))))
    else uuid

-- "Link" and "h2,http/1.1"
abbrev pub link_label : Text
link_label = 76 ∷ 105 ∷ 110 ∷ 107 ∷ []

abbrev pub default_alpn : Text
default_alpn = 104 ∷ 50 ∷ 44 ∷ 104 ∷ 116 ∷ 116 ∷ 112 ∷ 47 ∷ 49 ∷ 46 ∷ 49 ∷ []

-- The cipher and the password of a shadowsocks link; `password` is `token_urlsafe(16)`.
unfoldable pub with_secret : String → Link → Link
with_secret password link =
    if link.protocol == "shadowsocks"
    then record link {
      ss_cipher = some (
          if contains ("aes-256-gcm" ∷ "chacha20-ietf-poly1305" ∷ []) (given "" link.ss_cipher)
          then given "" link.ss_cipher
          else "chacha20-ietf-poly1305");
      ss_password = some (given password link.ss_password);
    }
    else link

-- `token` is `token_hex(16)`.
unfoldable pub link_from_body : Str → String → String → String → Body → Result Link
link_from_body s now token password body =
    let protocol : String = given default_protocol body.protocol in
    do
      fail_if (not (contains protocols protocol)) (http 400)
      ok (
          with_secret password (
            construct s now (record {
              uuid = canonical (given token body.uuid);
              label = take 80 (given_text link_label body.label);
              protocol = protocol;
              active = value_or true body.active;
              limit_bytes = value_or 0 body.limit_bytes;
              used_bytes = value_or 0 body.used_bytes;
              created_at = "";
              expires_at = body.expires_at;
              note = take 300 (given_text [] body.note);
              alpn = take 60 (given_text default_alpn body.alpn);
              fingerprint = given "chrome" body.fingerprint;
              ss_cipher = body.ss_cipher;
              ss_password = body.ss_password;
              max_devices = value_or 0 body.max_devices;
              allowed_ips = value_or [] body.allowed_ips;
            })))

-- The fields of `_apply_link_patch`.
unfoldable pub patched : Patch → Link → Link
patched patch link = record link {
  label = elim patch.label [ none ↦ link.label | some text ↦ take 80 text ];
  active = value_or link.active patch.active;
  note = elim patch.note [ none ↦ link.note | some text ↦ take 300 text ];
  used_bytes = if value_or false patch.reset_usage then 0 else link.used_bytes;
  limit_bytes = elim patch.limit_bytes [ none ↦ link.limit_bytes | some n ↦ at_least_zero n ];
  expires_at = value_or link.expires_at patch.expires_at;
  max_devices = elim patch.max_devices [ none ↦ link.max_devices | some n ↦ at_least_zero n ];
  allowed_ips = elim patch.allowed_ips [ none ↦ link.allowed_ips | some ips ↦ value_or [] ips ];
}

-- The end of `_apply_link_patch`: a lock that is pushed closes the other connections.
unfoldable pub close_others : Option (List String) → Link → Core → Core
close_others none link core = core
close_others (some []) link core = core
close_others (some (ip ∷ ips)) link core =
    let (_, called, connections) = kick link.uuid (ip ∷ ips) core.connections in
    record core { connections = connections; closed = core.closed ++ called }

unfoldable pub enforce_lock : Patch → Link → Core → Core
enforce_lock patch link core = close_others (value_or none patch.allowed_ips) link core

-- `removeprefix("Bearer ")`
unfoldable pub without_bearer : Text → Text
without_bearer header =
    if take 7 header == 66 ∷ 101 ∷ 97 ∷ 114 ∷ 101 ∷ 114 ∷ 32 ∷ [] then drop 7 header else header

-- `expected` is the token of the configuration.
unfoldable pub require_api_token : Str → Text → Option Text → Result (Unit {0})
require_api_token s [] header = raise (http 503)
require_api_token s (c ∷ cs) header =
    let token = strip s (without_bearer (given_text [] header)) in
    if token == []
    then raise (http 401)
    else do same ← compare_digest token (c ∷ cs); fail_if (not same) (http 401)

-- The handlers behind the token: `_schedule_save` makes a task for the debounced save.
unfoldable pub core_links_create :
    Str → String → String → String → Body → Core → Result (String × Core)
core_links_create s now token password body core = do
  link ← link_from_body s now token password body
  ok (link.uuid, record core { links = Store.add link core.links; saver = edit core.saver })

-- The patch changes the link object in the store, which is a put under its key.
unfoldable pub core_links_update : String → Patch → Core → Result Core
core_links_update uuid patch core = do
  link ← or_raise (http 404) (Dict.get uuid core.links)
  ok (
      enforce_lock patch link (record core {
        links = Dict.put uuid (patched patch link) core.links;
        saver = edit core.saver;
      }))

unfoldable pub core_links_delete : String → Core → Result Core
core_links_delete uuid core = do
  _ ← or_raise (http 404) (Store.remove uuid core.links).0
  ok (record core { links = (Store.remove uuid core.links).1; saver = edit core.saver })
