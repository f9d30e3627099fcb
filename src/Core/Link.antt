-- ===== src/Core/Link.antt =====
-- `Link` of core/voidz_core/state.py: a credential with its policy.
pub mod Normal
use voidz.Prelude.{
  ℕ, String, Bool, false, not, ◌&&◌, ◌||◌, List, [], ◌∷◌, take, contains, Option, none, some, ltb,
  leb, if◌then◌else◌, ◌==◌, string_eq,
}
use voidz.Relay.Bytes.{Text}
use voidz.Core.Alpn.{Str, alpn_of}

pub record Link : Type 0 where
  pub uuid : String
  pub label : Text
  pub protocol : String
  pub active : Bool
  pub limit_bytes : ℕ
  pub used_bytes : ℕ
  pub created_at : String
  pub expires_at : Option String
  pub note : Text
  pub alpn : Text
  pub fingerprint : String
  pub ss_cipher : Option String
  pub ss_password : Option String
  pub max_devices : ℕ
  pub allowed_ips : List String

unfoldable pub fingerprint_of : String → String
fingerprint_of f = if contains ("chrome" ∷ "firefox" ∷ "ios" ∷ []) f then f else "chrome"

-- `created_at or _utcnow().isoformat()`
unfoldable pub created_of : String → String → String
created_of now created_at = if created_at == "" then now else created_at

-- `Link(**data)` with a value for every argument: `now` is the text of the time. The numbers are
-- not negative.
unfoldable pub construct : Str → String → Link → Link
construct s now args = record args {
  label = take 80 args.label;
  created_at = created_of now args.created_at;
  note = take 300 args.note;
  alpn = alpn_of s args.alpn;
  fingerprint = fingerprint_of args.fingerprint;
}

-- The time: `_utcnow()`, and `datetime.fromisoformat` with its comparison, which is `none` on a
-- text that does not parse or does not compare.
pub record Time : Type 0 where
  pub now : ℕ
  pub fromisoformat : String → Option ℕ

module _ (t : Time) where
  unfoldable pub is_expired : Link → Bool
  is_expired link = elim link.expires_at [
    | none ↦ false
    | some text ↦
        if text == ""
        then false
        else elim (t.fromisoformat text) [ none ↦ false | some moment ↦ ltb moment t.now ]
  ]

  unfoldable pub is_allowed : Link → Bool
  is_allowed link =
      if not link.active || is_expired link
      then false
      else not (ltb 0 link.limit_bytes && leb link.limit_bytes link.used_bytes)
