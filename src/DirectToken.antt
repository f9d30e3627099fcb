-- ===== src/DirectToken.antt =====
-- The endpoint token of worker/voidz_worker/direct_token.py and
-- console/api/voidz_console/security/direct_token.py, which have the same code. Texts are lists
-- of code points.
pub mod RoundTrip
use voidz.Prelude.{
  ℕ, ◌-◌, ◌≡◌, Bool, List, ◌++◌, Option, none, some, length, take, drop, leb, ◌==◌, if◌then◌else◌,
  nat_eq, list_eq,
}

abbrev pub Text : Type 0
Text = List ℕ

-- `hmac.new(key, msg, sha256).hexdigest()` of the standard library: 64 digits.
pub record Hmac : Type 0 where
  pub hexdigest : Text → Text → Text
  pub length-hexdigest : (key msg : Text) → length (hexdigest key msg) ≡ 64

abbrev pub tag_len : ℕ
tag_len = 24

module _ (hmac : Hmac) where
  -- `hexdigest()[:_TAG_LEN]`
  unfoldable pub tag_of : Text → Text → Text
  tag_of instance_id worker_token = take tag_len (hmac.hexdigest worker_token instance_id)

  unfoldable pub encode : Text → Text → Text
  encode instance_id worker_token = instance_id ++ tag_of instance_id worker_token

  -- `none` is any end without an id: the function returns None, or `compare_digest` raises TypeError
  -- on a tag that is not ASCII.
  unfoldable pub decode : Text → Text → Option Text
  decode token worker_token =
      let instance_id = take (length token - tag_len) token in
      let tag = drop (length token - tag_len) token in
      if leb (length token) tag_len
      then none
      else if tag == tag_of instance_id worker_token
      then some instance_id
      else none
