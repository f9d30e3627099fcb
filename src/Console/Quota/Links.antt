-- ===== src/Console/Quota/Links.antt =====
-- A link that a patch has set in a core (console/api/voidz_console/services/quota.py with
-- core/voidz_core/app.py).
use voidz.Prelude.{◌≡◌, ◌∙◌, String, some, ◌==◌, ==_refl, string_eq, Bool-cases, inl, inr}
use voidz.Prelude.Result.{ok}
use voidz.Prelude.Dict
use voidz.Prelude.Dict.{get-put}
use voidz.Core.Link.{Link}
use voidz.Core.Admin.{Core, Patch, patched}
use voidz.Core.Admin.Updates.{core_links_update-links}
use voidz.Console.Fleet.Sweeps.{Keeps}
use voidz.Console.Quota.{Uuid5, link_uuid, patch_link}

-- The core has the link, with a property.
abbrev pub HasLink {κ} : (Link → Type κ) → String → Core → Type κ
HasLink Q uuid core = (link : Link) × (Dict.get uuid core.links ≡ some link) × Q link

-- A patch that sets the property of any link.
module _ {κ} (Q : Link → Type κ) (patch : Patch) (sets : (link : Link) → Q (patched patch link))
    (uuid5 : Uuid5) (cred_uuid : String) where
  pub patch-Keeps : (uuid : String) → Keeps (HasLink Q uuid) (patch_link uuid5 cred_uuid patch)
  patch-Keeps uuid proto core after e (link, there, holds) =
      let u = link_uuid uuid5 cred_uuid proto in
      let (old, found, links_after) = core_links_update-links u patch core after e in
      let looked = get-put u uuid (patched patch old) core.links in
      elim (Bool-cases (u == uuid)) [
        | inl same ↦ (patched patch old, rw links_after (looked ∙ rw same), sets old)
        | inr other ↦ (link, rw links_after (looked ∙ rw (other, there)), holds)
      ]

  pub patch-makes :
      (proto : String) (core after : Core)
      → patch_link uuid5 cred_uuid patch proto core ≡ ok after
      → HasLink Q (link_uuid uuid5 cred_uuid proto) after
  patch-makes proto core after e =
      let u = link_uuid uuid5 cred_uuid proto in
      let (old, found, links_after) = core_links_update-links u patch core after e in
      (
        patched patch old,
        rw links_after (get-put u u (patched patch old) core.links ∙ rw (==_refl u)),
        sets old,
      )
