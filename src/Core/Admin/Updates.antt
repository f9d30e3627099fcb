-- ===== src/Core/Admin/Updates.antt =====
-- What an update does to the store of a core (core/voidz_core/app.py).
use voidz.Prelude.{
  ◌≡◌, refl, ◌∙◌, sym, ap, String, [], ◌∷◌, List, Option, none, some, Option-cases, inl, inr,
  string_eq,
}
use voidz.Prelude.Result.{ok}
use voidz.Prelude.Dict
use voidz.Core.Link.{Link}
use voidz.Core.Debounce.{edit}
use voidz.Core.Admin.{value_or, Core, Patch, patched, close_others, enforce_lock, core_links_update}

close_others-links :
    (ips : Option (List String)) (link : Link) (core : Core)
    → (close_others ips link core).links ≡ core.links
unfolding close_others
close_others-links none link core = refl
close_others-links (some []) link core = refl
close_others-links (some (ip ∷ ips)) link core = refl

ok_inj : (a b : Core) → ok a ≡ ok b → a ≡ b
ok_inj a b e = cc

abbrev saved : Patch → Link → String → Core → Core
saved patch link uuid core = record core {
  links = Dict.put uuid (patched patch link) core.links;
  saver = edit core.saver;
}

-- An update that returns found a link and put the patched one in its place.
pub core_links_update-links :
    (uuid : String) (patch : Patch) (core after : Core)
    → core_links_update uuid patch core ≡ ok after
    → (link : Link) × (Dict.get uuid core.links ≡ some link)
      × (after.links ≡ Dict.put uuid (patched patch link) core.links)
unfolding core_links_update enforce_lock
core_links_update-links uuid patch core after e = elim (Option-cases (Dict.get uuid core.links)) [
  | inl absent ↦ (let no = rw (absent, core_links_update) at e in cc)
  | inr (link, there) ↦ (
    link,
    there,
    sym (
          ap (λ c. c.links)
            (ok_inj (enforce_lock patch link (saved patch link uuid core)) after
              (rw (there, core_links_update) at e)))
        ∙ close_others-links (value_or none patch.allowed_ips) link (saved patch link uuid core),
  )
]
