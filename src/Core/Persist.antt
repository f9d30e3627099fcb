-- ===== src/Core/Persist.antt =====
-- `StateStore.load` and `StateStore.save` of core/voidz_core/state.py. The JSON library, the clock
-- and what the file system does are arguments.
pub mod Saved
use voidz.Prelude.{
  ℕ, ◌≡◌, String, Bool, true, false, List, [], ◌∷◌, Option, none, some, map, string_eq, nat_eq,
  if◌then◌else◌,
}
use voidz.Prelude.Result.{Result, ok, raise, Exn, os_error, permission_error, connection_error}
use voidz.Prelude.Dict
use voidz.Prelude.Dict.{Dict, put_all}
use voidz.Core.Alpn.{Str}
use voidz.Core.Link.{Link, construct}
use voidz.Core.Store
use voidz.Core.Store.{LinkStore}
use voidz.Core.Stats.{RuntimeStats}

-- An entry of `links`: a value for every slot, or keys that are no parameters of `Link`.
pub data Row : Type 0 where
  slots : Link → Row
  misfit : Row

-- The document, with `none` for a key that is missing.
pub record Doc : Type 0 where
  pub version : ℕ
  pub saved_at : String
  pub total_bytes : Option ℕ
  pub hourly : Option (Dict ℕ ℕ)
  pub links : Option (List Row)

-- `json.dumps` and `json.loads`, which raises on a text that is no document.
pub record Codec : Type 1 where
  pub File : Type 0
  pub dumps : Doc → File
  pub loads : File → Option Doc
  pub loads-dumps : (doc : Doc) → loads (dumps doc) ≡ some doc

-- What the three calls of a save come to. `left` is what stands in the temporary file if the
-- second one, which makes the text and writes it, does not come to its end. That the process dies
-- in a call is an exception there that nothing catches.
pub record Saving (File : Type 0) : Type 0 where
  pub mkdir : Result (Unit {0})
  pub write_text : Result (Unit {0})
  pub left : Option File
  pub replace : Result (Unit {0})

-- `except OSError`
unfoldable pub is_os_error : Exn → Bool
is_os_error os_error = true
is_os_error permission_error = true
is_os_error connection_error = true
is_os_error e = false

-- The state file, and the names with the suffixes `.tmp` and `.corrupt`.
pub record Disk (File : Type 0) : Type 0 where
  pub path : Option File
  pub tmp : Option File
  pub backup : Option File

unfoldable pub or_zero : Option ℕ → ℕ
or_zero none = 0
or_zero (some n) = n

unfoldable pub or_empty {ℓ} : {A : Type ℓ} → Option (List A) → List A
or_empty none = []
or_empty (some xs) = xs

unfoldable pub payload : String → LinkStore → RuntimeStats → Doc
payload saved_at links stats = record {
  version = 1;
  saved_at = saved_at;
  total_bytes = some stats.total_bytes;
  hourly = some stats.hourly;
  links = some (map (λ (e : String × Link). slots e.1) links);
}

-- The loop over the rows.
unfoldable pub add_rows : Str → String → List Row → LinkStore → LinkStore
add_rows s now [] links = links
add_rows s now (slots args ∷ rows) links =
    add_rows s now rows (Store.add (construct s now args) links)
add_rows s now (misfit ∷ rows) links = add_rows s now rows links

module _ (c : Codec) where
  open c use {File, dumps, loads}

  -- `renamed` tells whether the corrupt file can be moved aside.
  unfoldable pub load :
      Str
      → String
      → Bool
      → Disk File
      → LinkStore
      → RuntimeStats
      → Disk File × LinkStore × RuntimeStats
  load s now renamed disk links stats = elim disk.path [
    | none ↦ (disk, links, stats)
    | some file ↦ elim (loads file) [
      | none ↦ (
        (if renamed then record disk { path = none; backup = some file } else disk),
        links,
        stats,
      )
      | some doc ↦ (
        disk,
        add_rows s now (or_empty doc.links) links,
        record stats {
          total_bytes = or_zero doc.total_bytes;
          hourly = put_all stats.hourly (or_empty doc.hourly);
        },
      )
    ]
  ]

  -- What a call returns or raises, with the disk behind it.
  abbrev pub Call : Type 0
  Call = Result (Unit {0}) × Disk File

  -- What follows a call that raised nothing.
  abbrev pub then_call : Call → (Disk File → Call) → Call
  then_call (raise e, disk) next = (raise e, disk)
  then_call (ok u, disk) next = next disk

  -- `tmp.write_text(text)`
  unfoldable pub write_tmp : Result (Unit {0}) → Option File → File → Disk File → Call
  write_tmp (raise e) left text disk = (raise e, record disk { tmp = left })
  write_tmp (ok u) left text disk = (ok tt, record disk { tmp = some text })

  -- `os.replace(tmp, self.path)`, which needs a temporary file
  unfoldable pub replace_path : Result (Unit {0}) → Disk File → Call
  replace_path (raise e) disk = (raise e, disk)
  replace_path (ok u) disk = elim disk.tmp [
    | none ↦ (raise os_error, disk)
    | some text ↦ (ok tt, record disk { path = some text; tmp = none })
  ]

  -- The handler of an `OSError`, which only logs.
  unfoldable pub caught : Call → Call
  caught (ok u, disk) = (ok tt, disk)
  caught (raise e, disk) = (if is_os_error e then ok tt else raise e, disk)

  unfoldable pub save : Saving File → String → LinkStore → RuntimeStats → Disk File → Call
  unfolding write_tmp replace_path caught
  save calls saved_at links stats disk = caught (
      then_call
        (then_call (calls.mkdir, disk)
          (write_tmp calls.write_text calls.left (dumps (payload saved_at links stats))))
        (replace_path calls.replace))
