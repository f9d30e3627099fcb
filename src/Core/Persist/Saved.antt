-- ===== src/Core/Persist/Saved.antt =====
-- What a save leaves on the disk, and what a load finds there (core/voidz_core/state.py).
use voidz.Prelude.{
  ◌≡◌, ◌≢◌, ◌≤◌, refl, String, Bool, [], ◌∷◌, Option, none, some, map, All, length, string_eq,
  nat_eq, arith, if◌then◌else◌,
}
use voidz.Prelude.Result.{Result, ok, raise, Exn, ◌>>◌}
use voidz.Prelude.Dict
use voidz.Prelude.Dict.{Dict, Distinct, put_all, put_all_append}
use voidz.Relay.Bytes.{join}
use voidz.Core.Alpn.{Str, tokens}
use voidz.Core.Link.{Link, construct}
use voidz.Core.Link.Normal.{construct-construct}
use voidz.Core.Store
use voidz.Core.Store.{LinkStore}
use voidz.Core.Stats.{RuntimeStats, init}
use voidz.Core.Persist.{
  slots, Codec, Saving, is_os_error, Disk, or_zero, or_empty, payload, add_rows, load, write_tmp,
  replace_path, caught, then_call, save,
}

-- The calls of a save up to the first that raises.
abbrev pub attempt : {File : Type 0} → Saving File → Result (Unit {0})
attempt calls = calls.mkdir >> calls.write_text >> calls.replace

-- Each link under its uuid, and no two under one.
abbrev pub IsKeyed : LinkStore → Type 0
IsKeyed links = Distinct links × All (λ (e : String × Link). e.0 ≡ e.1.uuid) links

-- The links as `construct` makes them of their stored values at the time of the load.
unfoldable pub reloaded : Str → String → LinkStore → LinkStore
reloaded s now links = map (λ (e : String × Link). (e.0, construct s now e.1)) links

-- A link that `construct` has made, at some time, of an ALPN whose kept part is not cut.
abbrev pub IsMade : Str → Link → Type 0
IsMade s link =
    (made : String) × (args : Link) × (made ≢ "")
    × (length (join 44 (tokens s args.alpn)) ≤ 60)
    × (link ≡ construct s made args)

reloaded-made :
    (s : Str) (now : String) (links : LinkStore)
    → All (λ (e : String × Link). IsMade s e.1) links
    → reloaded s now links ≡ links
unfolding reloaded
reloaded-made s now [] h = refl
reloaded-made s now ((k, link) ∷ links) ((made, args, some_time, short, is), h) =
    let same : construct s now link ≡ link =
      rw is (construct-construct s made now args some_time short) in
    let rest = reloaded-made s now links h in rw (same, rest)

get-reloaded :
    (s : Str) (now k : String) (links : LinkStore)
    → Dict.get k links ≡ none
    → Dict.get k (reloaded s now links) ≡ none
unfolding reloaded Dict.get
get-reloaded s now k [] h = refl
get-reloaded s now k ((j, link) ∷ links) h = ground (arith, h, get-reloaded s now k links)

reloaded-Distinct :
    (s : Str) (now : String) (links : LinkStore) → Distinct links → Distinct (reloaded s now links)
unfolding reloaded
reloaded-Distinct s now [] u = tt
reloaded-Distinct s now ((k, link) ∷ links) u =
    (get-reloaded s now k links u.0, reloaded-Distinct s now links u.1)

add_rows-put_all :
    (s : Str) (now : String) (links acc : LinkStore)
    → All (λ (e : String × Link). e.0 ≡ e.1.uuid) links
    → add_rows s now (map (λ (e : String × Link). slots e.1) links) acc
      ≡ put_all acc (reloaded s now links)
unfolding add_rows put_all Store.add reloaded construct
add_rows-put_all s now [] acc h = refl
add_rows-put_all s now ((k, link) ∷ links) acc (named, h) =
    rw named (add_rows-put_all s now links (Dict.put link.uuid (construct s now link) acc) h)

-- What a save has done, given what its calls come to together.
abbrev IsAtomic :
    (c : Codec)
    → Result (Unit {0})
    → c.File
    → Disk c.File
    → Result (Unit {0}) × Disk c.File
    → Type 0
IsAtomic c tried text disk after =
    (tried ≡ ok tt → (after.0 ≡ ok tt) × (after.1.path ≡ some text))
    × ((e : Exn)
        → tried ≡ raise e
        → (after.0 ≡ (if is_os_error e then ok tt else raise e)) × (after.1.path ≡ disk.path))

raised :
    (c : Codec) (e : Exn) (text : c.File) (disk disk' : Disk c.File)
    → disk'.path ≡ disk.path
    → IsAtomic c (raise e) text disk (caught c (raise e, disk'))
unfolding caught
raised c e text disk disk' kept = (λ no. cc, λ e' is. let same : e ≡ e' = cc in (rw same, kept))

save-IsAtomic :
    (c : Codec) (m w r : Result (Unit {0})) (left : Option c.File) (text : c.File)
    (disk : Disk c.File)
    → IsAtomic c (m >> w >> r) text disk (
        caught c (then_call c (then_call c (m, disk) (write_tmp c w left text)) (replace_path c r)))
unfolding write_tmp replace_path
save-IsAtomic c (raise e) w r left text disk = raised c e text disk disk refl
save-IsAtomic c (ok u) (raise e) r left text disk =
    raised c e text disk (record disk { tmp = left }) refl
save-IsAtomic c (ok u) (ok v) (raise e) left text disk =
    raised c e text disk (record disk { tmp = some text }) refl
save-IsAtomic c (ok u) (ok v) (ok tt) left text disk =
    unfold caught in (λ _. (refl, refl), λ e no. cc)

-- Whatever each call of a save comes to. If none raises, the save returns and the state file holds
-- the whole new state. If one raises, the state file is as it was; the save returns if the
-- exception is an OSError, and raises it if it is another one.
pub save_atomic :
    (c : Codec) (calls : Saving c.File) (saved_at : String) (links : LinkStore)
    (stats : RuntimeStats) (disk : Disk c.File)
    → (attempt calls ≡ ok tt
        → ((save c calls saved_at links stats disk).0 ≡ ok tt)
          × ((save c calls saved_at links stats disk).1.path
              ≡ some (c.dumps (payload saved_at links stats))))
      × ((e : Exn)
          → attempt calls ≡ raise e
          → ((save c calls saved_at links stats disk).0
              ≡ (if is_os_error e then ok tt else raise e))
            × ((save c calls saved_at links stats disk).1.path ≡ disk.path))
save_atomic c calls saved_at links stats disk =
    unfold save in
    save-IsAtomic c calls.mkdir calls.write_text calls.replace calls.left
      (c.dumps (payload saved_at links stats)) disk

-- The links stand each under its own uuid, and the hours of the counts are distinct. A core that
-- starts on the state that a save has written, in which no call raised, has each link as
-- `construct` makes it of its stored values, under its uuid, with the total and the hourly counts
-- of the state. If `construct` had made each stored link of an ALPN whose kept part has at most 60
-- characters, these are the links as they were.
pub load-save :
    (c : Codec) (s : Str) (now saved_at : String) (renamed : Bool) (calls : Saving c.File)
    (links : LinkStore) (stats : RuntimeStats) (disk : Disk c.File)
    → IsKeyed links
    → Distinct stats.hourly
    → attempt calls ≡ ok tt
    → (load c s now renamed (save c calls saved_at links stats disk).1 [] init ≡ (
      (save c calls saved_at links stats disk).1,
      reloaded s now links,
      record init { total_bytes = stats.total_bytes; hourly = stats.hourly },
    ))
      × (All (λ (e : String × Link). IsMade s e.1) links → reloaded s now links ≡ links)
unfolding load payload or_zero or_empty
load-save c s now saved_at renamed calls links stats disk (distinct, named) hours whole =
    let (_, there) = (save_atomic c calls saved_at links stats disk).0 whole in
    (
      rw (
        load,
        there,
        c.loads-dumps (payload saved_at links stats),
        add_rows-put_all s now links [] named,
        put_all_append [] (reloaded s now links) (reloaded-Distinct s now links distinct),
        put_all_append [] stats.hourly hours,
      ),
      reloaded-made s now links,
    )
