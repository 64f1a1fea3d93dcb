-- ===== src/Tests/Mounts.antt =====
-- A mount that is made call by call, and the theorems on whole requests and sequences of calls there.
use mathlib.Core.Option.{none-ne-some, some-injective}
use usvfs_fuse.Base.{
  Bool, pos, true, false, some, List, [], ◌∷◌, Bytes, bytes, ◌≡◌, refl, sym, ap, arith, components,
  same, find_slash, find_slash_from, inr, less, find_last_slash,
}
use usvfs_fuse.Utils.{is_ascii, to_lower, lower_byte, get_parent_path, get_file_name_from_path}
use usvfs_fuse.Utils.Case.{IsAscii}
use usvfs_fuse.Tree.Item.{
  Item, ItemType, Info, item, nil, file, dir, lookup, insert, create, walk, file_path,
}
use usvfs_fuse.Tree.View.{view}
use usvfs_fuse.Tree.Find.{find, find_internal, strip_slash}
use usvfs_fuse.Tree.Add.{add, add_internal, add_name, strip_both}
use usvfs_fuse.Tree.Erase.{erase_internal}
use usvfs_fuse.Tree.Add.Walk.{IsClean, lower_name, add_names}
use usvfs_fuse.Tree.Find.Walk.{seek}
use usvfs_fuse.Tree.Erase.Walk.{erase_keys}
use usvfs_fuse.Tree.Sound.{IsSound, Fits}
use usvfs_fuse.Tree.Sound.Kept.{add-AddsSound}
use usvfs_fuse.Tree.Path.{find-file_path}
use usvfs_fuse.Tree.Fuel.{enough_fuel}
use usvfs_fuse.Tree.Store.{Op, add_item, erase_item, find_path, serve, replay}
use usvfs_fuse.Tree.Store.Refines.{serve_refines}
use usvfs_fuse.Kernel.{Call}
use usvfs_fuse.Mount.{FileInfo, Context, returns}
use usvfs_fuse.Fuse.Request.{mkdir, rmdir, handle}
use usvfs_fuse.Fuse.Entry.Unlink.{at_mount}
use usvfs_fuse.Fuse.Dir.{make_dir, usvfs_mkdir}
use usvfs_fuse.Fuse.Entry.{create_file, create_in, keeping, usvfs_create}
use usvfs_fuse.Fuse.{real_parent_path, parent_fd}
use usvfs_fuse.FdMap.{fd_at, map_find}
use usvfs_fuse.Fuse.Made.{IsFoundIn}
use usvfs_fuse.Fuse.Made.Create.{create_found}
use usvfs_fuse.Fuse.Made.Mkdir.{mkdir_found}
use usvfs_fuse.Fuse.Safety.{IsSoundMount}
use usvfs_fuse.Fuse.Safety.Requests.{
  IsSafeAnswer, Reaches, start, handled, elsewhere, handle-IsSafeAnswer, Reaches-IsSoundMount,
}
use usvfs_fuse.Tests.Data.{
  ascii_icu, info, tree, item_x, tree-IsOrdered, mounted, able, byte-ne-nil,
}
use usvfs_fuse.Tests.Handlers.{able-IsPosix}

abbrev path_a : Bytes
path_a = bytes "/A"

abbrev path_s : Bytes
path_s = bytes "/S"

abbrev name_s : Bytes
name_s = bytes "S/New"

abbrev path_x : Bytes
path_x = bytes "/S/X.txt"

abbrev path_new : Bytes
path_new = bytes "/S/New"

plain_a : IsAscii path_a × IsClean (strip_slash path_a)
unfolding is_ascii components
plain_a = (refl, (byte-ne-nil _ _, tt))

plain_s : IsAscii path_s × IsClean (strip_slash path_s)
unfolding is_ascii components
plain_s = (refl, (byte-ne-nil _ _, tt))

plain_x : IsAscii path_x × IsClean (strip_slash path_x)
unfolding is_ascii components
plain_x = (refl, (byte-ne-nil _ _, (byte-ne-nil _ _, tt)))

plain_new : IsAscii path_new × IsClean (strip_slash path_new)
unfolding is_ascii components
plain_new = (refl, (byte-ne-nil _ _, (byte-ne-nil _ _, tt)))

abbrev bare : Item
bare = item (info (bytes "/") (bytes "/data") dir) nil

bare-IsSound : IsSound bare
unfolding view lookup
bare-IsSound = record { ordered = (tt, tt); fits = fits }
  where
    fits : (ks : List Bytes) (i : Info) → view bare ks ≡ some i → Fits ks i
    fits [] i h = sym (ap (λ (j : Info). j.type) (some-injective _ i h))
    fits (k ∷ ks) i h = absurd (none-ne-some i h)

-- The tree of the tests is made by three calls of `add`.
pub tree-IsSound : IsSound tree
unfolding add add_internal add_name strip_both find_slash find_slash_from to_lower is_ascii
    lower_byte lookup insert create same less
tree-IsSound =
    add-AddsSound ascii_icu _ path_x (bytes "/mods/S/X.txt") file false plain_x.0 plain_x.1
      (byte-ne-nil _ _)
      (add-AddsSound ascii_icu _ path_s (bytes "/mods/S") dir false plain_s.0 plain_s.1
        (byte-ne-nil _ _)
        (add-AddsSound ascii_icu bare path_a (bytes "/data/A") file false plain_a.0 plain_a.1
          (byte-ne-nil _ _) bare-IsSound))

abbrev keys_x : List Bytes
keys_x = bytes "s" ∷ bytes "x.txt" ∷ []

find-file_path_example :
    find ascii_icu tree (file_path tree keys_x) false
    ≡ some (record { keys = keys_x; target = item_x })
unfolding walk lookup same
find-file_path_example = find-file_path ascii_icu tree item_x keys_x false tree-IsSound refl refl

enough_fuel_example :
    ((t : Item) (d : Bool) → find_internal 9 t name_s d ≡ seek t (components name_s) d)
    × ((t : Item) (r : Bool) → erase_internal 9 t name_s r ≡ erase_keys t (components name_s) r)
    × ((t : Item) (real : Bytes) (k : ItemType) (upd : Bool)
        → IsClean name_s
        → add_internal 9 t name_s (lower_name name_s) real k upd
          ≡ add_names t (components name_s) real k upd)
enough_fuel_example = enough_fuel 9 name_s (omega arith)

-- A new file, its directory erased, and a search for it.
abbrev calls : List Op
calls =
    add_item path_new (bytes "/mods/New") file false
    ∷ erase_item path_s true
    ∷ find_path path_new true
    ∷ []

serve_refines_example :
    ((serve ascii_icu calls tree).0 ≡ (replay calls (view tree)).0)
    × (view (serve ascii_icu calls tree).1 ≡ (replay calls (view tree)).1)
serve_refines_example =
    serve_refines ascii_icu calls tree
      ((plain_new.0, plain_new.1, byte-ne-nil _ _), (plain_s, (plain_new, tt))) tree-IsOrdered

abbrev World : Type 0
World = List Call

abbrev context : Context World
context = at_mount (mounted tree) []

handle-IsSafeAnswer_example : IsSafeAnswer (handle ascii_icu able (mkdir path_new 493) context)
handle-IsSafeAnswer_example =
    handle-IsSafeAnswer ascii_icu able (mkdir path_new 493) context (inr plain_new) tt tree-IsSound

abbrev made : Context World
made = (handle ascii_icu able (mkdir path_new 493) context).1

abbrev emptied : Context World
emptied = (handle ascii_icu able (rmdir path_s) (record made { world = [] })).1

emptied-Reaches : Reaches ascii_icu able context emptied
emptied-Reaches =
    handled (rmdir path_s) (elsewhere [] (handled (mkdir path_new 493) start (inr plain_new)))
      (inr plain_s)

Reaches-IsSoundMount_example : IsSoundMount emptied.mount
Reaches-IsSoundMount_example =
    Reaches-IsSoundMount ascii_icu able context emptied tree-IsSound emptied-Reaches

abbrev new_file : FileInfo
new_file = record { fh = 0; flags = 2 }

created : (usvfs_create ascii_icu able path_new 420 new_file context).status ≡ returns (pos 0)
unfolding usvfs_create create_in create_file keeping parent_fd fd_at map_find find find_internal
    find_slash find_slash_from to_lower is_ascii lower_byte lookup same add add_internal add_name
    strip_both create get_parent_path get_file_name_from_path find_last_slash insert
created = refl

create_found_example :
    IsFoundIn ascii_icu path_new
      (usvfs_create ascii_icu able path_new 420 new_file context).context.mount
create_found_example =
    create_found ascii_icu able able-IsPosix path_new 420 new_file context plain_new.0 plain_new.1
      created

done_made : (usvfs_mkdir ascii_icu able path_new 493 context).status ≡ returns (pos 0)
unfolding usvfs_mkdir make_dir real_parent_path parent_fd fd_at map_find find find_internal
    find_slash find_slash_from to_lower is_ascii lower_byte lookup same add add_internal add_name
    strip_both create get_parent_path get_file_name_from_path find_last_slash insert
done_made = refl

mkdir_found_example :
    IsFoundIn ascii_icu path_new (usvfs_mkdir ascii_icu able path_new 493 context).context.mount
mkdir_found_example =
    mkdir_found ascii_icu able able-IsPosix path_new 493 context plain_new.0 plain_new.1 done_made
