-- ===== src/Tests/Handlers.antt =====
-- The theorems on the handlers at a concrete mount.
use usvfs_fuse.Base.{
  ℕ, pos, neg, true, false, none, some, [], ◌∷◌, Bytes, bytes, ◌≡◌, refl, components, same,
  find_slash, find_slash_from, is_negative, eexist, ◌≢◌, find_last_slash,
}
use usvfs_fuse.Utils.{is_ascii, to_lower, get_parent_path, get_file_name_from_path, lower_byte}
use usvfs_fuse.Utils.Case.{IsAscii}
use usvfs_fuse.Tree.Item.{Item, item, nil, entry, file, lookup, info_of, set_deleted}
use usvfs_fuse.Tree.View.{view, leads_to}
use usvfs_fuse.Tree.Order.{IsOrdered}
use usvfs_fuse.Tree.Find.{Found, find, find_internal, strip_slash}
use usvfs_fuse.Tree.Find.Seen.{keys_of}
use usvfs_fuse.Tree.Add.Walk.{IsClean}
use usvfs_fuse.Tree.Add.Effect.{Updates}
use usvfs_fuse.Tree.Erase.Effect.{Erases, gone}
use usvfs_fuse.Kernel.{IsPosix, done-ne-fail}
use usvfs_fuse.Mount.{ended}
use usvfs_fuse.Fuse.{real_parent_path}
use usvfs_fuse.Fuse.Entry.{usvfs_unlink, usvfs_rename, is_found}
use usvfs_fuse.Fuse.Entry.Unlink.{at_mount, unlink_call, unlink_effect}
use usvfs_fuse.Fuse.Entry.Rename.{after_lookups, rename_call}
use usvfs_fuse.Fuse.Entry.Move.{Moved, parent_keys_of, rename_overwrite, rename_moves}
use usvfs_fuse.Fuse.Dir.{usvfs_mkdir, usvfs_rmdir, usvfs_readdir, list_children}
use usvfs_fuse.Fuse.Dir.Effect.{rmdir_call, rmdir_effect, mkdir_deleted}
use usvfs_fuse.Fuse.Dir.Listing.{child_names, roomy, readdir_all}
use usvfs_fuse.Tests.Data.{
  ascii_icu, info, tree, tree-IsOrdered, item_a, item_s, found_root, found_a, found_s, mounted,
  able, byte-ne-nil,
}

abbrev path_a : Bytes
path_a = bytes "/A"

abbrev path_s : Bytes
path_s = bytes "/S"

abbrev path_b : Bytes
path_b = bytes "/S/B"

IsAscii-a : IsAscii path_a
unfolding is_ascii
IsAscii-a = refl

IsAscii-s : IsAscii path_s
unfolding is_ascii
IsAscii-s = refl

IsAscii-b : IsAscii path_b
unfolding is_ascii
IsAscii-b = refl

IsClean-s : IsClean (strip_slash path_s)
unfolding components
IsClean-s = (byte-ne-nil _ _, tt)

IsClean-b : IsClean (strip_slash path_b)
unfolding components
IsClean-b = (byte-ne-nil _ _, (byte-ne-nil _ _, tt))

not_root : (c : ℕ) (s : Bytes) → (b'/' ∷ c ∷ s) ≢ bytes "/"
not_root c s e = cc

find_a : find ascii_icu tree path_a false ≡ some found_a
unfolding find find_internal find_slash find_slash_from to_lower is_ascii lower_byte lookup same
find_a = refl

find_s : find ascii_icu tree path_s false ≡ some found_s
unfolding find find_internal find_slash find_slash_from to_lower is_ascii lower_byte lookup same
find_s = refl

find_parent : find ascii_icu tree (get_parent_path path_b) false ≡ some found_s
unfolding find find_internal find_slash find_slash_from to_lower is_ascii lower_byte lookup same
    get_parent_path find_last_slash
find_parent = refl

unlink_effect_example :
    (t : Item) × (usvfs_unlink ascii_icu able path_a (at_mount (mounted tree) [])
      ≡ ended
          (pos 0)
          (mounted t)
          (able.run (unlink_call ascii_icu able path_a (mounted tree) [] found_a) []).1)
    × Erases tree (keys_of path_a) false t
    × (find ascii_icu t path_a false ≡ none)
    × IsOrdered t
unlink_effect_example =
    unlink_effect ascii_icu able path_a (mounted tree) [] found_a 5 [] IsAscii-a (byte-ne-nil _ _)
      (not_root _ _) tree-IsOrdered refl find_a refl

root_there : view tree (parent_keys_of path_s) ≡ some (info_of tree)
unfolding components view
root_there = refl

parent_there : view tree (parent_keys_of path_b) ≡ some (info_of item_s)
unfolding components view lookup same lower_byte
parent_there = refl

s_there : view tree (keys_of path_s) ≡ some (info_of item_s)
unfolding components view lookup same lower_byte
s_there = refl

b_free : view tree (keys_of path_b) ≡ none
unfolding components view lookup same lower_byte
b_free = refl

b_not_found : is_found (find ascii_icu tree path_b false) ≡ false
unfolding find find_internal find_slash find_slash_from to_lower is_ascii lower_byte lookup same
b_not_found = refl

a_apart_b : leads_to (keys_of path_a) (keys_of path_b) ≡ false
unfolding components same lower_byte leads_to
a_apart_b = refl

find_root_s : find ascii_icu tree (get_parent_path path_s) false ≡ some found_root
unfolding find find_internal find_slash find_slash_from to_lower is_ascii lower_byte lookup same
    get_parent_path find_last_slash
find_root_s = refl

rename_overwrite_example :
    usvfs_rename ascii_icu able path_a path_s 0 (at_mount (mounted tree) [])
    ≡ ended
        (neg eexist)
        (after_lookups ascii_icu able path_a path_s 0 (mounted tree) [] found_a found_root)
        (rename_call ascii_icu able path_a path_s 0 (mounted tree) [] found_a found_root ∷ [])
rename_overwrite_example =
    rename_overwrite ascii_icu able path_a path_s 0 (mounted tree) [] found_a found_root 5 []
      (info_of tree) find_a find_root_s refl IsAscii-s IsClean-s root_there (info_of item_s) s_there
      refl refl

-- The directory's path is doubled in the recorded real path.
rename_moves_example :
    (t' : Item) × (usvfs_rename ascii_icu able path_a path_b 0 (at_mount (mounted tree) [])
      ≡ ended
          (pos 0)
          (record (after_lookups ascii_icu able path_a path_b 0 (mounted tree) [] found_a found_s) {
            file_tree = t';
          })
          (rename_call ascii_icu able path_a path_b 0 (mounted tree) [] found_a found_s ∷ []))
    × Moved tree (keys_of path_b) (keys_of path_a) (info (bytes "B") (bytes "/mods/S/S/B") file) t'
unfolding real_parent_path components
rename_moves_example =
    rename_moves ascii_icu able path_a path_b 0 (mounted tree) [] found_a found_s 5 []
      (info_of item_s) find_a find_parent refl IsAscii-b IsClean-b parent_there IsAscii-a
      (byte-ne-nil _ _) (not_root _ _) tree-IsOrdered refl b_free b_not_found a_apart_b

rmdir_effect_example :
    (t : Item) × (usvfs_rmdir ascii_icu able path_s (at_mount (mounted tree) [])
      ≡ ended
          (pos 0)
          (mounted t)
          (able.run (rmdir_call ascii_icu able path_s (mounted tree) [] found_s) []).1)
    × Updates tree (keys_of path_s) (gone (info_of item_s)) t
rmdir_effect_example =
    rmdir_effect ascii_icu able path_s (mounted tree) [] found_s 5 [] IsAscii-s (byte-ne-nil _ _)
      (not_root _ _) refl find_s refl refl

-- The tree with "A" deleted.
abbrev without_a : Item
without_a =
    item (info_of tree) (entry (bytes "a") (set_deleted true item_a) (entry (bytes "s") item_s nil))

abbrev found_gone : Found
found_gone = record { keys = bytes "a" ∷ []; target = set_deleted true item_a }

find_gone : find ascii_icu without_a path_a true ≡ some found_gone
unfolding find find_internal find_slash find_slash_from to_lower is_ascii lower_byte lookup same
find_gone = refl

named_a : get_file_name_from_path path_a ≢ []
unfolding get_file_name_from_path find_last_slash
named_a = byte-ne-nil _ _

mkdir_deleted_example :
    (t : Item) × (usvfs_mkdir ascii_icu able path_a 493 (at_mount (mounted without_a) [])
      ≡ ended (pos 0) (mounted t) [])
    × Updates without_a (keys_of path_a) (info (bytes "A") (bytes "/data/A") file) t
unfolding get_file_name_from_path find_last_slash
mkdir_deleted_example =
    mkdir_deleted ascii_icu able path_a (mounted without_a) [] found_gone 493 IsAscii-a
      (byte-ne-nil _ _) (not_root _ _) named_a refl find_gone refl

pub able-IsPosix : IsPosix able
able-IsPosix = record { errno_pos = λ call calls e h. absurd (done-ne-fail 5 e [] h) }

pub find_root_here : find ascii_icu tree (bytes "/") false ≡ some found_root
unfolding find find_internal find_slash find_slash_from to_lower is_ascii lower_byte lookup same
find_root_here = refl

readdir_all_example :
    (usvfs_readdir ascii_icu able
      (bytes "/")
      roomy
      0
      (record { mount = some (mounted tree); world = [] })).1
    ≡ bytes "." ∷ bytes ".." ∷ bytes "A" ∷ bytes "S" ∷ []
unfolding child_names usvfs_readdir list_children find find_internal find_slash find_slash_from
    to_lower is_ascii lower_byte lookup same
readdir_all_example =
    readdir_all ascii_icu able able-IsPosix (mounted tree) (bytes "/") 0 [] found_root
      find_root_here listed
  where
    listed :
        is_negative
          (usvfs_readdir ascii_icu able
            (bytes "/")
            roomy
            0
            (record { mount = some (mounted tree); world = [] })).0
        ≡ false
    listed = refl
