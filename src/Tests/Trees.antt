-- ===== src/Tests/Trees.antt =====
-- The theorems on the tree at concrete trees and paths.
use usvfs_fuse.Base.{
  true, false, some, List, [], ◌∷◌, Bytes, bytes, ◌≡◌, refl, components, less, find_slash,
  find_slash_from, same, eexist,
}
use usvfs_fuse.Utils.{is_ascii, to_lower, lower_byte}
use usvfs_fuse.Utils.Case.{IsAscii}
use usvfs_fuse.Tree.Item.{
  Item, file, dir, info_of, item, nil, entry, lookup, insert, create, set_deleted,
}
use usvfs_fuse.Tree.View.{view}
use usvfs_fuse.Tree.Order.{IsOrdered}
use usvfs_fuse.Tree.Find.{find, strip_slash}
use usvfs_fuse.Tree.Find.Seen.{keys_of}
use usvfs_fuse.Tree.Add.{add, added, AddResult, add_internal, add_name, strip_both}
use usvfs_fuse.Tree.Add.Walk.{IsClean}
use usvfs_fuse.Tree.Add.Effect.{Updates, written, last_name, add-Updates}
use usvfs_fuse.Tree.Add.Found.{find-add}
use usvfs_fuse.Tree.Add.Result.{outcome, fails, outcome-add}
use usvfs_fuse.Tree.Erase.{erase, is_empty}
use usvfs_fuse.Tree.Erase.Walk.{is_empty-true}
use usvfs_fuse.Tree.Erase.Effect.{EraseOutcome, erase-EraseOutcome}
use usvfs_fuse.Tree.Merge.{merge, clone}
use usvfs_fuse.Tree.Merge.Effect.{IsLive, view-merge, clone-eq}
use usvfs_fuse.Tests.Data.{ascii_icu, info, tree, item_s, byte-ne-nil, tree-IsOrdered}

abbrev new_path : Bytes
new_path = bytes "/S/New"

IsAscii-new : IsAscii new_path
unfolding is_ascii
IsAscii-new = refl

abbrev old_path : Bytes
old_path = bytes "/S/X.txt"

IsAscii-old : IsAscii old_path
unfolding is_ascii
IsAscii-old = refl

IsAscii-a : IsAscii (bytes "/A")
unfolding is_ascii
IsAscii-a = refl

abbrev item_gone : Item
item_gone = set_deleted true item_s

IsClean-old : IsClean (strip_slash old_path)
unfolding components
IsClean-old = (byte-ne-nil _ _, (byte-ne-nil _ _, tt))

IsClean-new : IsClean (strip_slash new_path)
unfolding components
IsClean-new = (byte-ne-nil _ _, (byte-ne-nil _ _, tt))

-- The tree after an `add`, as it computes.
abbrev tree_of : AddResult → Item
tree_of (added t ks) = t
tree_of _ = tree

abbrev after_add : Item
after_add = tree_of (add ascii_icu tree new_path (bytes "/mods/New") file false)

abbrev new_keys : List Bytes
new_keys = bytes "s" ∷ bytes "new" ∷ []

add_new : add ascii_icu tree new_path (bytes "/mods/New") file false ≡ added after_add new_keys
unfolding add add_internal add_name strip_both find_slash find_slash_from to_lower is_ascii
    lower_byte lookup insert create same
add_new = refl

add-Updates_example :
    (new_keys ≡ keys_of new_path)
    × Updates tree new_keys
        (written
          (view tree new_keys)
          (last_name (components (strip_slash new_path)))
          (bytes "/mods/New")
          file)
        after_add
add-Updates_example =
    add-Updates ascii_icu tree new_path (bytes "/mods/New") file false after_add new_keys
      IsAscii-new IsClean-new (byte-ne-nil _ _) add_new

find-add_example :
    (c : Item) × (find ascii_icu after_add new_path false
      ≡ some (record { keys = new_keys; target = c }))
    × (info_of c
        ≡ written
            (view tree new_keys)
            (last_name (components (strip_slash new_path)))
            (bytes "/mods/New")
            file)
find-add_example =
    find-add ascii_icu tree new_path (bytes "/mods/New") file false after_add new_keys IsAscii-new
      IsClean-new (byte-ne-nil _ _) refl add_new

-- "/S/New" is free and has a parent; "/S/X.txt" is there.
outcome-add_example :
    outcome (add ascii_icu tree old_path (bytes "/mods/New") file false) ≡ some (fails eexist)
unfolding view components lower_byte lookup same
outcome-add_example =
    outcome-add ascii_icu tree old_path (bytes "/mods/New") file false IsAscii-old IsClean-old
      (byte-ne-nil _ _)

erase-EraseOutcome_example :
    EraseOutcome tree (keys_of old_path) false (erase ascii_icu tree old_path false)
erase-EraseOutcome_example =
    erase-EraseOutcome ascii_icu tree old_path false IsAscii-old (byte-ne-nil _ _) tree-IsOrdered

is_empty-true_example : is_empty tree ≡ true
is_empty-true_example = is_empty-true tree

-- Another tree, with "S/X.txt" from elsewhere and a new "T".
abbrev overlay : Item
overlay = item (info (bytes "/") (bytes "/over") dir) (
    entry (bytes "s")
      (item (info (bytes "s") (bytes "/over/s") dir)
        (entry (bytes "x.txt") (item (info (bytes "x.txt") (bytes "/over/s/x.txt") file) nil) nil))
      (entry (bytes "t") (item (info (bytes "T") (bytes "/over/T") file) nil) nil))

overlay-IsOrdered : IsOrdered overlay
unfolding less
overlay-IsOrdered = (((refl, tt), (tt, tt)), (((tt, tt), ((tt, tt), tt)), ((tt, tt), tt)))

overlay-IsLive : IsLive overlay
overlay-IsLive = (refl, ((refl, ((refl, tt), tt)), ((refl, tt), tt)))

view-merge_example :
    view (merge tree overlay) (bytes "s" ∷ bytes "x.txt" ∷ [])
    ≡ some (info (bytes "x.txt") (bytes "/over/s/x.txt") file)
unfolding view lookup same
view-merge_example =
    view-merge tree overlay (bytes "s" ∷ bytes "x.txt" ∷ []) overlay-IsOrdered overlay-IsLive

clone-eq_example : clone item_gone ≡ item_s
clone-eq_example = clone-eq item_gone
