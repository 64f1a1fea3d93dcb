-- ===== src/Tree/Merge.antt =====
-- `clone`, `cloneChildrenFrom` and `operator+=` (src/virtualfiletreeitem.cpp). Items in a map of
-- children have a name and a real path, so the constructor does not throw; memory is not short.
pub mod Effect
use usvfs_fuse.Base.{false, none, some}
use usvfs_fuse.Tree.Item.{Item, item, Entries, nil, entry, info_of, lookup, insert}

-- The children keep their records; the map of the copy is filled in the order of the original.
unfoldable mutual
  pub clone_children_from : Item → Item
  clone_children_from (item i es) = item i (clone_entries es)

  pub clone_entries : Entries → Entries
  clone_entries nil = nil
  clone_entries (entry k c es) = entry k (clone_children_from c) (clone_entries es)

-- The constructor that `clone` calls makes an item that is not deleted.
unfoldable pub clone : Item → Item
clone (item i es) = item (record i { deleted = false }) (clone_entries es)

-- `operator+=`: this item takes the name and the real path of the other, and keeps its type and its
-- mark; the loop goes over the children of the other.
unfoldable mutual
  pub merge : Item → Item → Item
  merge (item i es) (item j fs) =
      item (record i { real_path = j.real_path; file_name = j.file_name }) (merge_entries es fs)

  pub merge_entries : Entries → Entries → Entries
  merge_entries es nil = es
  merge_entries es (entry k c fs) = elim (lookup k es) [
    | none ↦ merge_entries (insert k (clone c) es) fs
    | some d ↦ merge_entries (insert k (merge d c) es) fs
  ]
