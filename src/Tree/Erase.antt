-- ===== src/Tree/Erase.antt =====
-- `isEmpty`, `markAllChildrenAsDeleted`, `erase` and `eraseInternal`
-- (src/virtualfiletreeitem.cpp). The fuel of the walk is the length of the path.
pub mod Walk
pub mod Effect
pub mod Found
pub mod Order
use usvfs_fuse.Base.{
  ℕ, zero, suc, ◌+◌, Bool, true, false, ◌&&◌, not, List, [], ◌∷◌, Option, none, some, ◌==◌,
  if◌then◌else◌, Bytes, slash, is_empty_bytes, find_slash, length, take, drop, einval, enoent,
  enotempty,
}
use usvfs_fuse.Utils.{Icu, to_lower}
use usvfs_fuse.Tree.Item.{
  Item, item, Info, Entries, nil, entry, children, with_children, lookup, insert, remove,
  set_deleted,
}
use usvfs_fuse.Tree.Find.{strip_slash}

-- `isEmpty` and `isEmptyInternal`: `all_of` over the children.
unfoldable mutual
  pub is_empty : Item → Bool
  is_empty (item i es) = all_empty es

  pub all_empty : Entries → Bool
  all_empty nil = true
  all_empty (entry k c es) = is_empty c && all_empty es

unfoldable mutual
  pub mark_all_children_as_deleted : Item → Item
  mark_all_children_as_deleted (item i es) = item i (mark_all es)

  -- The loop over the children.
  pub mark_all : Entries → Entries
  mark_all nil = nil
  mark_all (entry k c es) =
      entry k (set_deleted true (mark_all_children_as_deleted c)) (mark_all es)

-- The tree after the call, or errno.
pub data EraseResult : Type 0 where
  erased : Item → EraseResult
  refused : ℕ → EraseResult

abbrev pub erase_below : Item → Bytes → EraseResult → EraseResult
erase_below t k (erased c) = erased (with_children t (insert k c (children t)))
erase_below t k (refused e) = refused e

unfoldable pub erase_name : Item → Bytes → Bool → EraseResult
erase_name t path really_erase = elim (lookup path (children t)) [
  | none ↦ refused enoent
  | some c ↦
      if not (is_empty c)
      then refused enotempty
      else if really_erase
      then erased (with_children t (remove path (children t)))
      else erased (
          with_children t
            (insert path (mark_all_children_as_deleted (set_deleted true c)) (children t)))
]

unfoldable pub erase_internal : ℕ → Item → Bytes → Bool → EraseResult
erase_internal zero t path really_erase = refused enoent
erase_internal (suc fuel) t path really_erase = elim (find_slash path) [
  | none ↦ erase_name t path really_erase
  | some p ↦ elim (lookup (take p path) (children t)) [
    | none ↦ refused enoent
    | some c ↦ erase_below t (take p path) (erase_internal fuel c (drop (p + 1) path) really_erase)
  ]
]

unfoldable pub erase : Icu → Item → Bytes → Bool → EraseResult
erase icu t path really_erase =
    if is_empty_bytes path
    then refused einval
    else let lowered = to_lower icu (strip_slash path) in
      erase_internal (suc (length lowered)) t lowered really_erase
