-- ===== src/Tree/Add.antt =====
-- `add` and `addInternal` (src/virtualfiletreeitem.cpp). The path and its lower-cased copy are cut
-- at the same byte offsets, those of the path as written. The fuel of the walk is the length of the
-- path; each turn drops at least one byte of it.
pub mod Walk
pub mod Effect
pub mod Result
pub mod Found
pub mod Order
use usvfs_fuse.Base.{
  ℕ, zero, suc, ◌+◌, Bool, true, false, ◌||◌, not, List, [], ◌∷◌, Option, none, some, ◌==◌, leb,
  if◌then◌else◌, Bytes, bytes, slash, is_empty_bytes, starts_with_slash, same, find_slash, length,
  take, drop, eexist, einval, enoent,
}
use usvfs_fuse.Utils.{Icu, to_lower}
use usvfs_fuse.Tree.Item.{
  Item, item, Info, ItemType, is_deleted, children, with_children, lookup, insert, create,
  FileStatus, detect_type,
}
use usvfs_fuse.Tree.Find.{strip_slash}

-- The tree after the call with the keys of the returned item, or a null pointer and errno. In two
-- cases there is no tree to go on with: `null_entry`, where `create` has failed behind
-- `try_emplace`, so that the call returns null and leaves a null pointer in the map of children;
-- and `crash`, a `substr` beyond the end, which ends the program in a `noexcept` function, or
-- `remove_prefix` on an empty view.
pub data AddResult : Type 0 where
  added : Item → List Bytes → AddResult
  refused : ℕ → AddResult
  null_entry crash : AddResult

-- The directory with the changed child.
abbrev pub add_below : Item → Bytes → AddResult → AddResult
add_below t k (added c ks) = added (with_children t (insert k c (children t))) (k ∷ ks)
add_below t k (refused e) = refused e
add_below t k null_entry = null_entry
add_below t k crash = crash

-- `setDeleted(false)` and `m_realPath = realPath`
abbrev pub revive : Bytes → Item → Item
revive real (item i es) = item (record i { deleted = false; real_path = real }) es

-- `m_realPath = realPath`
abbrev pub redirect : Bytes → Item → Item
redirect real (item i es) = item (record i { real_path = real }) es

-- From `try_emplace` on. The type counts for a new item only.
unfoldable pub add_name : Item → Bytes → Bytes → Bytes → ItemType → Bool → AddResult
add_name t path path_lc real k update_existing = elim (lookup path_lc (children t)) [
  | some c ↦
      if is_deleted c
      then added (with_children t (insert path_lc (revive real c) (children t))) (path_lc ∷ [])
      else if not update_existing
      then refused eexist
      else added (with_children t (insert path_lc (redirect real c) (children t))) (path_lc ∷ [])
  | none ↦ elim (create path real k) [
    | none ↦ null_entry
    | some c ↦ added (with_children t (insert path_lc c (children t))) (path_lc ∷ [])
  ]
]

-- `remove_prefix(1)` on both views, where the path starts with a slash.
unfoldable pub strip_both : Bytes → Bytes → Option (Bytes × Bytes)
strip_both path path_lc =
    if starts_with_slash path
    then if is_empty_bytes path_lc then none else some (drop 1 path, drop 1 path_lc)
    else some (path, path_lc)

unfoldable pub add_internal : ℕ → Item → Bytes → Bytes → Bytes → ItemType → Bool → AddResult
add_internal zero t path path_lc real k update_existing = crash
add_internal (suc fuel) t path path_lc real k update_existing =
    if same path (bytes "/") then refused eexist else elim (strip_both path path_lc) [
      | none ↦ crash
      | some (path, path_lc) ↦ elim (find_slash path) [
        | none ↦ add_name t path path_lc real k update_existing
        | some p ↦ elim (lookup (take p path_lc) (children t)) [
          | none ↦ refused enoent
          | some c ↦ elim (leb (p + 1) (length path_lc)) [
            | false ↦ crash
            | true ↦ add_below t (take p path_lc) (
                add_internal fuel c (drop (p + 1) path) (drop (p + 1) path_lc) real k
                  update_existing)
          ]
        ]
      ]
    ]

unfoldable pub add : Icu → Item → Bytes → Bytes → ItemType → Bool → AddResult
add icu t path real k update_existing =
    if is_empty_bytes path || is_empty_bytes real
    then refused einval
    else if same path (bytes "/")
    then refused einval
    else let stripped = strip_slash path in
      add_internal (suc (length stripped)) t stripped (to_lower icu stripped) real k update_existing

-- `add` that looks at the disk for the type.
unfoldable pub add_detect : Icu → (Bytes → FileStatus) → Item → Bytes → Bytes → Bool → AddResult
add_detect icu disk t path real update_existing =
    add icu t path real (detect_type (disk real)) update_existing
