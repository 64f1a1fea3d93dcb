-- ===== src/Tree/Find.antt =====
-- `find` and `findInternal` (src/virtualfiletreeitem.cpp). The fuel of the walk is the length of
-- the path; each turn drops at least one byte of it.
pub mod Walk
pub mod Seen
use usvfs_fuse.Base.{
  ℕ, zero, suc, ◌+◌, Bool, true, false, ◌||◌, not, List, [], ◌∷◌, Option, none, some, ◌==◌,
  if◌then◌else◌, Bytes, bytes, slash, is_empty_bytes, starts_with_slash, same, find_slash,
  find_slash_from, length, take, drop,
}
use usvfs_fuse.Utils.{Icu, to_lower}
use usvfs_fuse.Tree.Item.{Item, is_deleted, children, lookup}

-- What `find` returns: a handle, and the item behind it.
pub record Found : Type 0 where
  pub keys : List Bytes
  pub target : Item

abbrev pub below : Bytes → Option Found → Option Found
below k none = none
below k (some r) = some (record r { keys = k ∷ r.keys })

-- The found child, unless it is deleted and the caller does not want such.
abbrev pub unless_deleted : Bytes → Item → Bool → Option Found
unless_deleted k c include_deleted =
    if not (is_deleted c) || include_deleted
    then some (record { keys = k ∷ []; target = c })
    else none

unfoldable pub find_internal : ℕ → Item → Bytes → Bool → Option Found
find_internal zero t path include_deleted = none
find_internal (suc fuel) t path include_deleted = elim (find_slash path) [
  | some p ↦ elim (lookup (take p path) (children t)) [
    | none ↦ none
    | some c ↦ elim (find_slash_from path (length (take p path))) [
      | none ↦ unless_deleted (take p path) c include_deleted
      | some next ↦
          below (take p path) (find_internal fuel c (drop (next + 1) path) include_deleted)
    ]
  ]
  | none ↦ elim (lookup path (children t)) [
    | none ↦ none
    | some c ↦ unless_deleted path c include_deleted
  ]
]

abbrev pub strip_slash : Bytes → Bytes
strip_slash path = if starts_with_slash path then drop 1 path else path

-- `none` is the null pointer, with errno ENOENT.
unfoldable pub find : Icu → Item → Bytes → Bool → Option Found
find icu t path include_deleted =
    if same path (bytes "/") || is_empty_bytes path
    then some (record { keys = []; target = t })
    else let lowered = to_lower icu (strip_slash path) in
      find_internal (suc (length lowered)) t lowered include_deleted
