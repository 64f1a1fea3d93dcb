-- ===== src/Tree/Item.antt =====
-- The items of the tree (src/virtualfiletreeitem.h), their accessors, and the map of children:
-- `FileMap`, a map from lower-cased names, in the order of `std::less<>`.
use usvfs_fuse.Base.{
  Bool, true, false, List, [], ◌∷◌, ◌++◌, Option, none, some, if◌then◌else◌, Bytes, is_empty_bytes,
  same, less,
}

-- `enum Type`
pub data ItemType : Type 0 where
  file dir unknown : ItemType

-- `m_fileName`, `m_realPath`, `m_type`, `m_deleted`
pub record Info : Type 0 where
  pub file_name : Bytes
  pub real_path : Bytes
  pub type : ItemType
  pub deleted : Bool

mutual
  pub data Item : Type 0 where
    item : Info → Entries → Item

  pub data Entries : Type 0 where
    nil : Entries
    entry : Bytes → Item → Entries → Entries

abbrev pub info_of : Item → Info
info_of (item i es) = i

-- `getChildren`
abbrev pub children : Item → Entries
children (item i es) = es

abbrev pub with_info : Item → Info → Item
with_info (item i es) j = item j es

abbrev pub with_children : Item → Entries → Item
with_children (item i es) fs = item i fs

-- `realPath`, `getType`, `isDeleted`, `isDir`, `isFile`; `fileName`
abbrev pub real_path : Item → Bytes
real_path t = (info_of t).real_path

abbrev pub file_name : Item → Bytes
file_name t = (info_of t).file_name

abbrev pub get_type : Item → ItemType
get_type t = (info_of t).type

abbrev pub is_deleted : Item → Bool
is_deleted t = (info_of t).deleted

abbrev pub type_is_dir : ItemType → Bool
type_is_dir dir = true
type_is_dir _ = false

abbrev pub type_is_file : ItemType → Bool
type_is_file file = true
type_is_file _ = false

abbrev pub is_dir : Item → Bool
is_dir t = type_is_dir (get_type t)

abbrev pub is_file : Item → Bool
is_file t = type_is_file (get_type t)

abbrev pub set_deleted : Bool → Item → Item
set_deleted b (item i es) = item (record i { deleted = b }) es

abbrev pub set_type : ItemType → Item → Item
set_type k (item i es) = item (record i { type = k }) es

-- An empty name is refused and the item stays as it is.
abbrev pub set_name : Bytes → Item → Item
set_name [] t = t
set_name (c ∷ s) (item i es) = item (record i { file_name = c ∷ s }) es

-- An empty path is refused and the item stays as it is.
abbrev pub set_real_path : Bytes → Item → Item
set_real_path [] t = t
set_real_path (c ∷ s) (item i es) = item (record i { real_path = c ∷ s }) es

-- `create` with a type: `none` is the null pointer, where the constructor threw.
unfoldable pub create : Bytes → Bytes → ItemType → Option Item
create name real k =
    if is_empty_bytes name
    then none
    else if is_empty_bytes real
    then none
    else some (item (record { file_name = name; real_path = real; type = k; deleted = false }) nil)

-- What `fs::exists` and `fs::status` say of a path.
pub data FileStatus : Type 0 where
  missing directory other : FileStatus

abbrev pub detect_type : FileStatus → ItemType
detect_type missing = unknown
detect_type directory = dir
detect_type other = file

-- `create` that looks at the disk; this constructor refuses no name and no path.
unfoldable pub create_detect : (Bytes → FileStatus) → Bytes → Bytes → Item
create_detect disk name real =
    item
      (record {
        file_name = name;
        real_path = real;
        type = detect_type (disk real);
        deleted = false;
      })
      nil

-- `m_children.find`
unfoldable pub lookup : Bytes → Entries → Option Item
lookup k nil = none
lookup k (entry j c es) = if same j k then some c else lookup k es

-- The map with `c` under `k`, whether or not `k` was there.
unfoldable pub insert : Bytes → Item → Entries → Entries
insert k c nil = entry k c nil
insert k c (entry j d es) =
    if same j k
    then entry k c es
    else if less k j
    then entry k c (entry j d es)
    else entry j d (insert k c es)

-- `m_children.erase`
unfoldable pub remove : Bytes → Entries → Entries
remove k nil = nil
remove k (entry j d es) = if same j k then es else entry j d (remove k es)

-- The item that a list of keys leads to.
unfoldable pub walk : Item → List Bytes → Option Item
walk t [] = some t
walk t (k ∷ ks) = elim (lookup k (children t)) [ none ↦ none | some c ↦ walk c ks ]

-- A change of the item that a handle points to, in place.
unfoldable pub modify : (Item → Item) → List Bytes → Item → Item
modify f [] t = f t
modify f (k ∷ ks) t = elim (lookup k (children t)) [
  | none ↦ t
  | some c ↦ with_children t (insert k (modify f ks c) (children t))
]

-- `filePath`: the names of the ancestors but the root's, and the item's own.
unfoldable pub file_path : Item → List Bytes → Bytes
file_path t [] = []
file_path t (k ∷ ks) = elim (lookup k (children t)) [
  | none ↦ []
  | some c ↦ b'/' ∷ (file_name c ++ file_path c ks)
]
