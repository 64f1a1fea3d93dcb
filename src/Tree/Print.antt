-- ===== src/Tree/Print.antt =====
-- `getAllItemPaths`, `dumpTree` and `operator<<` (src/virtualfiletreeitem.cpp). The children come
-- in the order of their keys; `prefix` is the path of the item at hand.
use usvfs_fuse.Base.{
  ℕ, ◌+◌, Bool, true, false, ◌&&◌, ◌||◌, List, [], ◌∷◌, ◌++◌, ◌==◌, if◌then◌else◌, Bytes, bytes,
  replicate,
}
use usvfs_fuse.Tree.Item.{Item, item, Info, Entries, nil, entry, file_name, type_is_dir}

-- `filePath` of a child.
abbrev pub child_path : Bytes → Item → Bytes
child_path prefix c = prefix ++ (b'/' ∷ file_name c)

unfoldable mutual
  pub item_paths : Bytes → Item → List Bytes
  item_paths prefix (item i es) = prefix ∷ item_paths_of_children prefix es

  pub item_paths_of_children : Bytes → Entries → List Bytes
  item_paths_of_children prefix nil = []
  item_paths_of_children prefix (entry k c es) =
      item_paths (child_path prefix c) c ++ item_paths_of_children prefix es

-- `getAllItemPaths` of a root: the flag counts for the root alone.
unfoldable pub get_all_item_paths : Item → Bool → List Bytes
get_all_item_paths (item i es) include_root =
    if include_root then [] ∷ item_paths_of_children [] es else item_paths_of_children [] es

abbrev ends_with_slash : Bytes → Bool
ends_with_slash [] = false
ends_with_slash (c ∷ []) = c == b'/'
ends_with_slash (c ∷ b ∷ s) = ends_with_slash (b ∷ s)

-- The name, with a slash behind a directory's.
abbrev pub dump_name : Info → Bytes
dump_name i =
    if type_is_dir i.type && not_slashed i.file_name then i.file_name ++ bytes "/" else i.file_name
  where
    not_slashed : Bytes → Bool
    not_slashed s = if ends_with_slash s then false else true

unfoldable mutual
  pub dump_tree : Item → ℕ → Bytes
  dump_tree (item i es) level =
      replicate level b' '
      ++ (dump_name i ++ (bytes " -> " ++ (i.real_path ++ (bytes "\n" ++ dump_children es level))))

  pub dump_children : Entries → ℕ → Bytes
  dump_children nil level = []
  dump_children (entry k c es) level = dump_tree c (level + 1) ++ dump_children es level

-- `std::quoted`: a backslash before each quote and backslash.
unfoldable pub escape : Bytes → Bytes
escape [] = []
escape (c ∷ s) = let rest = escape s in if c == 34 || c == 92 then 92 ∷ c ∷ rest else c ∷ rest

abbrev pub quoted : Bytes → Bytes
quoted s = 34 ∷ (escape s ++ (34 ∷ []))

unfoldable mutual
  pub print : Bytes → Item → Bytes
  print path (item i es) =
      bytes "file path: "
      ++ (quoted path
          ++ (bytes ", real path: "
              ++ (quoted i.real_path ++ (bytes "\n" ++ print_children path es))))

  pub print_children : Bytes → Entries → Bytes
  print_children path nil = []
  print_children path (entry k c es) = print (child_path path c) c ++ print_children path es
