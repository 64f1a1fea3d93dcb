-- ===== src/Fuse/Entry.antt =====
-- `usvfs_create`, `usvfs_unlink` and `usvfs_rename` (src/usvfs.cpp).

pub mod Unlink
pub mod Rename
pub mod Move
use usvfs_fuse.Base.{
  ℕ, ◌+◌, ◌%◌, ◌/◌, ℤ, pos, neg, Bool, true, false, not, ◌&&◌, Option, none, some, if◌then◌else◌,
  List, [], ◌∷◌, Bytes, ◌++◌, bytes, enoent, eexist, ◌==◌, is_empty_bytes,
}
use usvfs_fuse.Utils.{Icu, get_parent_path, get_file_name_from_path}
use usvfs_fuse.Tree.Item.{Item, file, real_path, file_name, get_type, file_path}
use usvfs_fuse.Tree.Find.{Found, find}
use usvfs_fuse.Tree.Add.{AddResult, added, refused, null_entry, crash, add}
use usvfs_fuse.Tree.Erase.{EraseResult, erased, erase}
use usvfs_fuse.Tree.Erase
use usvfs_fuse.FdMap.{fd_at, subscript}
use usvfs_fuse.Kernel.{
  Kernel, Call, Reply, done, fail, openat, unlinkat, renameat2, rename_noreplace, rename_exchange,
}
use usvfs_fuse.Mount.{
  MountState, FileInfo, Context, Outcome, Status, returns, broken, outcome, ended, with_state, sys,
}
use usvfs_fuse.Fuse.{
  parent_path_of, file_name_of, with_item, real_parent_path, parent_fd, ParentFd, ready, stopped,
}

-- `flags & RENAME_NOREPLACE` and `flags & RENAME_EXCHANGE`
abbrev pub no_replace : ℕ → Bool
no_replace flags = flags % 2 == 1

abbrev pub exchange : ℕ → Bool
exchange flags = (flags / 2) % 2 == 1

abbrev pub is_found : Option Found → Bool
is_found none = false
is_found (some r) = true

module _ (icu : Icu) (os : Kernel) where
  open os use {World, run}

  unfoldable pub usvfs_unlink : Bytes → Context World → Outcome World
  usvfs_unlink path c = with_state c λ m w. with_item icu os m w path λ r.
      sys os (unlinkat (fd_at icu m.fd_map (parent_path_of r.target)) (file_name_of r.target) 0) m w
        λ _ _ w. elim (erase icu m.file_tree path false) [
          | Erase.refused e ↦ ended (neg e) m w
          | erased t ↦ ended (pos 0) (record m { file_tree = t }) w
        ]

  -- From `openat` on, with the descriptor of the parent directory.
  unfoldable pub create_file : Bytes → Bytes → ℕ → FileInfo → ℤ → MountState → World → Outcome World
  create_file path real_parent mode fi fd m w =
      let name = get_file_name_from_path path in
      sys os (openat fd name fi.flags mode) m w λ n _ w.
        let opened = λ (o : Outcome World). record o { info = some (record fi { fh = n }) } in
        opened (elim (find icu m.file_tree path false) [
          | some r ↦ ended (pos 0) m w
          | none ↦ elim (add icu m.file_tree path (real_parent ++ (bytes "/" ++ name)) file false) [
            | added t ks ↦ ended (pos 0) (record m { file_tree = t }) w
            | refused e ↦ ended (neg e) m w
            | null_entry ↦ outcome broken m w
            | crash ↦ outcome broken m w
          ]
        ])

  -- Below an upper directory the parent is not looked up in the tree.
  unfoldable pub create_in : Bytes → Bytes → ℕ → FileInfo → MountState → World → Outcome World
  create_in path real_parent mode fi m w = elim (parent_fd icu os m real_parent mode w) [
    | stopped code m w ↦ ended code m w
    | ready fd m w ↦ create_file path real_parent mode fi fd m w
  ]

  unfoldable pub keeping : FileInfo → Outcome World → Outcome World
  keeping fi o = elim o.info [ none ↦ record o { info = some fi } | some i ↦ o ]

  unfoldable pub usvfs_create : Bytes → ℕ → FileInfo → Context World → Outcome World
  usvfs_create path mode fi c = keeping fi (
      with_state c λ m w.
        if is_empty_bytes m.upper_dir
        then with_item icu os m w (get_parent_path path)
            (λ parent. create_in path (real_path parent.target) mode fi m w)
        else create_in path (m.upper_dir ++ get_parent_path path) mode fi m w)

  -- From `renameat2` on.
  unfoldable pub rename_entry :
      Bytes → Bytes → ℕ → Found → Bytes → MountState → World → Outcome World
  rename_entry from to flags old new_real_parent m w =
      let old_fd = subscript icu m.fd_map (parent_path_of old.target) in
      let new_fd = subscript icu old_fd.1 new_real_parent in
      let m = record m { fd_map = new_fd.1 } in
      sys os
        (renameat2 old_fd.0 (file_name old.target) new_fd.0 (get_file_name_from_path to)
          (if exchange flags then rename_exchange else 0))
        m w
        λ _ _ w. elim (add icu m.file_tree to (new_real_parent ++ to) (get_type old.target) false) [
          | refused e ↦ ended (neg e) m w
          | null_entry ↦ outcome broken m w
          | crash ↦ outcome broken m w
          | added t ks ↦ elim (erase icu t from true) [
            | Erase.refused e ↦ ended (neg e) (record m { file_tree = t }) w
            | erased t' ↦ ended (pos 0) (record m { file_tree = t' }) w
          ]
        ]

  unfoldable pub usvfs_rename : Bytes → Bytes → ℕ → Context World → Outcome World
  usvfs_rename from to flags c = with_state c λ m w. with_item icu os m w from λ old.
      if is_found (find icu m.file_tree to false) && no_replace flags
      then ended (neg eexist) m w
      else with_item icu os m w (get_parent_path to)
          λ new_parent. rename_entry from to flags old (real_parent_path m new_parent) m w
