-- ===== src/Fuse/Dir.antt =====
-- `usvfs_mkdir`, `usvfs_rmdir` and `usvfs_readdir` (src/usvfs.cpp).
pub mod Effect
pub mod Listing
use usvfs_fuse.Base.{
  ℕ, ◌+◌, ◌%◌, ℤ, pos, neg, Bool, true, false, not, is_negative, Option, none, some, if◌then◌else◌,
  List, [], ◌∷◌, Bytes, ◌++◌, bytes, enoent, eexist, eio, enotdir, enotempty, ◌==◌,
}
use usvfs_fuse.Utils.{Icu, get_parent_path, get_file_name_from_path}
use usvfs_fuse.Tree.Item.{
  Item, Entries, nil, entry, dir, real_path, file_name, is_dir, is_deleted, set_deleted, set_name,
  modify, children,
}
use usvfs_fuse.Tree.Find.{Found, find}
use usvfs_fuse.Tree.Add.{added, refused, null_entry, crash, add}
use usvfs_fuse.Tree.Erase.{is_empty}
use usvfs_fuse.FdMap.{fd_at, assign}
use usvfs_fuse.Kernel.{
  Kernel, Call, Reply, done, fail, mkdirat, openat, unlinkat, fstatat, open_flags, at_removedir,
}
use usvfs_fuse.Mount.{
  MountState, Context, Outcome, Status, returns, broken, outcome, ended, with_state, sys,
}
use usvfs_fuse.Fuse.{
  parent_path_of, file_name_of, with_item, real_parent_path, parent_fd, ParentFd, ready, stopped,
}

-- A deleted item is brought back under the name of the call.
abbrev pub revived : Bytes → Item → Item
revived name t = set_name name (set_deleted false t)

-- A name that does not fit is left out.
abbrev filled : (List Bytes → Bytes → Bool) → List Bytes → Bytes → List Bytes
filled is_full names n = if is_full names n then names else names ++ (n ∷ [])

module _ (icu : Icu) (os : Kernel) where
  open os use {World, run}

  -- From `mkdirat` on, with the descriptor of the parent directory.
  unfoldable pub make_dir : Bytes → Bytes → ℕ → ℤ → MountState → World → Outcome World
  make_dir path real mode fd m w =
      let name = get_file_name_from_path path in
      sys os (mkdirat fd name mode) m w λ _ _ w. sys os (openat fd name open_flags 0) m w λ n _ w.
        let m = record m { fd_map = assign icu m.fd_map real (pos n) } in
        elim (add icu m.file_tree path real dir false) [
          | added t ks ↦ ended (pos 0) (record m { file_tree = t }) w
          | refused e ↦ ended (neg eio) m w
          | null_entry ↦ outcome broken m w
          | crash ↦ outcome broken m w
        ]

  unfoldable pub usvfs_mkdir : Bytes → ℕ → Context World → Outcome World
  usvfs_mkdir path mode c = with_state c λ m w. elim (find icu m.file_tree path true) [
    | some existing ↦
        if not (is_deleted existing.target)
        then ended (neg eexist) m w
        else let name = get_file_name_from_path path in
          ended (pos 0) (record m { file_tree = modify (revived name) existing.keys m.file_tree }) w
    | none ↦ elim (find icu m.file_tree (get_parent_path path) false) [
      | none ↦ ended (neg enoent) m w
      | some parent ↦
          let real_parent = real_parent_path m parent in
          let real = real_parent ++ (bytes "/" ++ get_file_name_from_path path) in
          elim (parent_fd icu os m real_parent mode w) [
            | stopped code m w ↦ ended code m w
            | ready fd m w ↦ make_dir path real mode fd m w
          ]
    ]
  ]

  unfoldable pub usvfs_rmdir : Bytes → Context World → Outcome World
  usvfs_rmdir path c = with_state c λ m w. with_item icu os m w path λ r.
      if not (is_dir r.target)
      then ended (neg enotdir) m w
      else if not (is_empty r.target)
      then ended (neg enotempty) m w
      else sys os
          (unlinkat (fd_at icu m.fd_map (parent_path_of r.target)) (file_name_of r.target)
            at_removedir)
          m w
          λ _ _ w.
            ended (pos 0) (record m { file_tree = modify (set_deleted true) r.keys m.file_tree }) w

  -- The loop over the children. The filler answers whether its buffer, with the names so far, is
  -- full; the call fails where the status of a child cannot be read.
  unfoldable pub list_children :
      (List Bytes → Bytes → Bool)
      → MountState
      → Entries
      → List Bytes
      → World
      → ℤ × List Bytes × World
  list_children is_full m nil names w = (pos 0, names, w)
  list_children is_full m (entry k c es) names w =
      let r = run (fstatat (fd_at icu m.fd_map (parent_path_of c)) (file_name_of c) 0) w in
      let rest = list_children is_full m es (names ++ (file_name c ∷ [])) r.1 in
      elim r.0 [
        | fail e ↦ (neg e, names, r.1)
        | done n out ↦ if is_full names (file_name c) then (pos 0, names, r.1) else rest
      ]

  -- The returned number, the names in the caller's buffer, and the machine afterwards.
  unfoldable pub usvfs_readdir :
      Bytes → (Bool → List Bytes → Bytes → Bool) → ℕ → Context World → ℤ × List Bytes × World
  usvfs_readdir path filler flags c = elim c.mount [
    | none ↦ (neg eio, [], c.world)
    | some m ↦ elim (find icu m.file_tree path false) [
      | none ↦ (neg enoent, [], c.world)
      | some r ↦
          let is_full = filler (flags % 2 == 1) in
          list_children is_full m (children r.target)
            (filled is_full (filled is_full [] (bytes ".")) (bytes "..")) c.world
    ]
  ]
