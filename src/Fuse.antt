-- ===== src/Fuse.antt =====
-- src/usvfs.cpp, the FUSE handlers: what they share.
-- A handler is a function of the context that libfuse passes. It looks up the mount, reads and
-- changes the tree and the map of descriptors, and makes system calls, in the order of the source.
-- What is only logged is left out.
pub mod Attr
pub mod Io
pub mod Dir
pub mod Entry
pub mod Request
pub mod Safety
pub mod Made
pub mod Bounds
pub mod Parts
pub mod Spelling
use usvfs_fuse.Base.{
  ℕ, ◌+◌, ◌-◌, ℤ, pos, neg, negsuc, Bool, true, false, ◌&&◌, not, is_minus_one, is_negative, Option,
  none, some, if◌then◌else◌, Bytes, ◌++◌, is_empty_bytes, enoent, ltb, length, take, bytes,
}
use usvfs_fuse.Utils.{Icu, get_parent_path, get_file_name_from_path}
use usvfs_fuse.Tree.Item.{Item, real_path, file_path, walk}
use usvfs_fuse.Tree.Find.{Found, find}
use usvfs_fuse.FdMap.{fd_at, assign}
use usvfs_fuse.Kernel.{Kernel, Call, Reply, done, fail, mkdirat, openat, open_flags}
use usvfs_fuse.Mount.{MountState, Outcome, ended}

-- `GET_PATHS`
abbrev pub parent_path_of : Item → Bytes
parent_path_of t = get_parent_path (real_path t)

abbrev pub file_name_of : Item → Bytes
file_name_of t = get_file_name_from_path (real_path t)

-- Where new items of a directory go: the directory's real path, or its path below the upper
-- directory if there is one.
unfoldable pub real_parent_path : MountState → Found → Bytes
real_parent_path m parent =
    if is_empty_bytes m.upper_dir
    then real_path parent.target
    else m.upper_dir ++ file_path m.file_tree parent.keys

-- The descriptor of the directory for a new item, or what the handler returns at once.
pub data ParentFd (W : Type 0) : Type 0 where
  ready : ℤ → MountState → W → ParentFd W
  stopped : ℤ → MountState → W → ParentFd W

module _ (icu : Icu) (os : Kernel) where
  -- `FIND_ITEM`
  abbrev pub with_item :
      MountState → os.World → Bytes → (Found → Outcome os.World) → Outcome os.World
  with_item m w path k = elim (find icu m.file_tree path false) [
    | none ↦ ended (neg enoent) m w
    | some r ↦ k r
  ]

  -- What the second call of `createParentDir` comes to.
  unfoldable pub opened_parent : MountState → Bytes → Reply × os.World → ℤ × MountState × os.World
  opened_parent m real_parent r = elim r.0 [
    | fail e ↦ (neg e, m, r.1)
    | done fd out ↦ (pos fd, record m { fd_map = assign icu m.fd_map real_parent (pos fd) }, r.1)
  ]

  -- `createParentDir`: the descriptor of the new directory, or a negated errno.
  unfoldable pub create_parent_dir : MountState → Bytes → ℕ → os.World → ℤ × MountState × os.World
  create_parent_dir m real_parent mode w =
      let parent_name = get_file_name_from_path real_parent in
      let grand_parent_fd = fd_at icu m.fd_map (get_parent_path real_parent) in
      let r = os.run (mkdirat grand_parent_fd parent_name mode) w in
      elim r.0 [
        | fail e ↦ (neg e, m, r.1)
        | done n out ↦
            opened_parent m real_parent
              (os.run (openat grand_parent_fd parent_name open_flags 0) r.1)
      ]

  -- The directory is made if it has no descriptor and there is an upper directory. Where that
  -- fails the handler returns the negated errno.
  unfoldable pub parent_fd : MountState → Bytes → ℕ → os.World → ParentFd os.World
  parent_fd m real_parent mode w =
      let fd = fd_at icu m.fd_map real_parent in
      let made = create_parent_dir m real_parent mode w in
      if is_minus_one fd && not (is_empty_bytes m.upper_dir)
      then if is_negative made.0 then stopped made.0 made.1 made.2 else ready made.0 made.1 made.2
      else ready fd m w
