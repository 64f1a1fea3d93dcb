-- ===== src/Manager/Link.antt =====
-- `createFileTree`, `usvfsVirtualLinkFile` and `usvfsVirtualLinkDirectoryStatic`
-- (src/usvfsmanager.cpp). The walk over a directory of the disk is a parameter, and is taken as one
-- listing at the time of its first step.
pub mod Entries
pub mod Built
pub mod Descriptors
pub mod Stops
pub mod Directory
use usvfs_fuse.Base.{
  negsuc, ℕ, ℤ, pos, Bool, true, false, not, ◌&&◌, ◌||◌, ◌/◌, ◌%◌, ◌==◌, Option, none, some, List,
  [], ◌∷◌, ◌++◌, if◌then◌else◌, Bytes, bytes, same,
}
use usvfs_fuse.Utils.{Icu, get_parent_path}
use usvfs_fuse.Tree.Item.{Item, ItemType, file, dir, create}
use usvfs_fuse.Tree.Add.{AddResult, added, refused, null_entry, crash, add}
use usvfs_fuse.Tree.Merge.{merge}
use usvfs_fuse.FdMap.{FdMap, assign}
use usvfs_fuse.Kernel.{Kernel, Call, Reply, done, fail, open_dir, open_flags}
use usvfs_fuse.Mount.{MountState}
use usvfs_fuse.Manager.{UsvfsManager, file_name_in_skip_suffixes, file_name_in_skip_directories}

-- An entry of the walk: its path, that from the directory that is walked (`fs::relative`), its last
-- name, and whether it is a directory.
pub record DirEntry : Type 0 where
  pub path : Bytes
  pub relative : Bytes
  pub name : Bytes
  pub directory : Bool

-- What the program uses of `std::filesystem`: the walk, which may fail, and parts of a path.
pub record Disk (W : Type 0) : Type 0 where
  pub walk_dir : Bytes → W → Option (List DirEntry)
  pub parent_path : Bytes → Bytes
  pub filename : Bytes → Bytes

-- A tree with the descriptors of its directories; or a failure.
pub data Filled (W : Type 0) : Type 0 where
  filled : Item → FdMap → W → Filled W
  failed : W → Filled W

-- The answer of an operation. `aborted`: an exception in a `noexcept` function has ended the program,
-- or a null pointer was used or left in a tree.
pub data Linked (W : Type 0) : Type 0 where
  answered : Bool → UsvfsManager → W → Linked W
  aborted : Linked W

-- `flags & linkFlag::RECURSIVE`
abbrev pub is_recursive : ℕ → Bool
is_recursive flags = (flags / 8) % 2 == 1

abbrev pub new_mount : Bytes → Item → FdMap → MountState
new_mount mountpoint t fds = record {
  upper_dir = [];
  mountpoint = mountpoint;
  file_tree = t;
  fd_map = fds;
  pid_fd = negsuc 0;
}

abbrev pub with_mount : UsvfsManager → MountState → UsvfsManager
with_mount m s = record m { pending_mounts = m.pending_mounts ++ (s ∷ []) }

-- The first pending mount with the mountpoint, and those before and behind it.
unfoldable pub split_at_mountpoint :
    Bytes → List MountState → Option (List MountState × MountState × List MountState)
split_at_mountpoint p [] = none
split_at_mountpoint p (s ∷ ss) =
    let rest = split_at_mountpoint p ss in
    if same s.mountpoint p
    then some ([], s, ss)
    else elim rest [ none ↦ none | some (before, t, behind) ↦ some (s ∷ before, t, behind) ]

module _ (icu : Icu) (os : Kernel) (disk : Disk os.World) where
  open os use {World, run}

  -- The loop over the entries: each that is not to be skipped is added, and a directory opened.
  unfoldable pub add_entries :
      (DirEntry → Bool) → Item → FdMap → List DirEntry → World → Filled World
  add_entries skip t fds [] w = filled t fds w
  add_entries skip t fds (e ∷ es) w =
      if skip e
      then add_entries skip t fds es w
      else elim (add icu t e.relative e.path (if e.directory then dir else file) false) [
        | refused k ↦ failed w
        | null_entry ↦ failed w
        | crash ↦ failed w
        | added t' ks ↦
            if not e.directory
            then add_entries skip t' fds es w
            else elim (run (open_dir e.path open_flags) w).0 [
              | fail k ↦ failed (run (open_dir e.path open_flags) w).1
              | done fd out ↦
                  add_entries skip t' (assign icu fds e.path (pos fd)) es
                    (run (open_dir e.path open_flags) w).1
            ]
      ]

  -- `failed` where it throws.
  unfoldable pub create_file_tree : Bytes → FdMap → World → Filled World
  create_file_tree path fds w = elim (create (bytes "/") path dir) [
    | none ↦ failed w
    | some t ↦ elim (run (open_dir path open_flags) w).0 [
      | fail k ↦ failed (run (open_dir path open_flags) w).1
      | done fd out ↦
          let w = (run (open_dir path open_flags) w).1 in
          elim (disk.walk_dir path w) [
            | none ↦ failed w
            | some es ↦ add_entries (λ e. false) t (assign icu fds path (pos fd)) es w
          ]
    ]
  ]

  -- The name is added to a mount that is pending, and the directory of the source opened.
  unfoldable pub link_into :
      Bytes
      → Bytes
      → UsvfsManager
      → List MountState
      → MountState
      → List MountState
      → World
      → Linked World
  link_into source name m before s behind w = elim (add icu s.file_tree name source file false) [
    | refused k ↦ answered false m w
    | null_entry ↦ aborted
    | crash ↦ aborted
    | added t ks ↦
        let r = run (open_dir (get_parent_path source) open_flags) w in
        elim r.0 [
          | fail k ↦
              answered false
                (record m { pending_mounts = before ++ (record s { file_tree = t } ∷ behind) }) r.1
          | done fd out ↦
              answered true
                (record m {
                  pending_mounts =
                      before
                      ++ (record s {
                        file_tree = t;
                        fd_map = assign icu s.fd_map (get_parent_path source) (pos fd);
                      }
                          ∷ behind);
                })
                r.1
        ]
  ]

  -- A new pending mount of the directory `dst_dir`, with the name in it.
  unfoldable pub link_new :
      Bytes → Bytes → Bytes → Bytes → UsvfsManager → FdMap → World → Linked World
  link_new source name dst_dir dst_parent_dir m fds w =
      elim (create_file_tree dst_parent_dir fds w) [
        | failed w ↦ aborted
        | filled t fds w ↦ elim (add icu t name source file true) [
          | refused k ↦ answered false m w
          | null_entry ↦ answered false m w
          | crash ↦ aborted
          | added t' ks ↦ answered true (with_mount m (new_mount dst_dir t' fds)) w
        ]
      ]

  unfoldable pub usvfs_virtual_link_file : Bytes → Bytes → UsvfsManager → World → Linked World
  usvfs_virtual_link_file source destination m w =
      if file_name_in_skip_suffixes icu (disk.filename source) m.skip_file_suffixes
      then answered true m w
      else elim (split_at_mountpoint (disk.parent_path destination) m.pending_mounts) [
        | some (before, s, behind) ↦
            link_into source (disk.filename destination) m before s behind w
        | none ↦
            let src_parent_dir = get_parent_path source in
            let dst_parent_dir = get_parent_path destination in
            let r = run (open_dir src_parent_dir open_flags) w in
            elim r.0 [
              | fail k ↦ answered false m r.1
              | done fd out ↦
                  let q = run (open_dir dst_parent_dir open_flags) r.1 in
                  elim q.0 [
                    | fail k ↦ answered false m q.1
                    | done fd' out' ↦
                        link_new source (disk.filename destination) (disk.parent_path destination)
                          dst_parent_dir m
                          (assign icu (assign icu [] src_parent_dir (pos fd)) dst_parent_dir
                            (pos fd'))
                          q.1
                  ]
            ]
      ]

  -- A directory whose name ends in a text of the list of directories, or any other entry whose name
  -- ends in one of the suffixes.
  abbrev pub is_skipped : UsvfsManager → DirEntry → Bool
  is_skipped m e =
      (e.directory && file_name_in_skip_directories icu e.name m.skip_directories)
      || (not e.directory && file_name_in_skip_suffixes icu e.name m.skip_file_suffixes)

  -- Every descriptor of the first map is put into the second.
  abbrev pub assign_all : FdMap → FdMap → FdMap
  assign_all [] fds = fds
  assign_all ((path, fd) ∷ new) fds = assign_all new (assign icu fds path fd)

  -- From the look at the pending mounts on, with the tree of the source.
  unfoldable pub link_tree : Bytes → Item → FdMap → UsvfsManager → World → Linked World
  link_tree destination source_tree fds m w =
      elim (split_at_mountpoint destination m.pending_mounts) [
        | some (before, s, behind) ↦
            answered true
              (record m {
                pending_mounts =
                    before
                    ++ (record s {
                      file_tree = merge s.file_tree source_tree;
                      fd_map = assign_all fds s.fd_map;
                    }
                        ∷ behind);
              })
              w
        | none ↦ elim (create_file_tree destination fds w) [
          | failed w ↦ aborted
          | filled t fds w ↦
              answered true (with_mount m (new_mount destination (merge t source_tree) fds)) w
        ]
      ]

  -- The tree of the source: empty but for its root where the flag is not set. An empty source makes
  -- a null pointer of the root, which is used afterwards.
  unfoldable pub usvfs_virtual_link_directory_static :
      Bytes → Bytes → ℕ → UsvfsManager → World → Linked World
  usvfs_virtual_link_directory_static source destination flags m w =
      let r = run (open_dir source open_flags) w in
      elim r.0 [
        | fail k ↦ answered false m r.1
        | done fd out ↦
            let fds = assign icu [] source (pos fd) in
            elim (create (bytes "/") source dir) [
              | none ↦
                  if not (is_recursive flags) then aborted else elim (disk.walk_dir source r.1) [
                    | none ↦ answered false m r.1
                    | some es ↦ aborted
                  ]
              | some t ↦
                  if not (is_recursive flags)
                  then link_tree destination t fds m r.1
                  else elim (disk.walk_dir source r.1) [
                    | none ↦ answered false m r.1
                    | some es ↦ elim (add_entries (is_skipped m) t fds es r.1) [
                      | failed w ↦ answered false m w
                      | filled t fds w ↦ link_tree destination t fds m w
                    ]
                  ]
            ]
      ]
