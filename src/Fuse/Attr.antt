-- ===== src/Fuse/Attr.antt =====
-- `usvfs_getattr`, `usvfs_readlink`, `usvfs_chmod`, `usvfs_chown`, `usvfs_truncate` and
-- `usvfs_statfs` (src/usvfs.cpp).
use usvfs_fuse.Base.{
  ℕ, ◌+◌, ◌-◌, pos, neg, to_int, Bool, false, Option, none, some, if◌then◌else◌, List, [], ◌∷◌,
  Bytes, ◌++◌, ltb, length, take, drop, bytes, same,
}
use usvfs_fuse.Utils.{Icu}
use usvfs_fuse.Tree.Item.{real_path, file_name, is_dir, walk}
use usvfs_fuse.FdMap.{fd_at}
use usvfs_fuse.Kernel.{
  Kernel, Call, done, fail, fstat, fstatat, readlinkat, fchmod, fchmodat, fchown, fchownat,
  ftruncate, openat, fstatvfs, o_wronly, at_symlink_nofollow, at_empty_path,
}
use usvfs_fuse.Mount.{
  MountState, FileInfo, Context, Outcome, returns, broken, open_handle, outcome, ended, with_state,
  sys,
}
use usvfs_fuse.Fuse.{parent_path_of, file_name_of, with_item}

-- `ends_with`
abbrev pub ends_with : Bytes → Bytes → Bool
ends_with s suffix =
    if ltb (length s) (length suffix)
    then false
    else same (drop (length s - length suffix) s) suffix

-- A path that ends in "/.directory" loses as many bytes as that has, less one.
unfoldable pub without_directory_suffix : Bytes → Bytes
without_directory_suffix path =
    if ends_with path (bytes "/.directory") then take (length path - 10) path else path

-- The names on the way to the parent.
abbrev pub parent_keys : List Bytes → List Bytes
parent_keys [] = []
parent_keys (k ∷ []) = []
parent_keys (k ∷ j ∷ ks) = k ∷ parent_keys (j ∷ ks)

module _ (icu : Icu) (os : Kernel) where
  open os use {World, run}

  -- A call on the caller's own descriptor, which needs no mount.
  unfoldable pub on_handle : Call → Context World → Option FileInfo → Outcome World
  on_handle call c info = elim (run call c.world).0 [
    | fail e ↦ record {
      status = returns (neg e);
      out = [];
      info = info;
      context = record c { world = (run call c.world).1 };
    }
    | done n out ↦ record {
      status = returns (pos 0);
      out = out;
      info = info;
      context = record c { world = (run call c.world).1 };
    }
  ]

  -- With the caller's `fuse_file_info` as it was.
  unfoldable pub keeping : Option FileInfo → Outcome World → Outcome World
  keeping info o = record o { info = info }

  -- The result of a call, 0 on success with what it wrote.
  unfoldable pub result_of : Call → MountState → World → Outcome World
  result_of call m w = sys os call m w (λ n out w'. record (ended (pos 0) m w') { out = out })

  unfoldable pub usvfs_getattr : Bytes → Option FileInfo → Context World → Outcome World
  usvfs_getattr path info c = elim (open_handle info) [
    | some h ↦ on_handle (fstat (to_int h)) c info
    | none ↦ keeping info (
        with_state c λ m w. with_item icu os m w (without_directory_suffix path) λ r.
          if is_dir r.target
          then result_of
              (fstatat (fd_at icu m.fd_map (real_path r.target)) []
                (at_symlink_nofollow + at_empty_path))
              m w
          else result_of
              (fstatat (fd_at icu m.fd_map (parent_path_of r.target)) (file_name_of r.target)
                at_symlink_nofollow)
              m w)
  ]

  -- The target's bytes, and the zero behind them, which the program writes behind the end of a buffer
  -- of `size` bytes that the target fills.
  unfoldable pub link_target : Call → ℕ → MountState → World → Outcome World
  link_target call size m w = sys os call m w λ n out w'.
      if ltb n size
      then record (ended (pos 0) m w') { out = take n out ++ (0 ∷ []) }
      else outcome broken m w'

  -- The directory of a link is its parent's in the tree. A root that is no directory has no parent,
  -- and the program would go through a null pointer.
  unfoldable pub usvfs_readlink : Bytes → ℕ → Context World → Outcome World
  usvfs_readlink path size c = with_state c λ m w. with_item icu os m w path λ r.
      if is_dir r.target
      then link_target (readlinkat (fd_at icu m.fd_map (real_path r.target)) [] size) size m w
      else elim r.keys [
        | [] ↦ outcome broken m w
        | k ∷ ks ↦ elim (walk m.file_tree (parent_keys (k ∷ ks))) [
          | none ↦ outcome broken m w
          | some parent ↦
              link_target
                (readlinkat (fd_at icu m.fd_map (real_path parent)) (file_name r.target) size) size
                m w
        ]
      ]

  unfoldable pub usvfs_chmod : Bytes → ℕ → Option FileInfo → Context World → Outcome World
  usvfs_chmod path mode info c = elim (open_handle info) [
    | some h ↦ on_handle (fchmod (to_int h) mode) c info
    | none ↦ keeping info (
        with_state c λ m w. with_item icu os m w path λ r.
          result_of
            (fchmodat (fd_at icu m.fd_map (parent_path_of r.target)) (file_name_of r.target) mode 0)
            m w)
  ]

  unfoldable pub usvfs_chown : Bytes → ℕ → ℕ → Option FileInfo → Context World → Outcome World
  usvfs_chown path uid gid info c = elim (open_handle info) [
    | some h ↦ on_handle (fchown (to_int h) uid gid) c info
    | none ↦ keeping info (
        with_state c λ m w. with_item icu os m w path λ r.
          result_of
            (fchownat (fd_at icu m.fd_map (parent_path_of r.target)) (file_name_of r.target) uid gid
              0)
            m w)
  ]

  -- The descriptor that is opened for the call is not closed.
  unfoldable pub usvfs_truncate : Bytes → ℕ → Option FileInfo → Context World → Outcome World
  usvfs_truncate path size info c = elim (open_handle info) [
    | some h ↦ on_handle (ftruncate (to_int h) size) c info
    | none ↦ keeping info (
        with_state c λ m w. with_item icu os m w path λ r.
          sys os
            (openat (fd_at icu m.fd_map (parent_path_of r.target)) (file_name_of r.target) o_wronly
              0)
            m w λ fd out w'. result_of (ftruncate (pos fd) size) m w')
  ]

  unfoldable pub usvfs_statfs : Bytes → Context World → Outcome World
  usvfs_statfs path c =
      with_state c λ m w. result_of (fstatvfs (fd_at icu m.fd_map m.mountpoint)) m w
