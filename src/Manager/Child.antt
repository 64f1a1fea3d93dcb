-- ===== src/Manager/Child.antt =====
-- `writeToFile` and `childFunc` (src/usvfsmanager.cpp): the process that a mount has of its own.
use usvfs_fuse.Base.{
  ℕ, ℤ, pos, negsuc, Bool, false, not, is_minus_one, if◌then◌else◌, Bytes, ◌++◌, bytes,
}
use usvfs_fuse.Mount.{MountState}

-- The calls of the child; a Boolean says whether the call has succeeded. `decimal` is what
-- `std::format` makes of a number; `fuse_loop` comes back when the file system is unmounted.
pub record ChildHost (W : Type 0) : Type 0 where
  pub decimal : ℕ → Bytes
  pub open_file : Bytes → W → Bool × W
  pub write_text : Bytes → Bytes → W → Bool × W
  pub set_namespaces : ℤ → W → Bool × W
  pub fuse_new : MountState → W → Bool × W
  pub fuse_mount : MountState → W → Bool × W
  pub fuse_destroy : MountState → W → W
  pub set_signal_handlers : MountState → W → W
  pub fuse_loop : MountState → W → W
  pub fuse_unmount : MountState → W → W

module _ {W : Type 0} (host : ChildHost W) where
  open host use {
    decimal, open_file, write_text, set_namespaces, fuse_new, fuse_mount, fuse_destroy,
    set_signal_handlers, fuse_loop, fuse_unmount,
  }

  -- Whether it has come to its end; else it throws, where the file cannot be opened as well.
  unfoldable pub write_to_file : Bytes → Bytes → W → Bool × W
  write_to_file filename content w =
      let opened = open_file filename w in
      if not opened.0 then (false, opened.1) else write_text filename content opened.1

  unfoldable pub map_ids : ℕ → ℕ → W → Bool × W
  map_ids uid gid w =
      let user =
        write_to_file (bytes "/proc/self/uid_map") (bytes "0 " ++ (decimal uid ++ bytes " 1")) w in
      let groups = write_to_file (bytes "/proc/self/setgroups") (bytes "deny") user.1 in
      if not user.0
      then (false, user.1)
      else if not groups.0
      then (false, groups.1)
      else write_to_file (bytes "/proc/self/gid_map") (bytes "0 " ++ (decimal gid ++ bytes " 1"))
          groups.1

  -- From `fuse_new` on.
  unfoldable pub serve_mount : MountState → W → ℤ × W
  serve_mount s w =
      let made = fuse_new s w in
      let mounted = fuse_mount s made.1 in
      if not made.0
      then (negsuc 0, made.1)
      else if not mounted.0
      then (negsuc 0, fuse_destroy s mounted.1)
      else let w = fuse_loop s (set_signal_handlers s mounted.1) in
        (pos 0, fuse_destroy s (fuse_unmount s w))

  -- The ids are those of the user; the descriptor is that of the namespaces, -1 if there are none yet.
  unfoldable pub child_func : ℕ → ℕ → ℤ → MountState → W → ℤ × W
  child_func uid gid ns_fd s w =
      let mapped = map_ids uid gid w in
      let entered = set_namespaces ns_fd mapped.1 in
      if not mapped.0
      then (negsuc 0, mapped.1)
      else if is_minus_one ns_fd
      then serve_mount s mapped.1
      else if not entered.0
      then (negsuc 0, entered.1)
      else serve_mount s entered.1
