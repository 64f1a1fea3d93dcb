-- ===== src/Fuse/Request.antt =====
-- The operations that `createOperations` (src/usvfsmanager.cpp) gives to libfuse, as requests.
use usvfs_fuse.Base.{ℕ, Bool, List, [], Bytes, Option, none}
use usvfs_fuse.Utils.{Icu}
use usvfs_fuse.Kernel.{Kernel}
use usvfs_fuse.Mount.{FileInfo, Context, Outcome, Status, returns}
use usvfs_fuse.Fuse.Attr.{
  usvfs_getattr, usvfs_readlink, usvfs_chmod, usvfs_chown, usvfs_truncate, usvfs_statfs,
}
use usvfs_fuse.Fuse.Io.{
  usvfs_open, usvfs_read, usvfs_write, usvfs_release, usvfs_releasedir, usvfs_flush, usvfs_fsync,
  usvfs_fsyncdir, usvfs_symlink, usvfs_link,
}
use usvfs_fuse.Fuse.Dir.{usvfs_mkdir, usvfs_rmdir, usvfs_readdir}
use usvfs_fuse.Fuse.Entry.{usvfs_unlink, usvfs_create, usvfs_rename}

pub data Request : Type 0 where
  getattr : Bytes → Option FileInfo → Request
  readlink : Bytes → ℕ → Request
  mkdir : Bytes → ℕ → Request
  unlink : Bytes → Request
  rmdir : Bytes → Request
  symlink : Bytes → Bytes → Request
  rename : Bytes → Bytes → ℕ → Request
  link : Bytes → Bytes → Request
  chmod : Bytes → ℕ → Option FileInfo → Request
  chown : Bytes → ℕ → ℕ → Option FileInfo → Request
  truncate : Bytes → ℕ → Option FileInfo → Request
  open_file : Bytes → FileInfo → Request
  read : Bytes → ℕ → ℕ → FileInfo → Request
  write : Bytes → Bytes → ℕ → FileInfo → Request
  statfs : Bytes → Request
  flush : Bytes → Option FileInfo → Request
  release : Bytes → Option FileInfo → Request
  fsync : Bytes → ℕ → Option FileInfo → Request
  readdir : Bytes → (Bool → List Bytes → Bytes → Bool) → ℕ → Request
  releasedir : Bytes → Option FileInfo → Request
  fsyncdir : Bytes → ℕ → Option FileInfo → Request
  create : Bytes → ℕ → FileInfo → Request

-- What a handler hands out: the bytes written for the caller, the caller's `fuse_file_info` as it is
-- afterwards, and the names that the caller's function was given.
pub record Output : Type 0 where
  pub out : Bytes
  pub info : Option FileInfo
  pub names : List Bytes

-- How a handler ends, what it leaves, and what it hands out.
abbrev pub Answer : Type 0 → Type 0
Answer W = Status × Context W × Output

abbrev pub answer : {W : Type 0} → Outcome W → Answer W
answer o = (o.status, o.context, record { out = o.out; info = o.info; names = [] })

module _ (icu : Icu) (os : Kernel) where
  open os use {World}

  unfoldable pub handle : Request → Context World → Answer World
  handle (getattr path info) c = answer (usvfs_getattr icu os path info c)
  handle (readlink path size) c = answer (usvfs_readlink icu os path size c)
  handle (mkdir path mode) c = answer (usvfs_mkdir icu os path mode c)
  handle (unlink path) c = answer (usvfs_unlink icu os path c)
  handle (rmdir path) c = answer (usvfs_rmdir icu os path c)
  handle (symlink target linkpath) c = answer (usvfs_symlink icu os target linkpath c)
  handle (rename from to flags) c = answer (usvfs_rename icu os from to flags c)
  handle (link from to) c = answer (usvfs_link icu os from to c)
  handle (chmod path mode info) c = answer (usvfs_chmod icu os path mode info c)
  handle (chown path uid gid info) c = answer (usvfs_chown icu os path uid gid info c)
  handle (truncate path size info) c = answer (usvfs_truncate icu os path size info c)
  handle (open_file path fi) c = answer (usvfs_open icu os path fi c)
  handle (read path size offset fi) c = answer (usvfs_read icu os path size offset fi c)
  handle (write path buf offset fi) c = answer (usvfs_write icu os path buf offset fi c)
  handle (statfs path) c = answer (usvfs_statfs icu os path c)
  handle (flush path info) c = answer (usvfs_flush icu os path info c)
  handle (release path info) c = answer (usvfs_release icu os path info c)
  handle (fsync path sync info) c = answer (usvfs_fsync icu os path sync info c)
  handle (readdir path filler flags) c =
      let (code, names, w) = usvfs_readdir icu os path filler flags c in
      (returns code, record c { world = w }, record { out = []; info = none; names = names })
  handle (releasedir path info) c = answer (usvfs_releasedir icu os path info c)
  handle (fsyncdir path sync info) c = answer (usvfs_fsyncdir icu os path sync info c)
  handle (create path mode fi) c = answer (usvfs_create icu os path mode fi c)
