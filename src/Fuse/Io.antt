-- ===== src/Fuse/Io.antt =====
-- `usvfs_open`, `usvfs_read`, `usvfs_write`, `usvfs_release`, `usvfs_releasedir`, and the handlers
-- that are stubs (src/usvfs.cpp).
use mathlib.Core.Option
use usvfs_fuse.Base.{ℕ, pos, neg, to_int, Option, none, some, [], Bytes, enosys}
use usvfs_fuse.Utils.{Icu}
use usvfs_fuse.FdMap.{fd_at}
use usvfs_fuse.Kernel.{Kernel, Call, done, fail, openat, pread, pwrite, close}
use usvfs_fuse.Mount.{FileInfo, Context, Outcome, returns, open_handle, ended, with_state, sys}
use usvfs_fuse.Fuse.{parent_path_of, file_name_of, with_item}

module _ (icu : Icu) (os : Kernel) where
  open os use {World, run}

  -- With what is in the caller's `fuse_file_info` afterwards, where the handler has not set it.
  unfoldable pub keeping : FileInfo → Outcome World → Outcome World
  keeping fi o = elim o.info [ none ↦ record o { info = some fi } | some i ↦ o ]

  unfoldable pub usvfs_open : Bytes → FileInfo → Context World → Outcome World
  usvfs_open path fi c = keeping fi (
      with_state c λ m w. with_item icu os m w path λ r.
        sys os
          (openat (fd_at icu m.fd_map (parent_path_of r.target)) (file_name_of r.target) fi.flags 0)
          m w λ fd out w'. record (ended (pos 0) m w') { info = some (record fi { fh = fd }) })

  -- A call on the caller's descriptor that answers with a number of bytes.
  unfoldable pub transfer : Call → FileInfo → Context World → Outcome World
  transfer call fi c = elim (run call c.world).0 [
    | fail e ↦ record {
      status = returns (neg e);
      out = [];
      info = some fi;
      context = record c { world = (run call c.world).1 };
    }
    | done n out ↦ record {
      status = returns (to_int n);
      out = out;
      info = some fi;
      context = record c { world = (run call c.world).1 };
    }
  ]

  unfoldable pub usvfs_read : Bytes → ℕ → ℕ → FileInfo → Context World → Outcome World
  usvfs_read path size offset fi c = transfer (pread (to_int fi.fh) size offset) fi c

  unfoldable pub usvfs_write : Bytes → Bytes → ℕ → FileInfo → Context World → Outcome World
  usvfs_write path buf offset fi c = transfer (pwrite (to_int fi.fh) buf offset) fi c

  unfoldable pub closing : Option FileInfo → Context World → Outcome World
  closing info c = elim (open_handle info) [
    | none ↦ record { status = returns (pos 0); out = []; info = info; context = c }
    | some h ↦ record {
      status = returns (pos 0);
      out = [];
      info = Option.map (λ (fi : FileInfo). record fi { fh = 0 }) info;
      context = record c { world = (run (close (to_int h)) c.world).1 };
    }
  ]

  -- What `close` answers is not asked for.
  unfoldable pub usvfs_release : Bytes → Option FileInfo → Context World → Outcome World
  usvfs_release path info c = closing info c

  unfoldable pub usvfs_releasedir : Bytes → Option FileInfo → Context World → Outcome World
  usvfs_releasedir path info c = closing info c

  abbrev not_implemented : Option FileInfo → Context World → Outcome World
  not_implemented info c = record {
    status = returns (neg enosys);
    out = [];
    info = info;
    context = c;
  }

  unfoldable pub usvfs_flush : Bytes → Option FileInfo → Context World → Outcome World
  usvfs_flush path info c = not_implemented info c

  unfoldable pub usvfs_fsync : Bytes → ℕ → Option FileInfo → Context World → Outcome World
  usvfs_fsync path isdatasync info c = not_implemented info c

  unfoldable pub usvfs_fsyncdir : Bytes → ℕ → Option FileInfo → Context World → Outcome World
  usvfs_fsyncdir path isdatasync info c = not_implemented info c

  unfoldable pub usvfs_symlink : Bytes → Bytes → Context World → Outcome World
  usvfs_symlink target linkpath c = not_implemented none c

  unfoldable pub usvfs_link : Bytes → Bytes → Context World → Outcome World
  usvfs_link from to c = not_implemented none c
