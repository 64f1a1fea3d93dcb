-- ===== src/Kernel.antt =====
-- The system calls that the file system makes, as a parameter: an unknown state of the machine, and
-- a reply to each call in each state. `errno` after a failed call is the number in the reply.
use usvfs_fuse.Base.{ℕ, ℤ, Bytes, ◌<◌, ◌≡◌, ◌≢◌, refl, ◌⊎◌, inl, inr}

pub data Call : Type 0 where
  fstat : ℤ → Call
  fstatat : ℤ → Bytes → ℕ → Call
  readlinkat : ℤ → Bytes → ℕ → Call
  mkdirat : ℤ → Bytes → ℕ → Call
  openat : ℤ → Bytes → ℕ → ℕ → Call
  unlinkat : ℤ → Bytes → ℕ → Call
  renameat2 : ℤ → Bytes → ℤ → Bytes → ℕ → Call
  fchmod : ℤ → ℕ → Call
  fchmodat : ℤ → Bytes → ℕ → ℕ → Call
  fchown : ℤ → ℕ → ℕ → Call
  fchownat : ℤ → Bytes → ℕ → ℕ → ℕ → Call
  ftruncate : ℤ → ℕ → Call
  pread : ℤ → ℕ → ℕ → Call
  pwrite : ℤ → Bytes → ℕ → Call
  close : ℤ → Call
  fstatvfs : ℤ → Call
  open_dir : Bytes → ℕ → Call

-- The result with what the call has written for the caller; or -1, and errno.
pub data Reply : Type 0 where
  done : ℕ → Bytes → Reply
  fail : ℕ → Reply

pub Reply-cases :
    (r : Reply) → ((e : ℕ) × (r ≡ fail e)) ⊎ ((n : ℕ) × (out : Bytes) × (r ≡ done n out))
Reply-cases (fail e) = inl (e, refl)
Reply-cases (done n out) = inr (n, out, refl)

pub done-ne-fail : (n e : ℕ) (out : Bytes) → done n out ≢ fail e
done-ne-fail n e out h = cc

pub record Kernel : Type 1 where
  pub World : Type 0
  pub run : Call → World → Reply × World

-- Error numbers are positive.
pub record IsPosix (os : Kernel) : Type 0 where
  pub errno_pos : (call : Call) (w : os.World) (e : ℕ) → (os.run call w).0 ≡ fail e → 0 < e

-- Flags, by their values on Linux.
abbrev pub open_flags : ℕ
open_flags = 0x210000

abbrev pub o_wronly : ℕ
o_wronly = 1

abbrev pub at_symlink_nofollow : ℕ
at_symlink_nofollow = 0x100

abbrev pub at_removedir : ℕ
at_removedir = 0x200

abbrev pub at_empty_path : ℕ
at_empty_path = 0x1000

abbrev pub rename_noreplace : ℕ
rename_noreplace = 1

abbrev pub rename_exchange : ℕ
rename_exchange = 2
