-- ===== src/Fuse/Bounds.antt =====
-- What `usvfs_readlink` (src/usvfs.cpp) writes into the caller's buffer.
use usvfs_fuse.Base.{ℕ, ◌<◌, ℤ, pos, [], ◌∷◌, ◌++◌, Bytes, take, ◌≡◌}
use usvfs_fuse.Utils.{Icu}
use usvfs_fuse.Kernel.{Kernel, IsPosix, done, readlinkat}
use usvfs_fuse.Mount.{Outcome, returns, broken}

-- Every link that the machine reads fills a buffer of this size.
abbrev pub FillsBuffer : (os : Kernel) → ℕ → os.World → Type 0
FillsBuffer os size w =
    (fd : ℤ) (name : Bytes)
    → (out : Bytes) × ((os.run (readlinkat fd name size) w).0 ≡ done size out)

-- What was read of a link, and the zero, which are in the buffer.
abbrev pub IsTarget : (os : Kernel) → ℕ → os.World → Bytes → Type 0
IsTarget os size w written =
    (fd : ℤ) × (name : Bytes) × (n : ℕ) × (out : Bytes) × ((os.run (readlinkat fd name size) w).0
      ≡ done n out)
    × (n < size)
    × (written ≡ take n out ++ (0 ∷ []))

module _ (icu : Icu) (os : Kernel) (posix : IsPosix os) (size : ℕ) where
  open os use {World, run}

  -- An answer of 0 is of a target in the buffer; and where every link fills it there is none.
  record Writes (w : World) (o : Outcome World) : Type 0 where
    pub target : o.status ≡ returns (pos 0) → IsTarget os size w o.out
    pub too_long : FillsBuffer os size w → o.status ≡ broken
