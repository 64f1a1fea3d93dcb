-- ===== src/Mount.antt =====
-- src/mountstate.h, and what a handler works with: the mount that `getState` finds, if any, and the
-- machine.
use usvfs_fuse.Base.{ℕ, ℤ, neg, Option, none, some, Bytes, [], ◌∷◌, ltb, eio, if◌then◌else◌}
use usvfs_fuse.Tree.Item.{Item}
use usvfs_fuse.FdMap.{FdMap}
use usvfs_fuse.Kernel.{Kernel, Call, done, fail, close}

-- `MountState`: what the handlers use of it, and the process of the mount, -1 if it has none.
pub record MountState : Type 0 where
  pub upper_dir : Bytes
  pub mountpoint : Bytes
  pub file_tree : Item
  pub fd_map : FdMap
  pub pid_fd : ℤ

-- `fuse_file_info`, as far as the handlers use it.
pub record FileInfo : Type 0 where
  pub fh : ℕ
  pub flags : ℕ

pub record Context (W : Type 0) : Type 0 where
  pub mount : Option MountState
  pub world : W

-- `broken`: a null pointer was left in the file tree, or the program has ended or gone on with
-- undefined behaviour.
pub data Status : Type 0 where
  returns : ℤ → Status
  broken : Status

-- The returned number, the bytes written for the caller, the caller's `fuse_file_info` if it gave
-- one, and the mount and the machine afterwards.
pub record Outcome (W : Type 0) : Type 0 where
  pub status : Status
  pub out : Bytes
  pub info : Option FileInfo
  pub context : Context W

-- `fi != nullptr && fi->fh > 0`
abbrev pub open_handle : Option FileInfo → Option ℕ
open_handle none = none
open_handle (some i) = if ltb 0 i.fh then some i.fh else none

module _ {W : Type 0} where
  abbrev pub outcome : Status → MountState → W → Outcome W
  outcome s m w = record {
    status = s;
    out = [];
    info = none;
    context = record { mount = some m; world = w };
  }

  abbrev pub ended : ℤ → MountState → W → Outcome W
  ended code m w = outcome (returns code) m w

-- `GET_STATE`
abbrev pub with_state : {W : Type 0} → Context W → (MountState → W → Outcome W) → Outcome W
with_state c k = elim c.mount [
  | none ↦ record { status = returns (neg eio); out = []; info = none; context = c }
  | some m ↦ k m c.world
]

module _ (os : Kernel) where
  -- A system call. On failure the handler returns the negated errno.
  abbrev pub sys :
      Call → MountState → os.World → (ℕ → Bytes → os.World → Outcome os.World) → Outcome os.World
  sys call m w k = elim (os.run call w).0 [
    | fail e ↦ ended (neg e) m (os.run call w).1
    | done n out ↦ k n out (os.run call w).1
  ]

  -- The loop of the destructor: every descriptor of the map is closed. What `close` answers is not
  -- asked for.
  unfoldable pub close_all : FdMap → os.World → os.World
  close_all [] w = w
  close_all ((path, fd) ∷ fds) w = close_all fds (os.run (close fd) w).1
