-- ===== src/Fuse/Safety/Reads.antt =====
-- The handlers of src/usvfs.cpp that leave the tree alone.
use usvfs_fuse.Base.{
  ℕ, ℤ, pos, Option, some, Bytes, Option-cases, Bool-cases, inl, inr, ◌<◌, ltb, ◌≡◌, ◌≢◌, false,
  arith,
}
use usvfs_fuse.Utils.{Icu}
use usvfs_fuse.Tree.Sound.{IsSound}
use usvfs_fuse.Kernel.{Kernel, Call, done, readlinkat, Reply-cases}
use usvfs_fuse.Mount.{MountState, FileInfo, Context, Outcome, broken, open_handle, ended, sys}
use usvfs_fuse.Fuse.Attr.{
  on_handle, result_of, link_target, keeping, usvfs_getattr, usvfs_chmod, usvfs_chown,
  usvfs_truncate, usvfs_statfs,
}
use usvfs_fuse.Fuse.Io
use usvfs_fuse.Fuse.Io.{transfer, closing, usvfs_open, usvfs_read, usvfs_write}
use usvfs_fuse.Fuse.Safety.{
  IsSafe, if-IsSafe, IsSoundMount, answered-IsSafe, filled-IsSafe, with_state-IsSafe, sys-IsSafe,
  with_item-IsSafe,
}

-- Every link of the machine is shorter than the buffer that it is read into, so that there is room for
-- the zero.
abbrev pub LeavesRoom : (os : Kernel) → ℕ → os.World → Type 0
LeavesRoom os size w =
    (fd : ℤ) (name : Bytes) (n : ℕ) (out : Bytes)
    → (os.run (readlinkat fd name size) w).0 ≡ done n out
    → n < size

-- The handler leaves a sound mount, and has ended as it should if there is room.
pub record IsReadSafe {W : Type 0} (room : Type 0) (o : Outcome W) : Type 0 where
  pub not_broken : room → o.status ≢ broken
  pub sound : IsSoundMount o.context.mount

pub safe-IsReadSafe : {W : Type 0} (room : Type 0) {o : Outcome W} → IsSafe o → IsReadSafe room o
safe-IsReadSafe room safe = record { not_broken = λ _. safe.not_broken; sound = safe.sound }

module _ (icu : Icu) (os : Kernel) where
  open os use {World, run}

  on_handle-IsSafe :
      (call : Call) (c : Context World) (info : Option FileInfo)
      → IsSoundMount c.mount
      → IsSafe (on_handle icu os call c info)
  unfolding on_handle
  on_handle-IsSafe call c info sound = elim (Reply-cases (run call c.world).0) [
    | inl (e, h) ↦ rw (h, on_handle) (answered-IsSafe _ sound)
    | inr (n, out, h) ↦ rw (h, on_handle) (answered-IsSafe _ sound)
  ]

  result_of-IsSafe :
      (call : Call) (m : MountState) (w : World)
      → IsSound m.file_tree
      → IsSafe (result_of icu os call m w)
  unfolding result_of
  result_of-IsSafe call m w sound =
      sys-IsSafe os call m w (λ n out w'. record (ended (pos 0) m w') { out = out }) sound
        (λ n out w'. answered-IsSafe (pos 0) sound)

  pub link_target-IsReadSafe :
      (fd : ℤ) (name : Bytes) (size : ℕ) (m : MountState) (w : World)
      → IsSound m.file_tree
      → IsReadSafe (LeavesRoom os size w) (link_target icu os (readlinkat fd name size) size m w)
  unfolding link_target
  link_target-IsReadSafe fd name size m w sound =
      elim (Reply-cases (run (readlinkat fd name size) w).0) [
        | inl (e, h) ↦ rw (h, link_target, sys) (safe-IsReadSafe _ (answered-IsSafe _ sound))
        | inr (n, out, h) ↦ elim (Bool-cases (ltb n size)) [
          | inl fits ↦ rw (h, link_target, sys, fits) (safe-IsReadSafe _ (answered-IsSafe _ sound))
          | inr full ↦
              rw (h, link_target, sys, full)
                (record { not_broken = λ room. absurd (late n out full room h); sound = sound })
        ]
      ]
    where
      late :
          (n : ℕ) (out : Bytes)
          → ltb n size ≡ false
          → LeavesRoom os size w
          → (run (readlinkat fd name size) w).0 ≡ done n out
          → ⊥
      late n out full room h = ground (arith, room fd name n out h)

  keeping-IsSafe :
      (info : Option FileInfo) (o : Outcome World) → IsSafe o → IsSafe (keeping icu os info o)
  unfolding keeping
  keeping-IsSafe info o safe = filled-IsSafe o o.out info safe

  pub usvfs_getattr-IsSafe :
      (path : Bytes) (info : Option FileInfo) (c : Context World)
      → IsSoundMount c.mount
      → IsSafe (usvfs_getattr icu os path info c)
  unfolding usvfs_getattr
  usvfs_getattr-IsSafe path info c sound = elim (Option-cases (open_handle info)) [
    | inr (h, e) ↦ rw (e, usvfs_getattr) (on_handle-IsSafe _ c info sound)
    | inl e ↦
        rw (e, usvfs_getattr)
          (search
            (keeping-IsSafe, with_state-IsSafe, with_item-IsSafe, if-IsSafe, result_of-IsSafe))
  ]

  pub usvfs_chmod-IsSafe :
      (path : Bytes) (mode : ℕ) (info : Option FileInfo) (c : Context World)
      → IsSoundMount c.mount
      → IsSafe (usvfs_chmod icu os path mode info c)
  unfolding usvfs_chmod
  usvfs_chmod-IsSafe path mode info c sound = elim (Option-cases (open_handle info)) [
    | inr (h, e) ↦ rw (e, usvfs_chmod) (on_handle-IsSafe _ c info sound)
    | inl e ↦
        rw (e, usvfs_chmod)
          (search (keeping-IsSafe, with_state-IsSafe, with_item-IsSafe, result_of-IsSafe))
  ]

  pub usvfs_chown-IsSafe :
      (path : Bytes) (uid gid : ℕ) (info : Option FileInfo) (c : Context World)
      → IsSoundMount c.mount
      → IsSafe (usvfs_chown icu os path uid gid info c)
  unfolding usvfs_chown
  usvfs_chown-IsSafe path uid gid info c sound = elim (Option-cases (open_handle info)) [
    | inr (h, e) ↦ rw (e, usvfs_chown) (on_handle-IsSafe _ c info sound)
    | inl e ↦
        rw (e, usvfs_chown)
          (search (keeping-IsSafe, with_state-IsSafe, with_item-IsSafe, result_of-IsSafe))
  ]

  pub usvfs_truncate-IsSafe :
      (path : Bytes) (size : ℕ) (info : Option FileInfo) (c : Context World)
      → IsSoundMount c.mount
      → IsSafe (usvfs_truncate icu os path size info c)
  unfolding usvfs_truncate
  usvfs_truncate-IsSafe path size info c sound = elim (Option-cases (open_handle info)) [
    | inr (h, e) ↦ rw (e, usvfs_truncate) (on_handle-IsSafe _ c info sound)
    | inl e ↦
        rw (e, usvfs_truncate)
          (search
            (keeping-IsSafe, with_state-IsSafe, with_item-IsSafe, sys-IsSafe, result_of-IsSafe))
  ]

  pub usvfs_statfs-IsSafe :
      (path : Bytes) (c : Context World)
      → IsSoundMount c.mount
      → IsSafe (usvfs_statfs icu os path c)
  unfolding usvfs_statfs
  usvfs_statfs-IsSafe path c sound = search (with_state-IsSafe, result_of-IsSafe)

  Io_keeping-IsSafe :
      (fi : FileInfo) (o : Outcome World) → IsSafe o → IsSafe (Io.keeping icu os fi o)
  unfolding Io.keeping
  Io_keeping-IsSafe fi o safe = elim (Option-cases o.info) [
    | inl e ↦ rw (e, Io.keeping) (filled-IsSafe o o.out (some fi) safe)
    | inr (i, e) ↦ rw (e, Io.keeping) safe
  ]

  pub usvfs_open-IsSafe :
      (path : Bytes) (fi : FileInfo) (c : Context World)
      → IsSoundMount c.mount
      → IsSafe (usvfs_open icu os path fi c)
  unfolding usvfs_open
  usvfs_open-IsSafe path fi c sound =
      search (Io_keeping-IsSafe, with_state-IsSafe, with_item-IsSafe, sys-IsSafe, answered-IsSafe)

  transfer-IsSafe :
      (call : Call) (fi : FileInfo) (c : Context World)
      → IsSoundMount c.mount
      → IsSafe (transfer icu os call fi c)
  unfolding transfer
  transfer-IsSafe call fi c sound = elim (Reply-cases (run call c.world).0) [
    | inl (e, h) ↦ rw (h, transfer) (answered-IsSafe _ sound)
    | inr (n, out, h) ↦ rw (h, transfer) (answered-IsSafe _ sound)
  ]

  pub usvfs_read-IsSafe :
      (path : Bytes) (size offset : ℕ) (fi : FileInfo) (c : Context World)
      → IsSoundMount c.mount
      → IsSafe (usvfs_read icu os path size offset fi c)
  unfolding usvfs_read
  usvfs_read-IsSafe path size offset fi c sound = transfer-IsSafe _ fi c sound

  pub usvfs_write-IsSafe :
      (path buf : Bytes) (offset : ℕ) (fi : FileInfo) (c : Context World)
      → IsSoundMount c.mount
      → IsSafe (usvfs_write icu os path buf offset fi c)
  unfolding usvfs_write
  usvfs_write-IsSafe path buf offset fi c sound = transfer-IsSafe _ fi c sound

  pub closing-IsSafe :
      (info : Option FileInfo) (c : Context World)
      → IsSoundMount c.mount
      → IsSafe (closing icu os info c)
  unfolding closing
  closing-IsSafe info c sound = elim (Option-cases (open_handle info)) [
    | inl e ↦ rw (e, closing) (answered-IsSafe _ sound)
    | inr (h, e) ↦ rw (e, closing) (answered-IsSafe _ sound)
  ]
