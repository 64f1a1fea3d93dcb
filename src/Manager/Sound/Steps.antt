-- ===== src/Manager/Sound/Steps.antt =====
-- The calls that a client makes of the manager (src/usvfsmanager.cpp), one after the other.
use usvfs_fuse.Base.{
  ℕ, ℤ, Bool, true, false, not, if◌then◌else◌, List, [], ◌∷◌, ◌++◌, Bytes, ◌≡◌, ◌≢◌, refl, sym,
  subst, is_empty_bytes, Bool-cases, inl, inr, ◌⊎◌,
}
use usvfs_fuse.Utils.{Icu}
use usvfs_fuse.Utils.Case.{IsAscii}
use usvfs_fuse.Tree.Find.{strip_slash}
use usvfs_fuse.Tree.Add.Walk.{IsClean}
use usvfs_fuse.Tree.Sound.{IsSound}
use usvfs_fuse.Kernel.{Kernel, open_dir, open_flags, Reply-cases}
use usvfs_fuse.Mount.{MountState}
use usvfs_fuse.Manager.{UsvfsManager, usvfs_clear_virtual_mappings}
use usvfs_fuse.Manager.Link.{
  Disk, answered, usvfs_virtual_link_file, usvfs_virtual_link_directory_static,
}
use usvfs_fuse.Manager.Mounting.{
  Host, mount_process, run_fuse, mount_one, mount_all, mount_pending, mount_internal,
  with_upper_dir, unmount,
}
use usvfs_fuse.Manager.Sound.{AllSound, IsSoundManager, IsPlainDisk, AllSound-append, LinkedSound}
use usvfs_fuse.Manager.Sound.Links.{directory-LinkedSound, file-LinkedSound}

-- What a mounting call leaves.
record LeavesSound {W : Type 0} (r : Bool × UsvfsManager × W) : Type 0 where
  pub sound : IsSoundManager r.1

AllSound-snoc :
    (ss : List MountState) (s : MountState)
    → AllSound ss
    → IsSound s.file_tree
    → AllSound (ss ++ (s ∷ []))
AllSound-snoc ss s all x = AllSound-append ss (s ∷ []) all (x, tt)

mounts_cases :
    (ss : List MountState) → (ss ≡ []) ⊎ ((t : MountState) × (ts : List MountState) × (ss ≡ t ∷ ts))
mounts_cases [] = inl refl
mounts_cases (t ∷ ts) = inr (t, ts, refl)

module _ {W : Type 0} (host : Host W) where
  kept : (m : UsvfsManager) {b : Bool} {w : W} → IsSoundManager m → LeavesSound (b, m, w)
  kept m sound = record { sound = sound }

  emptied :
      (m : UsvfsManager) {b : Bool} {w : W}
      → IsSoundManager m
      → LeavesSound (b, record m { mounts = [] }, w)
  emptied m sound = record { sound = (sound.0, tt) }

  grown :
      (m : UsvfsManager) (s : MountState) {b : Bool} {w : W} (fd pid_fd : ℤ)
      → IsSoundManager m
      → IsSound s.file_tree
      → LeavesSound (
        b,
        record m { ns_pid_fd = fd; mounts = m.mounts ++ (record s { pid_fd = pid_fd } ∷ []) },
        w,
      )
  grown m s fd pid_fd sound x = record { sound = (sound.0, AllSound-snoc m.mounts _ sound.1 x) }

  grown_by :
      (m : UsvfsManager) (s : MountState) {b : Bool} {w : W}
      → IsSoundManager m
      → IsSound s.file_tree
      → LeavesSound (b, record m { mounts = m.mounts ++ (s ∷ []) }, w)
  grown_by m s sound x = record { sound = (sound.0, AllSound-snoc m.mounts s sound.1 x) }

  if-LeavesSound :
      (b : Bool) {x y : Bool × UsvfsManager × W}
      → LeavesSound x
      → LeavesSound y
      → LeavesSound (if b then x else y)
  if-LeavesSound true p q = p
  if-LeavesSound false p q = q

  mount_process-LeavesSound :
      (m : UsvfsManager) (s : MountState) (w : W)
      → IsSoundManager m
      → IsSound s.file_tree
      → LeavesSound (mount_process host m s w)
  unfolding mount_process
  mount_process-LeavesSound m s w sound x = search (if-LeavesSound, kept, grown)

  run_fuse-LeavesSound :
      (m : UsvfsManager) (s : MountState) (w : W)
      → IsSoundManager m
      → IsSound s.file_tree
      → LeavesSound (run_fuse host m s w)
  unfolding run_fuse
  run_fuse-LeavesSound m s w sound x = search (if-LeavesSound, kept, grown_by)

  mount_one-LeavesSound :
      (m : UsvfsManager) (s : MountState) (w : W)
      → IsSoundManager m
      → IsSound s.file_tree
      → LeavesSound (mount_one host m s w)
  unfolding mount_one
  mount_one-LeavesSound m s w sound x =
      if-LeavesSound m.use_mount_namespace (mount_process-LeavesSound m s w sound x)
        (run_fuse-LeavesSound m s w sound x)

  mount_all-LeavesSound :
      (prepare : MountState → MountState) (ss : List MountState) (m : UsvfsManager) (w : W)
      → ((s : MountState) → (prepare s).file_tree ≡ s.file_tree)
      → IsSoundManager m
      → AllSound ss
      → LeavesSound (mount_all host prepare ss m w)
  unfolding mount_all
  mount_all-LeavesSound prepare [] m w same sound all = kept m sound
  mount_all-LeavesSound prepare (s ∷ ss) m w same sound (x, all) =
      let one = mount_one-LeavesSound m (prepare s) w sound (subst IsSound (sym (same s)) x) in
      if-LeavesSound (not (mount_one host m (prepare s) w).0)
        (kept (mount_one host m (prepare s) w).1 one.sound)
        (mount_all-LeavesSound prepare ss (mount_one host m (prepare s) w).1
          (mount_one host m (prepare s) w).2 same one.sound all)

  unmount-LeavesSound :
      (m : UsvfsManager) (w : W) → IsSoundManager m → LeavesSound (unmount host m w)
  unfolding unmount
  unmount-LeavesSound m w sound = elim (mounts_cases m.mounts) [
    | inl h ↦ rw (h, unmount) (kept m sound)
    | inr (t, ts, h) ↦ rw (h, unmount) (search (if-LeavesSound, kept, emptied))
  ]

module _ (icu : Icu) (os : Kernel) (disk : Disk os.World) (host : Host os.World) where
  open os use {World, run}

  mount_internal-LeavesSound :
      (m : UsvfsManager) (w : World)
      → IsSoundManager m
      → LeavesSound (mount_internal icu os host m w)
  unfolding mount_internal mount_pending
  mount_internal-LeavesSound m w sound =
      let taken = record m { pending_mounts = [] } in
      elim (mounts_cases m.pending_mounts) [
        | inl h ↦ rw (h, mount_internal, mount_pending) (kept host m sound)
        | inr (t, ts, h) ↦ elim (Bool-cases (is_empty_bytes m.upper_dir)) [
          | inl e ↦
              rw (h, mount_internal, mount_pending, e)
                (mount_all-LeavesSound host (λ s. s) (t ∷ ts) taken w (λ s. refl) (tt, sound.1)
                  (subst AllSound h sound.0))
          | inr e ↦ elim (Reply-cases (run (open_dir m.upper_dir open_flags) w).0) [
            | inl (k, f) ↦
                rw (h, mount_internal, mount_pending, e, f) (kept host taken (tt, sound.1))
            | inr (fd, out, f) ↦
                rw (h, mount_internal, mount_pending, e, f)
                  (mount_all-LeavesSound host (with_upper_dir icu os host m.upper_dir fd) (t ∷ ts)
                    taken _ (λ s. refl) (tt, sound.1) (subst AllSound h sound.0))
          ]
        ]
      ]

  -- The manager comes from one state to another by links whose files and directories have plain
  -- names, by mounting and unmounting, and by forgetting what is pending. Between the calls the
  -- machine may change.
  pub data Manages (m : UsvfsManager) : UsvfsManager → Type 0 where
    start : Manages m m
    links_file :
        {m' m'' : UsvfsManager} (source destination : Bytes) (b : Bool) (w w' : World)
        → Manages m m'
        → IsAscii (disk.filename destination)
        → IsClean (strip_slash (disk.filename destination))
        → source ≢ []
        → usvfs_virtual_link_file icu os disk source destination m' w ≡ answered b m'' w'
        → Manages m m''
    links_directory :
        {m' m'' : UsvfsManager} (source destination : Bytes) (flags : ℕ) (b : Bool) (w w' : World)
        → Manages m m'
        → usvfs_virtual_link_directory_static icu os disk source destination flags m' w
          ≡ answered b m'' w'
        → Manages m m''
    mounts :
        {m' : UsvfsManager} (w : World)
        → Manages m m'
        → Manages m (mount_internal icu os host m' w).1
    unmounts : {m' : UsvfsManager} (w : World) → Manages m m' → Manages m (unmount host m' w).1
    clears : {m' : UsvfsManager} → Manages m m' → Manages m (usvfs_clear_virtual_mappings m')

  -- Where all trees of mounts, pending and active ones, are sound, they are so in every state that the
  -- manager comes to, whatever the machine answers: by links that do not end the program (of files,
  -- with a source that is not empty and an ASCII name at the destination without empty parts), by
  -- mounting, unmounting, and forgetting what is pending. The walks over directories are taken to
  -- give ASCII relative paths without empty names, and full paths that are not empty.
  pub Manages-IsSoundManager :
      (m m' : UsvfsManager) → IsPlainDisk disk → IsSoundManager m → Manages m m' → IsSoundManager m'
  Manages-IsSoundManager m _ plain sound start = sound
  Manages-IsSoundManager m _ plain sound
        (links_file {m'} source destination b w w' before ascii clean given h) =
      subst LinkedSound h (
        file-LinkedSound icu os disk source destination m' w ascii clean given plain
          (Manages-IsSoundManager m m' plain sound before))
  Manages-IsSoundManager m _ plain sound
        (links_directory {m'} source destination flags b w w' before h) =
      subst LinkedSound h (
        directory-LinkedSound icu os disk source destination flags m' w plain
          (Manages-IsSoundManager m m' plain sound before))
  Manages-IsSoundManager m _ plain sound (mounts {m'} w before) =
      (mount_internal-LeavesSound m' w (Manages-IsSoundManager m m' plain sound before)).sound
  Manages-IsSoundManager m _ plain sound (unmounts {m'} w before) =
      (unmount-LeavesSound host m' w (Manages-IsSoundManager m m' plain sound before)).sound
  Manages-IsSoundManager m _ plain sound (clears {m'} before) =
      (tt, (Manages-IsSoundManager m m' plain sound before).1)
