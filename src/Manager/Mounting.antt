-- ===== src/Manager/Mounting.antt =====
-- `mountInternal`, `run_fuse`, `unmount` and `anyProcessRunning` (src/usvfsmanager.cpp). The
-- detached thread of `run_fuse` is taken up to its report, for which `mountInternal` waits; what the
-- mounted file systems do then are the handlers.
pub mod Effect
pub mod Ending
pub mod Stuck
use usvfs_fuse.Base.{
  ℕ, ℤ, pos, negsuc, Bool, true, false, not, ◌&&◌, ◌||◌, ◌==◌, is_minus_one, List, [], ◌∷◌, ◌++◌,
  if◌then◌else◌, Bytes, is_empty_bytes,
}
use usvfs_fuse.Utils.{Icu}
use usvfs_fuse.FdMap.{assign}
use usvfs_fuse.Kernel.{Kernel, Call, Reply, done, fail, open_dir, open_flags}
use usvfs_fuse.Mount.{MountState}
use usvfs_fuse.Manager.{UsvfsManager}

-- The calls by which mounts are made and ended. A Boolean says whether the call has succeeded.
-- `clone` is told whether it makes new namespaces, and has the result and the descriptor of the
-- process; `wait_now` is `waitid` with WNOHANG, and has `si_code`; `wait_process` is `waitpid` with
-- WNOHANG.
pub record Host (W : Type 0) : Type 0 where
  pub map_stack : W → Bool × W
  pub clone : Bool → MountState → W → ℤ × ℤ × W
  pub poll : ℤ → W → ℤ × W
  pub errno : W → ℕ
  pub wait_now : ℤ → W → Bool × ℕ × W
  pub fuse_new : MountState → W → Bool × W
  pub fuse_mount : MountState → W → Bool × W
  pub send_interrupt : ℤ → W → Bool × W
  pub wait_exit : ℤ → W → Bool × W
  pub fuse_unmount : MountState → W → W
  pub wait_process : ℕ → W → ℤ × W

abbrev eagain : ℕ
eagain = 11

abbrev is_one : ℤ → Bool
is_one (pos n) = n == 1
is_one (negsuc n) = false

abbrev is_positive : ℤ → Bool
is_positive (pos n) = not (n == 0)
is_positive (negsuc n) = false

abbrev add_mount : UsvfsManager → MountState → UsvfsManager
add_mount m s = record m { mounts = m.mounts ++ (s ∷ []) }

module _ {W : Type 0} (host : Host W) where
  -- Whether the child has not failed so far.
  unfoldable pub child_runs : ℤ → W → Bool × W
  child_runs pid_fd w =
      let p = host.poll pid_fd w in
      if is_minus_one p.0
      then (false, p.1)
      else if is_one p.0
      then (let waited = host.wait_now pid_fd p.1 in
          if not waited.0 && not (host.errno p.1 == eagain)
          then (false, waited.2)
          else (waited.1 == 0, waited.2))
      else (true, p.1)

  -- A mount in a process of its own; the first one makes the namespaces.
  unfoldable pub mount_process : UsvfsManager → MountState → W → Bool × UsvfsManager × W
  mount_process m s w =
      let mapped = host.map_stack w in
      if not mapped.0
      then (false, m, mapped.1)
      else let cloned = host.clone (is_minus_one m.ns_pid_fd) s mapped.1 in
        if is_minus_one cloned.1 || is_minus_one cloned.0
        then (false, m, cloned.2)
        else let runs = child_runs cloned.1 cloned.2 in
          if not runs.0 then (false, m, runs.1) else (
            true,
            add_mount
                (record m {
                  ns_pid_fd = if is_minus_one m.ns_pid_fd then cloned.1 else m.ns_pid_fd;
                })
                (record s { pid_fd = cloned.1 }),
            runs.1,
          )

  -- A mount in a thread: `run_fuse` up to its report.
  unfoldable pub run_fuse : UsvfsManager → MountState → W → Bool × UsvfsManager × W
  run_fuse m s w =
      let made = host.fuse_new s w in
      if not made.0
      then (false, m, made.1)
      else let mounted = host.fuse_mount s made.1 in
        if not mounted.0 then (false, m, mounted.1) else (true, add_mount m s, mounted.1)

  unfoldable pub mount_one : UsvfsManager → MountState → W → Bool × UsvfsManager × W
  mount_one m s w = if m.use_mount_namespace then mount_process m s w else run_fuse m s w

  -- The loop over the mounts that were pending. `prepare` sets the upper directory.
  unfoldable pub mount_all :
      (MountState → MountState) → List MountState → UsvfsManager → W → Bool × UsvfsManager × W
  mount_all prepare [] m w = (true, m, w)
  mount_all prepare (s ∷ ss) m w =
      let r = mount_one m (prepare s) w in
      let rest = mount_all prepare ss r.1 r.2 in if not r.0 then (false, r.1, r.2) else rest

  -- `any_of` stops at the first process that has ended.
  unfoldable pub any_process_running : List ℕ → W → Bool × W
  any_process_running [] w = (false, w)
  any_process_running (pid ∷ pids) w =
      let r = host.wait_process pid w in
      let rest = any_process_running pids r.1 in if is_positive r.0 then (true, r.1) else rest

  unfoldable pub unmount_all : Bool → List MountState → W → Bool × W
  unmount_all in_namespace [] w = (true, w)
  unmount_all in_namespace (s ∷ ss) w =
      let sent = host.send_interrupt s.pid_fd w in
      let waited = host.wait_exit s.pid_fd sent.1 in
      let rest_of_processes = unmount_all in_namespace ss waited.1 in
      let rest_of_threads = unmount_all in_namespace ss (host.fuse_unmount s w) in
      if in_namespace
      then if is_minus_one s.pid_fd
        then (false, w)
        else if not sent.0
        then (false, sent.1)
        else if not waited.0
        then (false, waited.1)
        else rest_of_processes
      else rest_of_threads

  unfoldable pub unmount : UsvfsManager → W → Bool × UsvfsManager × W
  unmount m w = elim m.mounts [
    | [] ↦ (true, m, w)
    | s ∷ ss ↦
        let running = any_process_running m.spawned_processes w in
        if running.0
        then (false, m, running.1)
        else let done = unmount_all m.use_mount_namespace (s ∷ ss) running.1 in
          if done.0 then (true, record m { mounts = [] }, done.1) else (false, m, done.1)
  ]

  -- What the destructor of the manager leaves of the machine; the answer is not asked for.
  abbrev pub destroy : UsvfsManager → W → W
  destroy m w = (unmount m w).2

module _ (icu : Icu) (os : Kernel) (host : Host os.World) where
  open os use {World, run}

  -- With the upper directory and its descriptor.
  abbrev pub with_upper_dir : Bytes → ℕ → MountState → MountState
  with_upper_dir upper fd s = record s {
    upper_dir = upper;
    fd_map = assign icu s.fd_map upper (pos fd);
  }

  -- With the list that is taken out of the manager.
  unfoldable pub mount_pending :
      UsvfsManager → List MountState → World → Bool × UsvfsManager × World
  mount_pending m [] w = (true, m, w)
  mount_pending m (s ∷ ss) w =
      let taken = record m { pending_mounts = [] } in
      let r = run (open_dir m.upper_dir open_flags) w in
      if is_empty_bytes m.upper_dir then mount_all host (λ t. t) (s ∷ ss) taken w else elim r.0 [
        | fail e ↦ (false, taken, r.1)
        | done fd out ↦ mount_all host (with_upper_dir m.upper_dir fd) (s ∷ ss) taken r.1
      ]

  unfoldable pub mount_internal : UsvfsManager → World → Bool × UsvfsManager × World
  mount_internal m w = mount_pending m m.pending_mounts w

  -- `mount`
  abbrev pub mount : UsvfsManager → World → Bool × UsvfsManager × World
  mount m w = mount_internal m w
