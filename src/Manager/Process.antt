-- ===== src/Manager/Process.antt =====
-- `usvfsCreateProcessHooked` (src/usvfsmanager.cpp). `fork` comes back in two processes: in the child
-- its reply is 0. What a text that is put into the environment is later, when the program is
-- replaced, is the machine's; the source frees one of them before that.
pub mod Effect
use usvfs_fuse.Base.{
  ℕ, zero, suc, ◌+◌, ◌-◌, ◌%◌, ◌^◌, ℤ, pos, negsuc, Bool, true, false, not, ◌&&◌, ◌||◌, ◌==◌, ltb,
  is_minus_one, Option, none, some, if◌then◌else◌, List, [], ◌∷◌, ◌++◌, Bytes, bytes, same, length,
  take, drop,
}
use usvfs_fuse.Utils.{Icu}
use usvfs_fuse.Kernel.{Kernel, Reply, done, fail}
use usvfs_fuse.Manager.{UsvfsManager, libraries_to_force_load}
use usvfs_fuse.Manager.Mounting.{Host, mount_internal}

-- The calls of the two processes. `exec_shell` comes back only where it fails; `read_error` answers
-- with the number of bytes.
pub data ProcessCall : Type 0 where
  fork : ProcessCall
  close_end : ℕ → ProcessCall
  set_cloexec : ℕ → ProcessCall
  set_namespaces : ℤ → ProcessCall
  change_dir : Bytes → ProcessCall
  put_env : Bytes → ProcessCall
  exec_shell : Bytes → ProcessCall
  write_error : ℕ → ℕ → ProcessCall
  read_error : ℕ → ProcessCall

-- `pipe` has the read end and the write end.
pub record Processes (W : Type 0) : Type 0 where
  pub pipe : W → Option (ℕ × ℕ) × W
  pub run : ProcessCall → W → Reply × W

-- How the call ends in the process at hand: it returns, the program is replaced by the shell, the
-- process exits, or an exception leaves the `noexcept` function.
pub data End : Type 0 where
  answers : ℤ → End
  replaced : Bytes → End
  exits : ℕ → End
  aborts : End

-- `contains`
abbrev pub contains : Bytes → List Bytes → Bool
contains s [] = false
contains s (x ∷ xs) = same s x || contains s xs

-- `find_first_of(' ')`
unfoldable pub find_space : Bytes → Option ℕ
find_space [] = none
find_space (c ∷ s) = elim (c == 32) [
  | true ↦ some 0
  | false ↦ elim (find_space s) [ none ↦ none | some p ↦ some (suc p) ]
]

-- A position as `size_t`, `npos` if there is none; and one less, which wraps around.
abbrev pub as_size : Option ℕ → ℕ
as_size none = 2 ^ 64 - 1
as_size (some p) = p

abbrev pub one_less : ℕ → ℕ
one_less n = (n + (2 ^ 64 - 1)) % 2 ^ 64

-- `substr`, which throws behind the end.
abbrev pub substr : Bytes → ℕ → ℕ → Option Bytes
substr s at count = if ltb (length s) at then none else some (take count (drop at s))

-- The name of the process, from the arguments of wine or proton.
unfoldable pub process_name : Bool → Bytes → Option Bytes
process_name wine arg =
    let first_space = as_size (find_space arg) in
    if wine
    then substr arg 0 (one_less first_space)
    else substr arg first_space (one_less first_space)

abbrev pub has_suffix : Bytes → Bytes → Bool
has_suffix s suffix =
    if ltb (length s) (length suffix)
    then false
    else same (drop (length s - length suffix) s) suffix

abbrev pub is_wine : Bytes → Bool
is_wine file =
    has_suffix file (bytes "wine")
    || has_suffix file (bytes "wine-staging")
    || has_suffix file (bytes "wine64")
    || has_suffix file (bytes "wine64-staging")

abbrev pub is_proton : Bytes → Bool
is_proton file = has_suffix file (bytes "proton")

-- The loop over the libraries, and the last one.
unfoldable pub overrides : List Bytes → Bytes
overrides [] = []
overrides (l ∷ []) = l ++ bytes "=n,b\""
overrides (l ∷ m ∷ ls) = l ++ (bytes "=n,b;" ++ overrides (m ∷ ls))

abbrev pub command : Bytes → Bytes → Bytes
command file arg = bytes "'" ++ (file ++ (bytes "' " ++ arg))

module _ {W : Type 0} (icu : Icu) (processes : Processes W) where
  open processes use {pipe, run}

  unfoldable pub put_all : List Bytes → W → W
  put_all [] w = w
  put_all (e ∷ es) w = put_all es (run (put_env e) w).1

  -- The overrides of wine's libraries, where there are any for the process.
  unfoldable pub put_overrides : UsvfsManager → Bytes → W → W
  put_overrides m name w = elim (libraries_to_force_load icu name m.force_load_libraries) [
    | [] ↦ w
    | l ∷ ls ↦ (run (put_env (bytes "WINEDLLOVERRIDES=\"" ++ overrides (l ∷ ls))) w).1
  ]

  -- From the environment of the caller on.
  unfoldable pub child_exec : Bytes → Option (List Bytes) → ℕ → W → End × W
  child_exec cmd env write_end w =
      let w : W = elim env [ none ↦ w | some es ↦ put_all es w ] in
      let r = run (exec_shell cmd) w in
      elim r.0 [
        | done n out ↦ (replaced cmd, r.1)
        | fail e ↦ (exits 1, (run (write_error write_end e) r.1).1)
      ]

  -- From `chdir` on.
  unfoldable pub child_start :
      UsvfsManager → Bytes → Bytes → Bytes → Option (List Bytes) → ℕ → W → End × W
  child_start m file arg work_dir env write_end w =
      let w = (run (change_dir work_dir) w).1 in
      let cmd = command file arg in
      elim m.force_load_libraries [
        | [] ↦ child_exec cmd env write_end w
        | l ∷ ls ↦
            if is_wine file || is_proton file
            then elim (process_name (is_wine file) arg) [
              | none ↦ (aborts, w)
              | some name ↦ child_exec cmd env write_end (put_overrides m name w)
            ]
            else child_exec cmd env write_end w
      ]

  unfoldable pub child :
      UsvfsManager → Bytes → Bytes → Bytes → Option (List Bytes) → ℕ → ℕ → W → End × W
  child m file arg work_dir env read_end write_end w =
      let w = (run (close_end read_end) w).1 in
      let w = (run (set_cloexec write_end) w).1 in
      let r = run (set_namespaces m.ns_pid_fd) w in
      if m.use_mount_namespace
      then elim r.0 [
        | fail e ↦ (exits 1, r.1)
        | done n out ↦ child_start m file arg work_dir env write_end r.1
      ]
      else child_start m file arg work_dir env write_end w

  -- The parent waits for the error of `execl`; there is none where nothing can be read.
  unfoldable pub parent : ℕ → ℕ → ℕ → W → End × W
  parent pid read_end write_end w =
      let r = run (read_error read_end) (run (close_end write_end) w).1 in
      let w = (run (close_end read_end) r.1).1 in
      elim r.0 [
        | fail e ↦ (answers (negsuc 0), w)
        | done count out ↦ if count == 0 then (answers (pos pid), w) else (answers (negsuc 0), w)
      ]

  -- From `pipe` on.
  unfoldable pub spawn : UsvfsManager → Bytes → Bytes → Bytes → Option (List Bytes) → W → End × W
  spawn m file arg work_dir env w =
      let piped = pipe w in
      elim piped.0 [
        | none ↦ (answers (negsuc 0), piped.1)
        | some (read_end, write_end) ↦
            let forked = run fork piped.1 in
            elim forked.0 [
              | fail e ↦ (
                answers (negsuc 0),
                (run (close_end write_end) (run (close_end read_end) forked.1).1).1,
              )
              | done pid out ↦
                  if pid == 0
                  then child m file arg work_dir env read_end write_end forked.1
                  else parent pid read_end write_end forked.1
            ]
      ]

abbrev no_mounts : UsvfsManager → Bool
no_mounts m = elim m.mounts [ [] ↦ true | s ∷ ss ↦ false ]

module _ (icu : Icu) (os : Kernel) (host : Host os.World) (processes : Processes os.World) where
  -- An executable that is blacklisted runs without the pending mounts. Where the first check fails
  -- the answer is `false`, which is the process 0.
  unfoldable pub usvfs_create_process_hooked :
      Bytes
      → Bytes
      → Bytes
      → Option (List Bytes)
      → UsvfsManager
      → os.World
      → End × UsvfsManager × os.World
  usvfs_create_process_hooked file arg work_dir env m w =
      let mounted =
        if contains file m.executable_blacklist
        then (true, m, w)
        else mount_internal icu os host m w in
      let spawned = spawn icu processes mounted.1 file arg work_dir env mounted.2 in
      if not (no_mounts m) && is_minus_one m.ns_pid_fd
      then (answers (pos 0), m, w)
      else if not mounted.0
      then (answers (negsuc 0), mounted.1, mounted.2)
      else (spawned.0, mounted.1, spawned.1)

  -- With the directory that the caller is in.
  abbrev pub usvfs_create_process_here :
      Bytes → Bytes → Bytes → UsvfsManager → os.World → End × UsvfsManager × os.World
  usvfs_create_process_here cwd file arg m w = usvfs_create_process_hooked file arg cwd none m w
