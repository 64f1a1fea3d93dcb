-- ===== src/Tests/Clients.antt =====
-- The theorems on whole sequences of calls of the manager, and on the processes that it starts.
use mathlib.Core.Option.{some-injective}
use usvfs_fuse.Base.{
  negsuc, true, false, none, some, List, [], ◌++◌, Bytes, bytes, ◌≡◌, ◌⊎◌, refl, subst, All, arith,
}
use usvfs_fuse.Kernel.{Call, done}
use usvfs_fuse.Manager.{UsvfsManager}
use usvfs_fuse.Manager.Link.Entries.{IsPlain}
use usvfs_fuse.Manager.Mounting.{mount_internal}
use usvfs_fuse.Manager.Mounting.Effect.{mountpoints}
use usvfs_fuse.Manager.Process.{
  Processes, answers, find_space, process_name, spawn, usvfs_create_process_hooked,
}
use usvfs_fuse.Manager.Process.Effect.{create_process_mounts, process_name_of_wine}
use usvfs_fuse.Manager.Sound.{IsPlainDisk, IsSoundManager}
use usvfs_fuse.Manager.Sound.Steps.{Manages, start, links_directory, mounts, Manages-IsSoundManager}
use usvfs_fuse.Tests.Data.{ascii_icu, able}
use usvfs_fuse.Tests.Mounts.{tree-IsSound}
use usvfs_fuse.Tests.Links.{
  source, disk, manager, listing, linked, linked_manager, linked_calls, host, linked_answered,
  sub-IsPlain, sub_file-IsPlain,
}

disk-IsPlainDisk : IsPlainDisk disk
disk-IsPlainDisk path w es h =
    subst (All IsPlain) (some-injective listing es h) (sub-IsPlain, (sub_file-IsPlain, tt))

abbrev mounted_manager : UsvfsManager
mounted_manager = (mount_internal ascii_icu able host (linked_manager linked) []).1

-- A link of a directory into the pending mount, and then a mount.
linked-Manages : Manages ascii_icu able disk host (manager []) mounted_manager
linked-Manages =
    mounts []
      (links_directory source (bytes "/data") 8 true [] (linked_calls linked) start linked_answered)

Manages-IsSoundManager_example : IsSoundManager mounted_manager
Manages-IsSoundManager_example =
    Manages-IsSoundManager ascii_icu able disk host (manager []) mounted_manager disk-IsPlainDisk
      ((tree-IsSound, tt), tt) linked-Manages

-- A machine that makes a process, which starts without an error.
abbrev processes : Processes (List Call)
processes = record { pipe = λ w. (some (3, 4), w); run = λ call w. (done 0 [], w) }

abbrev game : Bytes
game = bytes "/usr/bin/wine"

create_process_mounts_example :
    let r =
      usvfs_create_process_hooked ascii_icu able host processes game
        (bytes "a.exe x")
        (bytes "/")
        none
        (manager [])
        [] in
    (r.1.pending_mounts ≡ [])
    × ((((mount_internal ascii_icu able host (manager []) []).0 ≡ false)
          × (r.0 ≡ answers (negsuc 0))
          × (r.2 ≡ (mount_internal ascii_icu able host (manager []) []).2))
        ⊎ ((mountpoints r.1.mounts
              ≡ mountpoints (manager []).mounts ++ mountpoints (manager []).pending_mounts)
            × ((r.0, r.2)
                ≡ spawn ascii_icu processes r.1 game
                    (bytes "a.exe x")
                    (bytes "/")
                    none
                    (mount_internal ascii_icu able host (manager []) []).2)))
create_process_mounts_example =
    create_process_mounts ascii_icu able host processes game (bytes "a.exe x") (bytes "/") none
      (manager []) [] refl refl

no_space : find_space (bytes "a.exe") ≡ none
unfolding find_space
no_space = refl

wine_name : process_name true (bytes "a.exe x") ≡ some (bytes "a.ex")
wine_name = process_name_of_wine (bytes "a.exe") (bytes "x") no_space (omega arith) (omega arith)
