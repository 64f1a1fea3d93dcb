-- ===== src/Manager.antt =====
-- src/usvfsmanager.cpp and include/usvfs-fuse/usvfsmanager.h: the state of the manager, and the
-- lists that it keeps. Its lock is left out: an operation is one step.
pub mod Link
pub mod Mounting
pub mod Process
pub mod Sound
pub mod Served
pub mod Opened
pub mod Report
pub mod Child
use usvfs_fuse.Base.{
  ℕ, ℤ, Bool, true, false, ◌||◌, List, [], ◌∷◌, ◌++◌, if◌then◌else◌, Bytes, same, less,
  is_empty_bytes,
}
use usvfs_fuse.Utils.{Icu, iends_with, iequals}
use usvfs_fuse.Tree.Print.{dump_tree}
use usvfs_fuse.Mount.{MountState}

-- `ForcedLibrary`
pub record ForcedLibrary : Type 0 where
  pub process_name : Bytes
  pub library_path : Bytes

-- The sets of texts are lists in the order of `std::less<>`.
pub record UsvfsManager : Type 0 where
  pub upper_dir : Bytes
  pub debug_mode : Bool
  pub use_mount_namespace : Bool
  pub process_delay : ℕ
  pub skip_file_suffixes : List Bytes
  pub skip_directories : List Bytes
  pub executable_blacklist : List Bytes
  pub force_load_libraries : List ForcedLibrary
  pub ns_pid_fd : ℤ
  pub mounts : List MountState
  pub pending_mounts : List MountState
  pub spawned_processes : List ℕ

-- `std::set::emplace`
unfoldable pub emplace : Bytes → List Bytes → List Bytes
emplace s [] = s ∷ []
emplace s (x ∷ xs) =
    let rest = emplace s xs in
    if same s x then x ∷ xs else if less s x then s ∷ x ∷ xs else x ∷ rest

abbrev pub usvfs_clear_virtual_mappings : UsvfsManager → UsvfsManager
usvfs_clear_virtual_mappings m = record m { pending_mounts = [] }

abbrev pub usvfs_blacklist_executable : Bytes → UsvfsManager → UsvfsManager
usvfs_blacklist_executable name m = record m {
  executable_blacklist = emplace name m.executable_blacklist;
}

abbrev pub usvfs_clear_executable_blacklist : UsvfsManager → UsvfsManager
usvfs_clear_executable_blacklist m = record m { executable_blacklist = [] }

abbrev pub usvfs_add_skip_file_suffix : Bytes → UsvfsManager → UsvfsManager
usvfs_add_skip_file_suffix s m =
    if is_empty_bytes s then m else record m { skip_file_suffixes = emplace s m.skip_file_suffixes }

abbrev pub usvfs_clear_skip_file_suffixes : UsvfsManager → UsvfsManager
usvfs_clear_skip_file_suffixes m = record m { skip_file_suffixes = [] }

abbrev pub usvfs_add_skip_directory : Bytes → UsvfsManager → UsvfsManager
usvfs_add_skip_directory s m =
    if is_empty_bytes s then m else record m { skip_directories = emplace s m.skip_directories }

abbrev pub usvfs_clear_skip_directories : UsvfsManager → UsvfsManager
usvfs_clear_skip_directories m = record m { skip_directories = [] }

abbrev pub usvfs_force_load_library : Bytes → Bytes → UsvfsManager → UsvfsManager
usvfs_force_load_library name path m = record m {
  force_load_libraries =
      m.force_load_libraries ++ (record { process_name = name; library_path = path } ∷ []);
}

abbrev pub usvfs_clear_library_force_loads : UsvfsManager → UsvfsManager
usvfs_clear_library_force_loads m = record m { force_load_libraries = [] }

abbrev pub set_debug_mode : Bool → UsvfsManager → UsvfsManager
set_debug_mode b m = record m { debug_mode = b }

abbrev pub set_process_delay : ℕ → UsvfsManager → UsvfsManager
set_process_delay n m = record m { process_delay = n }

abbrev pub set_upper_dir : Bytes → UsvfsManager → UsvfsManager
set_upper_dir s m = record m { upper_dir = s }

abbrev pub set_use_mount_namespace : Bool → UsvfsManager → UsvfsManager
set_use_mount_namespace b m = record m { use_mount_namespace = b }

abbrev pub usvfs_get_vfs_process_list : UsvfsManager → List ℕ
usvfs_get_vfs_process_list m = m.spawned_processes

-- `isMounted` answers whether there are no mounts.
unfoldable pub is_mounted : UsvfsManager → Bool
is_mounted m = elim m.mounts [ [] ↦ true | s ∷ ss ↦ false ]

abbrev dump_all : List MountState → Bytes
dump_all [] = []
dump_all (s ∷ ss) = dump_tree s.file_tree 0 ++ dump_all ss

unfoldable pub usvfs_create_vfs_dump : UsvfsManager → Bytes
usvfs_create_vfs_dump m = dump_all m.pending_mounts ++ dump_all m.mounts

module _ (icu : Icu) where
  -- `any_of` over the set.
  abbrev ends_with_any : Bytes → List Bytes → Bool
  ends_with_any name [] = false
  ends_with_any name (s ∷ ss) = iends_with icu name s || ends_with_any name ss

  unfoldable pub file_name_in_skip_suffixes : Bytes → List Bytes → Bool
  file_name_in_skip_suffixes name suffixes = ends_with_any name suffixes

  unfoldable pub file_name_in_skip_directories : Bytes → List Bytes → Bool
  file_name_in_skip_directories name directories = ends_with_any name directories

  unfoldable pub libraries_to_force_load : Bytes → List ForcedLibrary → List Bytes
  libraries_to_force_load name [] = []
  libraries_to_force_load name (l ∷ ls) =
      let rest = libraries_to_force_load name ls in
      if iequals icu l.process_name name then l.library_path ∷ rest else rest
