-- ===== src/Tests/Links.antt =====
-- The theorems on the linking of directories at a concrete source.
use usvfs_fuse.Base.{
  map, pos, negsuc, true, false, some, List, [], ◌∷◌, Bytes, bytes, ◌≡◌, refl, All, ◌⊎◌, components,
  same, less, find_slash, find_slash_from,
}
use usvfs_fuse.Utils.{
  get_parent_path, get_file_name_from_path, iends_with, iequals, compare_ascii, is_ascii, to_lower,
  lower_byte,
}
use usvfs_fuse.Tree.Item.{Item, Info, lookup, insert, create}
use usvfs_fuse.Tree.View.{view}
use usvfs_fuse.Tree.Find.{strip_slash}
use usvfs_fuse.Tree.Find.Seen.{keys_of}
use usvfs_fuse.Tree.Add.{add, add_internal, add_name, strip_both}
use usvfs_fuse.Tree.Add.Walk.{lower_name}
use usvfs_fuse.Tree.Add.Result.{but_last}
use usvfs_fuse.Tree.Merge.{merge}
use usvfs_fuse.FdMap.{FdMap, assign, map_set}
use usvfs_fuse.Kernel.{Call, open_dir, open_flags}
use usvfs_fuse.Manager.{UsvfsManager, file_name_in_skip_suffixes, file_name_in_skip_directories}
use usvfs_fuse.Manager.Link.{
  DirEntry, Disk, Filled, filled, failed, Linked, answered, aborted, add_entries, is_skipped,
  link_tree, split_at_mountpoint, usvfs_virtual_link_directory_static,
}
use usvfs_fuse.Manager.Link.Entries.{IsPlain, new_info, type_of, add_entries_files}
use usvfs_fuse.Manager.Link.Built.{root_of, root-IsAlive}
use usvfs_fuse.Manager.Link.Directory.{link_skipped_directory}
use usvfs_fuse.Manager.Mounting.{Host}
use usvfs_fuse.Tests.Data.{ascii_icu, tree, mounted, able, byte-ne-nil}

abbrev pub source : Bytes
source = bytes "/m"

abbrev sub : DirEntry
sub = record { path = bytes "/m/Sub"; relative = bytes "Sub"; name = bytes "Sub"; directory = true }

abbrev sub_file : DirEntry
sub_file = record {
  path = bytes "/m/Sub/f";
  relative = bytes "Sub/f";
  name = bytes "f";
  directory = false;
}

abbrev pub listing : List DirEntry
listing = sub ∷ sub_file ∷ []

abbrev pub disk : Disk (List Call)
disk = record {
  walk_dir = λ path calls. some listing;
  parent_path = get_parent_path;
  filename = get_file_name_from_path;
}

-- A manager with one pending mount.
abbrev pub manager : List Bytes → UsvfsManager
manager skipped = record {
  upper_dir = [];
  debug_mode = false;
  use_mount_namespace = false;
  process_delay = 0;
  skip_file_suffixes = [];
  skip_directories = skipped;
  executable_blacklist = [];
  force_load_libraries = [];
  ns_pid_fd = negsuc 0;
  mounts = [];
  pending_mounts = mounted tree ∷ [];
  spawned_processes = [];
}

pub sub-IsPlain : IsPlain sub
unfolding is_ascii components
sub-IsPlain = (refl, (byte-ne-nil _ _, tt), byte-ne-nil _ _)

pub sub_file-IsPlain : IsPlain sub_file
unfolding is_ascii components
sub_file-IsPlain = (refl, (byte-ne-nil _ _, (byte-ne-nil _ _, tt)), byte-ne-nil _ _)

abbrev filled_tree : Filled (List Call) → Item
filled_tree (filled t fds w) = t
filled_tree (failed w) = tree

abbrev filled_fds : Filled (List Call) → FdMap
filled_fds (filled t fds w) = fds
filled_fds (failed w) = []

abbrev built : Filled (List Call)
built = add_entries ascii_icu able disk (λ e. false) (root_of source) [] listing []

built-filled :
    built
    ≡ filled (filled_tree built) (filled_fds built) (open_dir (bytes "/m/Sub") open_flags ∷ [])
unfolding add_entries add add_internal add_name strip_both find_slash find_slash_from to_lower
    is_ascii lower_byte lookup insert create same assign map_set less
built-filled = refl

add_entries_files_example :
    All
      (λ e.
        (false ≡ true)
        ⊎ (view (filled_tree built) (keys_of e.relative)
            ≡ some (new_info e.relative e.path (type_of e))))
      listing
    × ((js : List Bytes) (i : Info)
        → view (root_of source) js ≡ some i
        → view (filled_tree built) js ≡ some i)
add_entries_files_example =
    add_entries_files ascii_icu able disk (λ e. false) (root_of source) (filled_tree built) []
      (filled_fds built) listing [] (open_dir (bytes "/m/Sub") open_flags ∷ [])
      (root-IsAlive source) (sub-IsPlain, (sub_file-IsPlain, tt)) built-filled

sub_skipped : is_skipped ascii_icu able disk (manager (bytes "sub" ∷ [])) sub ≡ true
unfolding file_name_in_skip_directories file_name_in_skip_suffixes iends_with iequals compare_ascii
    lower_byte
sub_skipped = refl

sub_file_kept : is_skipped ascii_icu able disk (manager (bytes "sub" ∷ [])) sub_file ≡ false
unfolding file_name_in_skip_directories file_name_in_skip_suffixes iends_with iequals compare_ascii
    lower_byte
sub_file_kept = refl

sub_file_inside :
    map lower_name (but_last (components (strip_slash (bytes "Sub/f")))) ≡ keys_of (bytes "Sub")
unfolding components lower_byte
sub_file_inside = refl

link_skipped_directory_example :
    (w' : List Call) × (usvfs_virtual_link_directory_static ascii_icu able disk source
        (bytes "/data")
        8
        (manager (bytes "sub" ∷ []))
        []
      ≡ answered false (manager (bytes "sub" ∷ [])) w')
link_skipped_directory_example =
    link_skipped_directory ascii_icu able disk source (bytes "/data") 8 (manager (bytes "sub" ∷ []))
      [] 5 [] refl refl (byte-ne-nil _ _) sub sub_file [] [] [] refl refl sub_skipped sub_file_kept
      sub_file-IsPlain sub_file_inside tt tt

abbrev pub linked : Linked (List Call)
linked =
    usvfs_virtual_link_directory_static ascii_icu able disk source (bytes "/data") 8 (manager []) []

abbrev pub linked_manager : Linked (List Call) → UsvfsManager
linked_manager (answered b m w) = m
linked_manager aborted = manager []

abbrev pub linked_calls : Linked (List Call) → List Call
linked_calls (answered b m w) = w
linked_calls aborted = []

pub linked_answered : linked ≡ answered true (linked_manager linked) (linked_calls linked)
unfolding usvfs_virtual_link_directory_static link_tree split_at_mountpoint
    file_name_in_skip_directories file_name_in_skip_suffixes add_entries add add_internal add_name
    strip_both find_slash find_slash_from to_lower is_ascii lower_byte lookup insert create same
    assign map_set less merge
linked_answered = refl

-- A machine that mounts whatever it is told to.
abbrev pub host : Host (List Call)
host = record {
  map_stack = λ w. (true, w);
  clone = λ new s w. (pos 4, pos 9, w);
  poll = λ fd w. (pos 0, w);
  errno = λ w. 0;
  wait_now = λ fd w. (true, 0, w);
  fuse_new = λ s w. (true, w);
  fuse_mount = λ s w. (true, w);
  send_interrupt = λ fd w. (true, w);
  wait_exit = λ fd w. (true, w);
  fuse_unmount = λ s w. w;
  wait_process = λ pid w. (pos 0, w);
}
