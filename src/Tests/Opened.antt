-- ===== src/Tests/Opened.antt =====
-- The theorems that go from a link or a new entry to the requests that meet it, and those on other
-- spellings of a path.
use mathlib.Core.List.{Memᴰ}
use usvfs_fuse.Base.{
  ℕ, pos, subst, ◌↔◌, true, false, none, some, List, [], ◌∷◌, Bytes, bytes, slash, ◌≡◌, refl,
  components, same, less, find_slash, find_slash_from, find_last_slash,
}
use usvfs_fuse.Utils.{get_parent_path, get_file_name_from_path, is_ascii, to_lower, lower_byte}
use usvfs_fuse.Utils.Case.{IsAscii}
use usvfs_fuse.Tree.Find.{Found, find, find_internal, strip_slash}
use usvfs_fuse.Tree.Find.Seen.{keys_of}
use usvfs_fuse.Tree.Item.{lookup, insert, create}
use usvfs_fuse.Tree.Add.{add, add_internal, add_name, strip_both}
use usvfs_fuse.Tree.Add.Walk.{IsClean}
use usvfs_fuse.Tree.Spelling.{Respells}
use usvfs_fuse.FdMap.{assign, map_set, map_find, fd_at}
use usvfs_fuse.Kernel.{Call, done, open_dir, open_flags, mkdirat, openat}
use usvfs_fuse.Mount.{MountState, FileInfo}
use usvfs_fuse.Fuse.{real_parent_path}
use usvfs_fuse.Fuse.Io.{usvfs_open}
use usvfs_fuse.Fuse.Entry.{usvfs_create}
use usvfs_fuse.Fuse.Entry.Unlink.{at_mount}
use usvfs_fuse.Fuse.Request.{handle, unlink}
use usvfs_fuse.Fuse.Spelling.{unlinks, handle-Respelled}
use usvfs_fuse.Tree.Print.{get_all_item_paths}
use usvfs_fuse.Tree.Listed.{IsListed, get_all_item_paths_iff}
use usvfs_fuse.Fuse.Dir.{usvfs_mkdir}
use usvfs_fuse.Fuse.Made.{IsFoundIn}
use usvfs_fuse.Fuse.Made.Success.{HasDirectory, is_known, is_made, IsSuccess}
use usvfs_fuse.Fuse.Made.Success.Create.{create_dir, create_succeeds}
use usvfs_fuse.Fuse.Made.Success.Mkdir.{mkdir_succeeds}
use usvfs_fuse.Tests.Mounts.{tree-IsSound}
use usvfs_fuse.Manager.{file_name_in_skip_suffixes}
use usvfs_fuse.Manager.Link.{
  Linked, answered, usvfs_virtual_link_file, link_into, split_at_mountpoint,
}
use usvfs_fuse.Manager.Served.{opened_by, open_call}
use usvfs_fuse.Manager.Opened.{linked_file_opens}
use usvfs_fuse.Tests.Data.{ascii_icu, tree, mounted, able, byte-ne-nil, found_s}
use usvfs_fuse.Tests.Handlers.{able-IsPosix}
use usvfs_fuse.Tests.Links.{disk, manager, linked_manager, linked_calls}

abbrev source : Bytes
source = bytes "/m/B.txt"

abbrev destination : Bytes
destination = bytes "/data/New.txt"

abbrev linked : Linked (List Call)
linked = usvfs_virtual_link_file ascii_icu able disk source destination (manager []) []

linked_answered : linked ≡ answered true (linked_manager linked) (linked_calls linked)
unfolding usvfs_virtual_link_file link_into split_at_mountpoint file_name_in_skip_suffixes add
    add_internal add_name strip_both find_slash find_slash_from to_lower is_ascii lower_byte lookup
    insert create same assign map_set less get_parent_path get_file_name_from_path find_last_slash
linked_answered = refl

abbrev first : List MountState → MountState
first [] = mounted tree
first (s ∷ ss) = s

-- The pending mount that has the file.
abbrev pending : MountState
pending = first (linked_manager linked).pending_mounts

pending_before :
    split_at_mountpoint (disk.parent_path destination) (manager []).pending_mounts
    ≡ some ([], mounted tree, [])
unfolding split_at_mountpoint same get_parent_path find_last_slash
pending_before = refl

pending_after :
    split_at_mountpoint (disk.parent_path destination) (linked_manager linked).pending_mounts
    ≡ some ([], pending, [])
unfolding usvfs_virtual_link_file link_into split_at_mountpoint file_name_in_skip_suffixes add
    add_internal add_name strip_both find_slash find_slash_from to_lower is_ascii lower_byte lookup
    insert create same assign map_set less get_parent_path get_file_name_from_path find_last_slash
pending_after = refl

abbrev name : Bytes
name = disk.filename destination

abbrev asked : Bytes
asked = bytes "/new.TXT"

plain_name : IsAscii name × IsClean (strip_slash name)
unfolding is_ascii components get_file_name_from_path find_last_slash
plain_name = (refl, (byte-ne-nil _ _, tt))

plain_asked : IsAscii asked × IsClean (strip_slash asked)
unfolding is_ascii components
plain_asked = (refl, (byte-ne-nil _ _, tt))

same_keys : keys_of asked ≡ keys_of name
unfolding components lower_byte get_file_name_from_path find_last_slash
same_keys = refl

kept :
    file_name_in_skip_suffixes ascii_icu (disk.filename source) (manager []).skip_file_suffixes
    ≡ false
unfolding file_name_in_skip_suffixes
kept = refl

abbrev for_reading : FileInfo
for_reading = record { fh = 0; flags = 0 }

linked_file_opens_example :
    (fd : ℕ) × (out : Bytes) × ((able.run (open_dir (get_parent_path source) open_flags) []).0
      ≡ done fd out)
    × (usvfs_open ascii_icu able asked for_reading (at_mount pending [])
        ≡ opened_by pending for_reading (able.run (open_call source fd for_reading) []))
linked_file_opens_example =
    linked_file_opens ascii_icu able disk source destination (manager []) (linked_manager linked) []
      (linked_calls linked) [] [] [] [] (mounted tree) pending (byte-ne-nil _ _) plain_name.0
      plain_name.1 kept pending_before linked_answered pending_after pending asked for_reading []
      refl refl plain_asked.0 plain_asked.1 same_keys

-- The same file in two spellings.
respelled : Respells (bytes "/S/X.txt") (bytes "/s/x.TXT")
unfolding is_ascii lower_byte
respelled = record { ascii = refl; ascii' = refl; lowered = refl }

handle-Respelled_example :
    handle ascii_icu able (unlink (bytes "/S/X.txt")) (at_mount (mounted tree) [])
    ≡ handle ascii_icu able (unlink (bytes "/s/x.TXT")) (at_mount (mounted tree) [])
handle-Respelled_example =
    handle-Respelled ascii_icu able (unlinks respelled) (at_mount (mounted tree) [])

get_all_item_paths_iff_example : Memᴰ (bytes "/S/X.txt") (get_all_item_paths tree false) ↔ (
    (r : Found) × IsListed tree false r (bytes "/S/X.txt")
    × (find ascii_icu tree (bytes "/S/X.txt") true ≡ some r))
get_all_item_paths_iff_example =
    get_all_item_paths_iff ascii_icu tree false (bytes "/S/X.txt") tree-IsSound

abbrev rest : Bytes
rest = bytes "S/New"

plain_rest : IsAscii rest × IsClean rest
unfolding is_ascii components
plain_rest = (refl, (byte-ne-nil _ _, (byte-ne-nil _ _, tt)))

parent_found : find ascii_icu tree (get_parent_path (slash ∷ rest)) false ≡ some found_s
unfolding find find_internal find_slash find_slash_from to_lower is_ascii lower_byte lookup same
    get_parent_path find_last_slash
parent_found = refl

missing : find ascii_icu tree (slash ∷ rest) false ≡ none
unfolding find find_internal find_slash find_slash_from to_lower is_ascii lower_byte lookup same
missing = refl

-- A mount with an upper directory, whose descriptor alone is known.
abbrev with_upper : MountState
with_upper = record (mounted tree) { upper_dir = bytes "/up"; fd_map = (bytes "/up", pos 9) ∷ [] }

abbrev dir_made : List Call
dir_made = mkdirat (pos 9) (bytes "S") 420 ∷ openat (pos 9) (bytes "S") open_flags 0 ∷ []

below_upper : HasDirectory ascii_icu able with_upper (bytes "/up/S") 420 [] 5 dir_made
unfolding get_parent_path get_file_name_from_path find_last_slash fd_at map_find to_lower is_ascii
    lower_byte same
below_upper = is_made 9 5 [] [] _ refl refl refl refl refl

create_dir_here : bytes "/up/S" ≡ create_dir with_upper (slash ∷ rest) found_s
unfolding get_parent_path find_last_slash
create_dir_here = refl

create_succeeds_example :
    IsSuccess (usvfs_create ascii_icu able (slash ∷ rest) 420 for_reading (at_mount with_upper []))
    × IsFoundIn ascii_icu
        (slash ∷ rest)
        (usvfs_create ascii_icu able
          (slash ∷ rest)
          420
          for_reading
          (at_mount with_upper [])).context.mount
create_succeeds_example =
    create_succeeds ascii_icu able able-IsPosix rest plain_rest.0 plain_rest.1 420 for_reading
      with_upper [] found_s 5 5 [] dir_made parent_found
      (subst (λ p. HasDirectory ascii_icu able with_upper p 420 [] 5 dir_made) create_dir_here
        below_upper)
      refl

-- A mount with a descriptor for the directory.
abbrev with_dir : MountState
with_dir = record (mounted tree) { fd_map = (bytes "/mods/s", pos 8) ∷ [] }

dir_known : HasDirectory ascii_icu able with_dir (real_parent_path with_dir found_s) 493 [] 8 []
unfolding real_parent_path fd_at map_find to_lower is_ascii lower_byte same
dir_known = is_known refl refl

mkdir_succeeds_example :
    IsSuccess (usvfs_mkdir ascii_icu able (slash ∷ rest) 493 (at_mount with_dir []))
    × IsFoundIn ascii_icu
        (slash ∷ rest)
        (usvfs_mkdir ascii_icu able (slash ∷ rest) 493 (at_mount with_dir [])).context.mount
mkdir_succeeds_example =
    mkdir_succeeds ascii_icu able able-IsPosix rest plain_rest.0 plain_rest.1 493 with_dir []
      found_s 8 [] parent_found missing dir_known (5, [], 5, [], refl, refl)
