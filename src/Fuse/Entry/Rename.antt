-- ===== src/Fuse/Entry/Rename.antt =====
-- The system call of `usvfs_rename` (src/usvfs.cpp), and what the handler comes to after it.
use usvfs_fuse.Base.{
  ℕ, ℤ, pos, neg, true, false, ◌&&◌, some, if◌then◌else◌, List, Bytes, ◌++◌, ◌≡◌, ◌∙◌, arith,
}
use usvfs_fuse.Utils.{Icu, get_parent_path, get_file_name_from_path}
use usvfs_fuse.Tree.Item.{Item, get_type, file_name}
use usvfs_fuse.Tree.Find.{Found, find}
use usvfs_fuse.Tree.Add.{AddResult, added, refused, add}
use usvfs_fuse.Tree.Erase.{erased, erase}
use usvfs_fuse.FdMap.{subscript, FdMap}
use usvfs_fuse.Kernel.{Kernel, Call, done, renameat2, rename_exchange}
use usvfs_fuse.Mount.{MountState, ended}
use usvfs_fuse.Fuse.{parent_path_of, real_parent_path}
use usvfs_fuse.Fuse.Entry.{usvfs_rename, rename_entry, exchange, no_replace, is_found}
use usvfs_fuse.Fuse.Entry.Unlink.{at_mount}

-- The calls of a rename of the found item `old`, to a new name in the found directory `parent`.
module _ (icu : Icu) (os : Kernel) (from to : Bytes) (flags : ℕ) (m : MountState) (w : os.World)
    (old parent : Found) where
  abbrev pub new_real_parent : Bytes
  new_real_parent = real_parent_path m parent

  abbrev pub old_fd : ℤ × FdMap
  old_fd = subscript icu m.fd_map (parent_path_of old.target)

  abbrev pub new_fd : ℤ × FdMap
  new_fd = subscript icu old_fd.1 new_real_parent

  -- The mount, with what `operator[]` has put into the map of descriptors.
  abbrev pub after_lookups : MountState
  after_lookups = record m { fd_map = new_fd.1 }

  abbrev pub rename_call : Call
  rename_call =
      renameat2 old_fd.0 (file_name old.target) new_fd.0 (get_file_name_from_path to)
        (if exchange flags then rename_exchange else 0)

  module _ (n : ℕ) (out : Bytes) (old_found : find icu m.file_tree from false ≡ some old)
      (parent_found : find icu m.file_tree (get_parent_path to) false ≡ some parent)
      (worked : (os.run rename_call w).0 ≡ done n out) where
    -- The test of RENAME_NOREPLACE lets the call pass.
    abbrev pub Passes : Type 0
    Passes = (is_found (find icu m.file_tree to false) && no_replace flags) ≡ false

    rename_goes_on :
        Passes
        → usvfs_rename icu os from to flags (at_mount m w)
          ≡ rename_entry icu os from to flags old new_real_parent m w
    unfolding usvfs_rename
    rename_goes_on pass = ground arith

    abbrev pub add_call : AddResult
    add_call = add icu m.file_tree to (new_real_parent ++ to) (get_type old.target) false

    pub rename_refused :
        (e : ℕ)
        → Passes
        → add_call ≡ refused e
        → usvfs_rename icu os from to flags (at_mount m w)
          ≡ ended (neg e) after_lookups (os.run rename_call w).1
    unfolding rename_entry
    rename_refused e pass result = rename_goes_on pass ∙ ground arith

    pub rename_moved :
        (t t' : Item) (ks : List Bytes)
        → Passes
        → add_call ≡ added t ks
        → erase icu t from true ≡ erased t'
        → usvfs_rename icu os from to flags (at_mount m w)
          ≡ ended (pos 0) (record after_lookups { file_tree = t' }) (os.run rename_call w).1
    unfolding rename_entry
    rename_moved t t' ks pass result erases = rename_goes_on pass ∙ ground arith
