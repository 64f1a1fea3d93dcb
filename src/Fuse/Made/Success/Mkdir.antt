-- ===== src/Fuse/Made/Success/Mkdir.antt =====
-- `usvfs_mkdir` (src/usvfs.cpp) where the machine does what it is asked.
use usvfs_fuse.Base.{
  ℕ, ℤ, pos, Bool, true, false, none, some, List, [], ◌∷◌, ◌++◌, Bytes, bytes, slash, ◌≡◌, ◌≢◌,
  refl, sym, ap, ◌∙◌, arith, map, components, Option-cases, inl, inr,
}
use usvfs_fuse.Utils.{Icu, get_parent_path, get_file_name_from_path}
use usvfs_fuse.Utils.Case.{IsAscii}
use usvfs_fuse.Tree.Item.{Item, dir, is_deleted, walk}
use usvfs_fuse.Tree.View.{view}
use usvfs_fuse.Tree.Path.{IsAscii-slash}
use usvfs_fuse.Tree.Find.{Found, find}
use usvfs_fuse.Tree.Find.Seen.{keys_of, find_item}
use usvfs_fuse.Tree.Find.Walk.{seek}
use usvfs_fuse.Tree.Names.{clean-ne-root}
use usvfs_fuse.Tree.Add.Walk.{IsClean, lower_name}
use usvfs_fuse.Tree.Add.Result.{but_last}
use usvfs_fuse.Kernel.{Kernel, IsPosix, done, mkdirat, openat, open_flags}
use usvfs_fuse.Mount.{MountState, sys}
use usvfs_fuse.Fuse.{parent_fd, real_parent_path, ready}
use usvfs_fuse.Fuse.Parts.{append-ne-nil}
use usvfs_fuse.Fuse.Dir.{make_dir, usvfs_mkdir}
use usvfs_fuse.Fuse.Entry.Unlink.{at_mount}
use usvfs_fuse.Fuse.Made.{IsFoundIn}
use usvfs_fuse.Fuse.Made.Mkdir.{mkdir_found}
use usvfs_fuse.Fuse.Made.Parent.{parent_seen}
use usvfs_fuse.Fuse.Made.Success.{HasDirectory, IsSuccess, HasParent, add_succeeds, parent_fd-ready}

-- The calls that make a directory and open it are answered.
abbrev pub Makes : (os : Kernel) → ℤ → Bytes → ℕ → os.World → Type 0
Makes os fd name mode w =
    (k : ℕ) × (o : Bytes) × (n : ℕ) × (out : Bytes) × ((os.run (mkdirat fd name mode) w).0
      ≡ done k o)
    × ((os.run (openat fd name open_flags 0) (os.run (mkdirat fd name mode) w).1).0 ≡ done n out)

deleted_of_seek :
    (t : Item) (ks : List Bytes) (r : Found)
    → seek t ks true ≡ some r
    → seek t ks false ≡ none
    → is_deleted r.target ≡ true
deleted_of_seek t ks r found missing = elim (Option-cases (walk t ks)) [
  | inl e ↦ ground arith
  | inr (c, e) ↦ ground arith
]

-- The branches of `usvfs_mkdir` that do not end with an error at once.
module _ (icu : Icu) (os : Kernel) (path : Bytes) (mode : ℕ) (m : MountState) (w : os.World) where
  mkdir_revives :
      (r : Found)
      → find icu m.file_tree path true ≡ some r
      → is_deleted r.target ≡ true
      → IsSuccess (usvfs_mkdir icu os path mode (at_mount m w))
  unfolding usvfs_mkdir
  mkdir_revives r e deleted = ground arith

  mkdir_makes :
      (parent : Found) (fd : ℤ) (m' : MountState) (w' : os.World)
      → find icu m.file_tree path true ≡ none
      → find icu m.file_tree (get_parent_path path) false ≡ some parent
      → parent_fd icu os m (real_parent_path m parent) mode w ≡ ready fd m' w'
      → usvfs_mkdir icu os path mode (at_mount m w)
        ≡ make_dir icu os path
            (real_parent_path m parent ++ (bytes "/" ++ get_file_name_from_path path))
            mode
            fd
            m'
            w'
  unfolding usvfs_mkdir
  mkdir_makes parent fd m' w' e found h = ground arith

module _ (icu : Icu) (os : Kernel) (posix : IsPosix os) where
  open os use {World, run}

  module _ (s : Bytes) (ascii : IsAscii s) (clean : IsClean s) where
    abbrev path : Bytes
    path = slash ∷ s

    make_dir_succeeds :
        (real : Bytes) (mode : ℕ) (fd : ℤ) (m : MountState) (w : World)
        → Makes os fd (get_file_name_from_path path) mode w
        → real ≢ []
        → find icu m.file_tree path false ≡ none
        → HasParent s m.file_tree
        → IsSuccess (make_dir icu os path real mode fd m w)
    unfolding make_dir
    make_dir_succeeds real mode fd m w (k, o, n, out, h, g) given missing (i, there) =
        let name = get_file_name_from_path path in
        let (t, ks, a) =
          add_succeeds icu m.file_tree s real dir i ascii clean given missing there in
        rw (h, sys, make_dir) (rw (g, sys) (rw a refl))

    -- An item that is only found where deleted ones count is deleted.
    found_deleted :
        (t : Item) (r : Found)
        → find icu t path true ≡ some r
        → find icu t path false ≡ none
        → is_deleted r.target ≡ true
    found_deleted t r found missing =
        deleted_of_seek t (keys_of path) r (sym (item true) ∙ found) (sym (item false) ∙ missing)
      where
        item : (d : Bool) → find icu t path d ≡ seek t (keys_of path) d
        item d = find_item icu t path d (IsAscii-slash s ascii) (λ e. cc) (clean-ne-root path clean)

    -- `usvfs_mkdir` of an ASCII path with a leading slash, without empty names behind it, whose
    -- directory is found in the tree of the mount and that is not found itself, returns 0, and
    -- afterwards the path is found. This is where that directory, or with an upper directory the one
    -- below it, has a descriptor, or with an upper directory the directory above has one and the calls
    -- that make and open it there are answered, and the calls that make and open the new directory
    -- are answered. The machine's errors are taken to be positive.
    pub mkdir_succeeds :
        (mode : ℕ) (m : MountState) (w : World) (parent : Found) (fd : ℕ) (w' : World)
        → find icu m.file_tree (get_parent_path path) false ≡ some parent
        → find icu m.file_tree path false ≡ none
        → HasDirectory icu os m (real_parent_path m parent) mode w fd w'
        → Makes os (pos fd) (get_file_name_from_path path) mode w'
        → IsSuccess (usvfs_mkdir icu os path mode (at_mount m w))
          × IsFoundIn icu path (usvfs_mkdir icu os path mode (at_mount m w)).context.mount
    mkdir_succeeds mode m w parent fd w' found missing directory makes = (
      success,
      mkdir_found icu os posix path mode (at_mount m w) (IsAscii-slash s ascii) clean success,
    )
      where
        real : Bytes
        real = real_parent_path m parent ++ (bytes "/" ++ get_file_name_from_path path)

        success : IsSuccess (usvfs_mkdir icu os path mode (at_mount m w))
        success = elim (Option-cases (find icu m.file_tree path true)) [
          | inr (r, e) ↦
              mkdir_revives icu os path mode m w r e (found_deleted m.file_tree r e missing)
          | inl e ↦
              let (m', h, same_tree) =
                parent_fd-ready icu os m (real_parent_path m parent) mode w fd w' directory in
              let (i, there) = parent_seen icu m.file_tree s parent ascii clean found in
              rw (mkdir_makes icu os path mode m w parent (pos fd) m' w' e found h) (
                make_dir_succeeds real mode (pos fd) m' w' makes
                  (append-ne-nil (real_parent_path m parent) _ _)
                  (ap (λ t. find icu t path false) same_tree ∙ missing)
                  (
                    i,
                    ap (λ t. view t (map lower_name (but_last (components s)))) same_tree ∙ there,
                  ))
        ]
