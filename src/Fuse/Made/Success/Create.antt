-- ===== src/Fuse/Made/Success/Create.antt =====
-- `usvfs_create` (src/usvfs.cpp) where the machine does what it is asked.
use usvfs_fuse.Base.{
  ℕ, ℤ, pos, false, if◌then◌else◌, if_true, if_false, subst, is_empty_bytes, some, ◌∷◌, ◌++◌, Bytes,
  bytes, slash, ◌≡◌, refl, ap, ◌∙◌, map, components, Option-cases, Bool-cases, inl, inr,
}
use usvfs_fuse.Utils.{Icu, get_parent_path, get_file_name_from_path}
use usvfs_fuse.Utils.Case.{IsAscii}
use usvfs_fuse.Tree.Item.{file, real_path}
use usvfs_fuse.Tree.View.{view}
use usvfs_fuse.Tree.Path.{IsAscii-slash}
use usvfs_fuse.Tree.Find.{Found, find}
use usvfs_fuse.Tree.Add.Walk.{IsClean, lower_name}
use usvfs_fuse.Tree.Add.Result.{but_last}
use usvfs_fuse.Kernel.{Kernel, IsPosix, done, openat}
use usvfs_fuse.Mount.{MountState, FileInfo, Outcome, sys}
use usvfs_fuse.Fuse.{with_item}
use usvfs_fuse.Fuse.Parts.{append-ne-nil}
use usvfs_fuse.Fuse.Entry.{create_file, create_in, keeping, usvfs_create}
use usvfs_fuse.Fuse.Entry.Unlink.{at_mount}
use usvfs_fuse.Fuse.Made.{IsFoundIn}
use usvfs_fuse.Fuse.Made.Create.{create_found}
use usvfs_fuse.Fuse.Made.Parent.{parent_seen}
use usvfs_fuse.Fuse.Made.Success.{HasDirectory, IsSuccess, HasParent, add_succeeds, parent_fd-ready}

-- Where `usvfs_create` makes the file.
abbrev pub create_dir : MountState → Bytes → Found → Bytes
create_dir m path parent =
    if is_empty_bytes m.upper_dir
    then real_path parent.target
    else m.upper_dir ++ get_parent_path path

module _ (icu : Icu) (os : Kernel) (posix : IsPosix os) where
  open os use {World, run}

  module _ (s : Bytes) (ascii : IsAscii s) (clean : IsClean s) where
    abbrev path : Bytes
    path = slash ∷ s

    create_file_succeeds :
        (real_parent : Bytes) (mode : ℕ) (fi : FileInfo) (fd : ℤ) (m : MountState) (w : World)
        (n : ℕ) (out : Bytes)
        → (run (openat fd (get_file_name_from_path path) fi.flags mode) w).0 ≡ done n out
        → HasParent s m.file_tree
        → IsSuccess (create_file icu os path real_parent mode fi fd m w)
    unfolding create_file
    create_file_succeeds real_parent mode fi fd m w n out h (i, there) =
        let name = get_file_name_from_path path in
        elim (Option-cases (find icu m.file_tree path false)) [
          | inr (r, e) ↦ rw (h, sys, create_file) (rw e refl)
          | inl e ↦
              let (t, ks, a) =
                add_succeeds icu m.file_tree s (real_parent ++ (bytes "/" ++ name)) file i ascii
                  clean (append-ne-nil real_parent name slash) e there in
              rw (h, sys, create_file) (rw (e, a) refl)
        ]

    create_in_succeeds :
        (real_parent : Bytes) (mode : ℕ) (fi : FileInfo) (m : MountState) (w : World) (fd n : ℕ)
        (out : Bytes) (w' : World)
        → HasDirectory icu os m real_parent mode w fd w'
        → (run (openat (pos fd) (get_file_name_from_path path) fi.flags mode) w').0 ≡ done n out
        → HasParent s m.file_tree
        → IsSuccess (create_in icu os path real_parent mode fi m w)
    unfolding create_in
    create_in_succeeds real_parent mode fi m w fd n out w' directory h (i, there) =
        let (m', e, same_tree) = parent_fd-ready icu os m real_parent mode w fd w' directory in
        rw (e, create_in)
          (create_file_succeeds real_parent mode fi (pos fd) m' w' n out h
            (i, ap (λ t. view t (map lower_name (but_last (components s)))) same_tree ∙ there))

    keeping_succeeds :
        (fi : FileInfo) (o : Outcome World) → IsSuccess o → IsSuccess (keeping icu os fi o)
    unfolding keeping
    keeping_succeeds fi o h = elim (Option-cases o.info) [
      | inl e ↦ rw (e, keeping) h
      | inr (i, e) ↦ rw (e, keeping) h
    ]

    -- `usvfs_create` of an ASCII path with a leading slash, without empty names behind it, whose
    -- directory is found in the tree of the mount, returns 0, and afterwards the path is found. This
    -- is where that directory, or with an upper directory the one below it, has a descriptor, or with
    -- an upper directory the directory above has one and the calls that make and open it there are
    -- answered, and the call that makes the file is answered; whether or not the path is in the tree.
    -- The machine's errors are taken to be positive.
    pub create_succeeds :
        (mode : ℕ) (fi : FileInfo) (m : MountState) (w : World) (parent : Found) (fd n : ℕ)
        (out : Bytes) (w' : World)
        → find icu m.file_tree (get_parent_path path) false ≡ some parent
        → HasDirectory icu os m (create_dir m path parent) mode w fd w'
        → (run (openat (pos fd) (get_file_name_from_path path) fi.flags mode) w').0 ≡ done n out
        → IsSuccess (usvfs_create icu os path mode fi (at_mount m w))
          × IsFoundIn icu path (usvfs_create icu os path mode fi (at_mount m w)).context.mount
    unfolding usvfs_create
    create_succeeds mode fi m w parent fd n out w' found directory h = (
      success,
      create_found icu os posix path mode fi (at_mount m w) (IsAscii-slash s ascii) clean success,
    )
      where
        parented : HasParent s m.file_tree
        parented = parent_seen icu m.file_tree s parent ascii clean found

        in_dir :
            (real : Bytes)
            → create_dir m path parent ≡ real
            → IsSuccess (create_in icu os path real mode fi m w)
        in_dir real e =
            create_in_succeeds real mode fi m w fd n out w'
              (subst (λ p. HasDirectory icu os m p mode w fd w') e directory) h parented

        success : IsSuccess (usvfs_create icu os path mode fi (at_mount m w))
        success = keeping_succeeds fi _ (elim (Bool-cases (is_empty_bytes m.upper_dir)) [
          | inl e ↦
              rw (e, with_item, found)
                (in_dir (real_path parent.target) (if_true (is_empty_bytes m.upper_dir) _ _ e))
          | inr e ↦ rw e (
              in_dir (m.upper_dir ++ get_parent_path path)
                (if_false (is_empty_bytes m.upper_dir) _ _ e))
        ])
