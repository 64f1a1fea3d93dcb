-- ===== src/Fuse/Made/Create.antt =====
-- `usvfs_create` (src/usvfs.cpp), and what `find` answers afterwards.
use usvfs_fuse.Base.{
  ℕ, zero, suc, ℤ, pos, neg, false, Option, none, some, Bytes, ◌++◌, bytes, slash, ◌≡◌, refl, ◌≢◌,
  inl, inr, Option-cases,
}
use usvfs_fuse.Utils.{Icu, get_file_name_from_path}
use usvfs_fuse.Utils.Case.{IsAscii}
use usvfs_fuse.Tree.Item.{file}
use usvfs_fuse.Tree.Find.{Found, find, strip_slash}
use usvfs_fuse.Tree.Add.{AddResult, add}
use usvfs_fuse.Tree.Add.Walk.{IsClean}
use usvfs_fuse.Kernel.{Kernel, IsPosix, openat}
use usvfs_fuse.Mount.{MountState, FileInfo, Context, Outcome, returns}
use usvfs_fuse.Fuse.Parts.{placed, created, append-ne-nil}
use usvfs_fuse.Fuse.Entry.{create_file, create_in, keeping, usvfs_create}
use usvfs_fuse.Fuse.Made.{
  IsFoundIn, Makes, refused-ne-zero, if-Makes, with_state-Makes, filled-Makes, placed-Makes,
  sys-Makes, with_item-Makes, parent-Makes,
}

module _ (icu : Icu) (os : Kernel) (posix : IsPosix os) (path : Bytes) where
  open os use {World, run}

  create_file-Makes :
      (real_parent : Bytes) (mode : ℕ) (fi : FileInfo) (fd : ℤ) (m : MountState) (w : World)
      → IsAscii path
      → IsClean (strip_slash path)
      → Makes icu path (create_file icu os path real_parent mode fi fd m w)
  unfolding create_file
  create_file-Makes real_parent mode fi fd m w ascii clean =
      let real = real_parent ++ (bytes "/" ++ get_file_name_from_path path) in
      let r = add icu m.file_tree path real file false in
      let given = append-ne-nil real_parent (get_file_name_from_path path) slash in
      sys-Makes icu os posix path (openat fd (get_file_name_from_path path) fi.flags mode) m w _
        λ n out w'.
          let o = created m w' r (find icu m.file_tree path false) in
          filled-Makes icu path o o.out (some (record fi { fh = n })) (
            created-Makes m w' r (find icu m.file_tree path false) refl (
              placed-Makes icu path m w' real file neg r ascii clean given refl λ e h.
                neg-ne-zero' e
                  (refused-ne-zero icu m.file_tree path real file e ascii clean given h)))
    where
      neg-ne-zero' : (e : ℕ) → e ≢ 0 → neg e ≢ pos 0
      neg-ne-zero' zero h = absurd (h refl)
      neg-ne-zero' (suc e) h = λ h. cc

      created-Makes :
          (m : MountState) (w : World) (r : AddResult) (there : Option Found)
          → find icu m.file_tree path false ≡ there
          → Makes icu path (placed m w neg r)
          → Makes icu path (created m w r there)
      created-Makes m w r none h makes = makes
      created-Makes m w r (some f) h makes = record { found = λ _. (f, h) }

  create_in-Makes :
      (real_parent : Bytes) (mode : ℕ) (fi : FileInfo) (m : MountState) (w : World)
      → IsAscii path
      → IsClean (strip_slash path)
      → Makes icu path (create_in icu os path real_parent mode fi m w)
  unfolding create_in
  create_in-Makes real_parent mode fi m w ascii clean =
      parent-Makes icu os posix path m real_parent mode w _
        λ fd m' w'. create_file-Makes real_parent mode fi fd m' w' ascii clean

  keeping-Makes :
      (fi : FileInfo) (o : Outcome World) → Makes icu path o → Makes icu path (keeping icu os fi o)
  unfolding keeping
  keeping-Makes fi o makes = elim (Option-cases o.info) [
    | inl e ↦ rw (e, keeping) (record { found = makes.found })
    | inr (i, e) ↦ rw (e, keeping) makes
  ]

  usvfs_create-Makes :
      (mode : ℕ) (fi : FileInfo) (c : Context World)
      → IsAscii path
      → IsClean (strip_slash path)
      → Makes icu path (usvfs_create icu os path mode fi c)
  unfolding usvfs_create
  usvfs_create-Makes mode fi c ascii clean =
      search (keeping-Makes, with_state-Makes, if-Makes, with_item-Makes, create_in-Makes)

  -- Where `usvfs_create` returns 0 for an ASCII path without empty names behind one leading slash,
  -- there is a mount and `find` then finds the path in its tree. The error numbers of failed system
  -- calls are taken to be positive.
  pub create_found :
      (mode : ℕ) (fi : FileInfo) (c : Context World)
      → IsAscii path
      → IsClean (strip_slash path)
      → (usvfs_create icu os path mode fi c).status ≡ returns (pos 0)
      → IsFoundIn icu path (usvfs_create icu os path mode fi c).context.mount
  create_found mode fi c ascii clean h = (usvfs_create-Makes mode fi c ascii clean).found h
