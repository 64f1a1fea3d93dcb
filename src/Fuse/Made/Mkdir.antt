-- ===== src/Fuse/Made/Mkdir.antt =====
-- `usvfs_mkdir` (src/usvfs.cpp), and what `find` answers afterwards.
use usvfs_fuse.Base.{
  ℕ, ℤ, pos, neg, true, false, not, some, [], Bytes, enoent, eexist, eio, ◌≡◌, refl, sym, ap, ◌∙◌,
  ◌≢◌, inl, inr, Option-cases,
}
use usvfs_fuse.Utils.{Icu, get_parent_path, get_file_name_from_path}
use usvfs_fuse.Utils.Case.{IsAscii}
use usvfs_fuse.Tree.Item.{Item, info_of, dir, is_deleted, modify}
use usvfs_fuse.Tree.View.{view, same_keys_iff}
use usvfs_fuse.Tree.Find.{Found, find, strip_slash}
use usvfs_fuse.Tree.Add.{add}
use usvfs_fuse.Tree.Add.Walk.{IsClean}
use usvfs_fuse.Tree.Modify.{modify-Updates}
use usvfs_fuse.FdMap.{assign}
use usvfs_fuse.Kernel.{Kernel, IsPosix, openat, open_flags}
use usvfs_fuse.Mount.{MountState, Context, returns, with_state}
use usvfs_fuse.Fuse.{real_parent_path}
use usvfs_fuse.Fuse.Safety.Lookup.{item_found}
use usvfs_fuse.Fuse.Parts.{children-revived, revived_live, append-ne-nil}
use usvfs_fuse.Fuse.Dir.{revived, make_dir, usvfs_mkdir}
use usvfs_fuse.Fuse.Made.{
  IsFoundIn, Makes, seen_found, failed-Makes, if-Makes, placed-Makes, sys-Makes, parent-Makes,
}

module _ (icu : Icu) (os : Kernel) (posix : IsPosix os) (path : Bytes) where
  open os use {World, run}

  make_dir-Makes :
      (real : Bytes) (mode : ℕ) (fd : ℤ) (m : MountState) (w : World)
      → IsAscii path
      → IsClean (strip_slash path)
      → real ≢ []
      → Makes icu path (make_dir icu os path real mode fd m w)
  unfolding make_dir
  make_dir-Makes real mode fd m w ascii clean given = sys-Makes icu os posix path _ m w _ λ n out w.
      sys-Makes icu os posix path (openat fd (get_file_name_from_path path) open_flags 0) m w _
        λ n out w.
          placed-Makes icu path (record m { fd_map = assign icu m.fd_map real (pos n) }) w real dir
            (λ e. neg eio) (add icu m.file_tree path real dir false) ascii clean given refl
            λ e h h'. cc

  revived_found :
      (t : Item) (r : Found)
      → IsAscii path
      → IsClean (strip_slash path)
      → find icu t path true ≡ some r
      → (q : Found) × (find icu
            (modify (revived (get_file_name_from_path path)) r.keys t)
            path
            false
          ≡ some q)
  revived_found t r ascii clean h =
      let (keys, walked) = item_found icu t path true r ascii clean h in
      let name = get_file_name_from_path path in
      let t' = modify (revived name) r.keys t in
      let shown : view t' r.keys ≡ some (info_of (revived name r.target)) =
        modify-Updates (revived name) (children-revived name) r.keys t r.target walked r.keys
        ∙ rw ((same_keys_iff r.keys r.keys).1 refl) refl in
      seen_found icu t' path (info_of (revived name r.target)) ascii clean
        (ap (view t') (sym keys) ∙ shown) (revived_live name r.target)

  usvfs_mkdir-Makes :
      (mode : ℕ) (c : Context World)
      → IsAscii path
      → IsClean (strip_slash path)
      → Makes icu path (usvfs_mkdir icu os path mode c)
  unfolding usvfs_mkdir
  usvfs_mkdir-Makes mode c ascii clean = elim (Option-cases c.mount) [
    | inl h ↦ rw (h, usvfs_mkdir) (record { found = λ e. absurd (cc) })
    | inr (m, h) ↦ elim (Option-cases (find icu m.file_tree path true)) [
      | inr (r, e) ↦
          rw (h, with_state, e)
            (if-Makes icu path (not (is_deleted r.target))
              (failed-Makes icu path (neg eexist) m c.world (λ h. cc))
              (record { found = λ _. revived_found m.file_tree r ascii clean e }))
      | inl e ↦ elim (Option-cases (find icu m.file_tree (get_parent_path path) false)) [
        | inl f ↦ rw (h, with_state, e, f) (failed-Makes icu path (neg enoent) m c.world (λ h. cc))
        | inr (parent, f) ↦
            rw (h, with_state, e, f)
              (parent-Makes icu os posix path m (real_parent_path m parent) mode c.world _
                λ fd m' w'.
                  make_dir-Makes _ mode fd m' w' ascii clean
                    (append-ne-nil (real_parent_path m parent) _ _))
      ]
    ]
  ]

  -- Where `usvfs_mkdir` returns 0 for an ASCII path without empty names behind one leading slash,
  -- there is a mount and `find` then finds the path in its tree. The error numbers of failed system
  -- calls are taken to be positive.
  pub mkdir_found :
      (mode : ℕ) (c : Context World)
      → IsAscii path
      → IsClean (strip_slash path)
      → (usvfs_mkdir icu os path mode c).status ≡ returns (pos 0)
      → IsFoundIn icu path (usvfs_mkdir icu os path mode c).context.mount
  mkdir_found mode c ascii clean h = (usvfs_mkdir-Makes mode c ascii clean).found h
