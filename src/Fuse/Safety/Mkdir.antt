-- ===== src/Fuse/Safety/Mkdir.antt =====
-- `usvfs_mkdir` (src/usvfs.cpp).
use usvfs_fuse.Base.{
  ℕ, ℤ, pos, neg, true, false, not, none, some, List, [], ◌∷◌, Bytes, ◌≡◌, refl, sym, ap, ◌∙◌, ◌≢◌,
  subst, Option-cases, inl, inr, eio,
}
use mathlib.Core.Option.{none-ne-some}
use usvfs_fuse.Utils.{Icu, get_parent_path, get_file_name_from_path}
use usvfs_fuse.Utils.Case.{IsAscii}
use usvfs_fuse.Tree.Item.{Item, item, get_type, Info, info_of, dir, is_deleted, modify}
use usvfs_fuse.Tree.Find.{Found, find, strip_slash}
use usvfs_fuse.Tree.View.{view-nil}
use usvfs_fuse.Tree.Order.{IsOrdered}
use usvfs_fuse.Tree.Add.{add}
use usvfs_fuse.Tree.Add.Walk.{IsClean}
use usvfs_fuse.Tree.Sound.{IsSound, Fits, Fits-same}
use usvfs_fuse.Tree.Sound.Kept.{add-AddsSound, modify-IsSound}
use usvfs_fuse.Kernel.{Kernel, openat, open_flags}
use usvfs_fuse.FdMap.{assign}
use usvfs_fuse.Mount.{MountState, Context, with_state}
use usvfs_fuse.Fuse.{real_parent_path}
use usvfs_fuse.Fuse.Dir.{revived, make_dir, usvfs_mkdir}
use usvfs_fuse.Fuse.Parts.{children-revived, append-ne-nil}
use usvfs_fuse.Fuse.Safety.{
  IsPath, IsSoundMount, IsSafe, if-IsSafe, answered-IsSafe, ended-IsSafe, sys-IsSafe, mount_cases,
}
use usvfs_fuse.Fuse.Safety.Lookup.{
  find_root, root_found, item_found, found_walk, found-Fits, renamed-Fits,
}
use usvfs_fuse.Fuse.Safety.Parents.{placed-IsSafe, parent-IsSafe}

-- A path that leads nowhere is not the root's.
not_root :
    (icu : Icu) (t : Item) (path : Bytes)
    → IsPath path
    → find icu t path true ≡ none
    → IsAscii path × IsClean (strip_slash path)
not_root icu t path (inl e) h =
    absurd (none-ne-some _ (sym h ∙ ap (λ p. find icu t p true) e ∙ find_root icu t true))
not_root icu t path (inr p) h = p

revived-IsOrdered : (n : Bytes) (d : Item) → IsOrdered d → IsOrdered (revived n d)
revived-IsOrdered [] (item i es) o = o
revived-IsOrdered (c ∷ s) (item i es) o = o

-- A new name fits where the path with that name leads.
revived-Fits :
    (n : Bytes) (c : Item) (ks : List Bytes)
    → ((j : Info) → j.file_name ≡ n → j.type ≡ get_type c → Fits ks j)
    → Fits ks (info_of c)
    → Fits ks (info_of (revived n c))
revived-Fits [] (item i es) ks new old = Fits-same ks i _ refl refl old
revived-Fits (b ∷ s) (item i es) ks new old = new _ refl refl

Fits-named :
    (icu : Icu) (t : Item) (path : Bytes) (r : Found) (j : Info)
    → IsPath path
    → IsSound t
    → find icu t path true ≡ some r
    → j.file_name ≡ get_file_name_from_path path
    → j.type ≡ get_type r.target
    → Fits r.keys j
Fits-named icu t path r j (inl e) sound h name type =
    let root = root_found icu t path true r e h in
    subst (λ (q : Found). Fits q.keys j) (sym root)
      (type ∙ ap (λ (q : Found). get_type q.target) root ∙ sound.fits [] (info_of t) (view-nil t))
Fits-named icu t path r j (inr (ascii, clean)) sound h name type =
    subst (λ ks. Fits ks j) (sym (item_found icu t path true r ascii clean h).0)
      (renamed-Fits path j ascii clean name)

revived-IsSound :
    (icu : Icu) (t : Item) (path : Bytes) (r : Found)
    → IsPath path
    → IsSound t
    → find icu t path true ≡ some r
    → IsSound (modify (revived (get_file_name_from_path path)) r.keys t)
revived-IsSound icu t path r ok sound h =
    let walked = found_walk icu t path true r ok h in
    modify-IsSound (revived (get_file_name_from_path path)) r.keys t r.target
      (children-revived (get_file_name_from_path path))
      (revived-IsOrdered (get_file_name_from_path path)) walked
      (revived-Fits (get_file_name_from_path path) r.target r.keys
        (λ j. Fits-named icu t path r j ok sound h) (found-Fits t r.target r.keys sound walked))
      sound

module _ (icu : Icu) (os : Kernel) where
  open os use {World, run}

  pub make_dir-IsSafe :
      (path real : Bytes) (mode : ℕ) (fd : ℤ) (m : MountState) (w : World)
      → IsAscii path
      → IsClean (strip_slash path)
      → real ≢ []
      → IsSound m.file_tree
      → IsSafe (make_dir icu os path real mode fd m w)
  unfolding make_dir
  make_dir-IsSafe path real mode fd m w ascii clean given sound =
      sys-IsSafe os _ m w _ sound λ n out w.
        sys-IsSafe os (openat fd (get_file_name_from_path path) open_flags 0) m w _ sound λ n out w.
          placed-IsSafe (record m { fd_map = assign icu m.fd_map real (pos n) }) w (λ e. neg eio)
            (add icu m.file_tree path real dir false) sound
            (add-AddsSound icu m.file_tree path real dir false ascii clean given sound)

  pub usvfs_mkdir-IsSafe :
      (path : Bytes) (mode : ℕ) (c : Context World)
      → IsPath path
      → IsSoundMount c.mount
      → IsSafe (usvfs_mkdir icu os path mode c)
  unfolding usvfs_mkdir
  usvfs_mkdir-IsSafe path mode c ok sound = elim (mount_cases c sound) [
    | inl h ↦ rw (h, usvfs_mkdir) (answered-IsSafe _ tt)
    | inr (m, h, live) ↦ elim (Option-cases (find icu m.file_tree path true)) [
      | inr (r, e) ↦
          rw (h, with_state, e)
            (if-IsSafe (not (is_deleted r.target)) (ended-IsSafe _ m c.world live) (
              ended-IsSafe (pos 0)
                (record m {
                  file_tree = modify (revived (get_file_name_from_path path)) r.keys m.file_tree;
                })
                c.world (revived-IsSound icu m.file_tree path r ok live e)))
      | inl e ↦ elim (Option-cases (find icu m.file_tree (get_parent_path path) false)) [
        | inl f ↦ rw (h, with_state, e, f) (ended-IsSafe _ m c.world live)
        | inr (parent, f) ↦
            let (ascii, clean) = not_root icu m.file_tree path ok e in
            rw (h, with_state, e, f)
              (parent-IsSafe icu os m (real_parent_path m parent) mode c.world _ live
                λ fd m' w' sound'.
                  make_dir-IsSafe path _ mode fd m' w' ascii clean
                    (append-ne-nil (real_parent_path m parent) _ _) sound')
      ]
    ]
  ]
