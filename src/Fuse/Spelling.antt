-- ===== src/Fuse/Spelling.antt =====
-- The handlers (src/usvfs.cpp) that look an existing item up, at paths in another spelling.
use mathlib.Core.Path.{fun_ext}
use usvfs_fuse.Base.{
  ℕ, Bool, true, false, Option, none, some, List, Bytes, bytes, ◌≡◌, refl, ap, ◌∙◌, ◌&&◌, pos, neg,
  enoent, eexist, if◌then◌else◌, Option-cases, Bool-cases, ltb, inl, inr,
}
use usvfs_fuse.Utils.{Icu, get_parent_path, get_file_name_from_path}
use usvfs_fuse.Tree.Item.{file_name}
use usvfs_fuse.Tree.Find.{Found, find}
use usvfs_fuse.Tree.Add.{AddResult, added, refused, null_entry, crash}
use usvfs_fuse.Tree.Erase.{erased, erase}
use usvfs_fuse.Tree.Erase
use usvfs_fuse.Tree.Spelling.{Respells, find-Respells, erase-Respells}
use usvfs_fuse.FdMap.{fd_at, subscript}
use usvfs_fuse.Kernel.{Kernel, Call, Reply-cases, unlinkat, renameat2, rename_exchange}
use usvfs_fuse.Mount.{MountState, FileInfo, Context, Outcome, broken, outcome, ended, sys}
use usvfs_fuse.Fuse.{parent_path_of, file_name_of, with_item, real_parent_path}
use usvfs_fuse.Fuse.Attr.{
  ends_with, without_directory_suffix, usvfs_getattr, usvfs_readlink, usvfs_chmod, usvfs_chown,
  usvfs_truncate,
}
use usvfs_fuse.Fuse.Io.{usvfs_open}
use usvfs_fuse.Fuse.Dir.{usvfs_rmdir, usvfs_readdir}
use usvfs_fuse.Fuse.Entry.{usvfs_unlink, usvfs_rename, rename_entry, no_replace, is_found, exchange}
use usvfs_fuse.Fuse.Request.{
  Request, getattr, readlink, unlink, rmdir, rename, chmod, chown, truncate, open_file, readdir,
  handle, answer,
}

-- Two requests for an existing item, by paths that are the same but for case. The name that a
-- rename gives is the same; no path of a `getattr` ends in "/.directory".
pub data Respelled : Request → Request → Type 0 where
  getattrs :
      {p q : Bytes} {info : Option FileInfo}
      → Respells p q
      → ends_with p (bytes "/.directory") ≡ false
      → ends_with q (bytes "/.directory") ≡ false
      → Respelled (getattr p info) (getattr q info)
  readlinks :
      {p q : Bytes} {size : ℕ} → Respells p q → Respelled (readlink p size) (readlink q size)
  unlinks : {p q : Bytes} → Respells p q → Respelled (unlink p) (unlink q)
  rmdirs : {p q : Bytes} → Respells p q → Respelled (rmdir p) (rmdir q)
  renames :
      {p q to : Bytes} {flags : ℕ}
      → Respells p q
      → Respelled (rename p to flags) (rename q to flags)
  chmods :
      {p q : Bytes} {mode : ℕ} {info : Option FileInfo}
      → Respells p q
      → Respelled (chmod p mode info) (chmod q mode info)
  chowns :
      {p q : Bytes} {uid gid : ℕ} {info : Option FileInfo}
      → Respells p q
      → Respelled (chown p uid gid info) (chown q uid gid info)
  truncates :
      {p q : Bytes} {size : ℕ} {info : Option FileInfo}
      → Respells p q
      → Respelled (truncate p size info) (truncate q size info)
  opens : {p q : Bytes} {fi : FileInfo} → Respells p q → Respelled (open_file p fi) (open_file q fi)
  readdirs :
      {p q : Bytes} {filler : Bool → List Bytes → Bytes → Bool} {flags : ℕ}
      → Respells p q
      → Respelled (readdir p filler flags) (readdir q filler flags)

module _ (icu : Icu) (os : Kernel) where
  open os use {World, run}

  abbrev at : Option MountState → World → Context World
  at m w = record { mount = m; world = w }

  -- A rename after its system call, with what the `add` of the new name answers.
  abbrev move : Bytes → MountState → World → AddResult → Outcome World
  move from m w result = elim result [
    | refused e ↦ ended (neg e) m w
    | null_entry ↦ outcome broken m w
    | crash ↦ outcome broken m w
    | added t ks ↦ elim (erase icu t from true) [
      | Erase.refused e ↦ ended (neg e) (record m { file_tree = t }) w
      | erased t' ↦ ended (pos 0) (record m { file_tree = t' }) w
    ]
  ]

  -- The system call of a rename.
  abbrev call : Bytes → ℕ → MountState → Found → Bytes → Call
  call to flags m old real =
      let old_fd = subscript icu m.fd_map (parent_path_of old.target) in
      renameat2 old_fd.0 (file_name old.target) (subscript icu old_fd.1 real).0
        (get_file_name_from_path to) (if exchange flags then rename_exchange else 0)

  getattr-Respells :
      {p q : Bytes} (info : Option FileInfo) (m : MountState) (w : World)
      → Respells p q
      → ends_with p (bytes "/.directory") ≡ false
      → ends_with q (bytes "/.directory") ≡ false
      → usvfs_getattr icu os p info (at (some m) w) ≡ usvfs_getattr icu os q info (at (some m) w)
  unfolding usvfs_getattr without_directory_suffix
  getattr-Respells none m w s e f =
      rw (e, f) (rw (find-Respells icu m.file_tree s false, with_item, usvfs_getattr) refl)
  getattr-Respells (some i) m w s e f = elim (Bool-cases (ltb 0 i.fh)) [
    | inl h ↦ rw (h, usvfs_getattr) refl
    | inr h ↦
        rw (h, e, f, usvfs_getattr)
          (rw (find-Respells icu m.file_tree s false, with_item, usvfs_getattr) refl)
  ]

  rename_entry-Respells :
      {p q : Bytes} (to : Bytes) (flags : ℕ) (old : Found) (real : Bytes) (m : MountState)
      (w : World)
      → Respells p q
      → rename_entry icu os p to flags old real m w ≡ rename_entry icu os q to flags old real m w
  unfolding rename_entry
  rename_entry-Respells {p} {q} to flags old real m w s =
      elim (Reply-cases (run (call to flags m old real) w).0) [
        | inl (e, h) ↦ rw (h, rename_entry, sys) refl
        | inr (n, out, h) ↦ rw (h, rename_entry, sys) (moved _ _ _)
      ]
    where
      moved : (m : MountState) (w : World) (r : AddResult) → move p m w r ≡ move q m w r
      moved m w (refused e) = refl
      moved m w null_entry = refl
      moved m w crash = refl
      moved m w (added t ks) = rw (erase-Respells icu t s true, move) refl

  unlink-Respells :
      {p q : Bytes} (m : MountState) (w : World)
      → Respells p q
      → usvfs_unlink icu os p (at (some m) w) ≡ usvfs_unlink icu os q (at (some m) w)
  unfolding usvfs_unlink
  unlink-Respells {p} {q} m w s = elim (Option-cases (find icu m.file_tree q false)) [
    | inl e ↦ rw (find-Respells icu m.file_tree s false, e, with_item, usvfs_unlink) refl
    | inr (r, e) ↦
        let unlink =
          unlinkat (fd_at icu m.fd_map (parent_path_of r.target)) (file_name_of r.target) 0 in
        elim (Reply-cases (run unlink w).0) [
          | inl (n, h) ↦
              rw (find-Respells icu m.file_tree s false, e, with_item, usvfs_unlink)
                (rw (h, sys) refl)
          | inr (n, out, h) ↦
              rw (find-Respells icu m.file_tree s false, e, with_item, usvfs_unlink)
                (rw (h, sys) (rw (erase-Respells icu m.file_tree s false) refl))
        ]
  ]

  -- A rename, with the look-up of the old name and what follows the look-ups.
  abbrev renaming :
      Bytes
      → ℕ
      → MountState
      → World
      → Option Found
      → (Found → Bytes → Outcome World)
      → Outcome World
  renaming to flags m w found k = elim found [
    | none ↦ ended (neg enoent) m w
    | some old ↦
        if is_found (find icu m.file_tree to false) && no_replace flags
        then ended (neg eexist) m w
        else with_item icu os m w (get_parent_path to) λ parent. k old (real_parent_path m parent)
  ]

  rename-Respells :
      {p q : Bytes} (to : Bytes) (flags : ℕ) (m : MountState) (w : World)
      → Respells p q
      → usvfs_rename icu os p to flags (at (some m) w)
        ≡ usvfs_rename icu os q to flags (at (some m) w)
  unfolding usvfs_rename
  rename-Respells {p} {q} to flags m w s =
      ap
        (λ found.
          renaming to flags m w found (λ old real. rename_entry icu os p to flags old real m w))
        (find-Respells icu m.file_tree s false)
      ∙ ap (renaming to flags m w (find icu m.file_tree q false))
          (fun_ext λ old. fun_ext λ real. rename_entry-Respells to flags old real m w s)

  answered_alike :
      {r r' : Request}
      → Respelled r r'
      → (m : Option MountState) (w : World) → handle icu os r (at m w) ≡ handle icu os r' (at m w)
  unfolding handle usvfs_getattr usvfs_readlink usvfs_unlink usvfs_rmdir usvfs_rename usvfs_chmod
      usvfs_chown usvfs_truncate usvfs_open usvfs_readdir
  answered_alike (getattrs s e f) none w = refl
  answered_alike (getattrs {info} s e f) (some m) w = ap answer (getattr-Respells info m w s e f)
  answered_alike (readlinks s) none w = refl
  answered_alike (readlinks s) (some m) w =
      rw (find-Respells icu m.file_tree s false, with_item) refl
  answered_alike (unlinks s) none w = refl
  answered_alike (unlinks s) (some m) w = ap answer (unlink-Respells m w s)
  answered_alike (rmdirs s) none w = refl
  answered_alike (rmdirs s) (some m) w = rw (find-Respells icu m.file_tree s false, with_item) refl
  answered_alike (renames s) none w = refl
  answered_alike (renames {to} {flags} s) (some m) w = ap answer (rename-Respells to flags m w s)
  answered_alike (chmods s) none w = refl
  answered_alike (chmods {info = none} s) (some m) w =
      rw (find-Respells icu m.file_tree s false, with_item) refl
  answered_alike (chmods {info = some i} s) (some m) w = elim (Bool-cases (ltb 0 i.fh)) [
    | inl h ↦ rw (h, usvfs_chmod) refl
    | inr h ↦
        rw (h, usvfs_chmod)
          (rw (find-Respells icu m.file_tree s false, with_item, usvfs_chmod) refl)
  ]
  answered_alike (chowns s) none w = refl
  answered_alike (chowns {info = none} s) (some m) w =
      rw (find-Respells icu m.file_tree s false, with_item) refl
  answered_alike (chowns {info = some i} s) (some m) w = elim (Bool-cases (ltb 0 i.fh)) [
    | inl h ↦ rw (h, usvfs_chown) refl
    | inr h ↦
        rw (h, usvfs_chown)
          (rw (find-Respells icu m.file_tree s false, with_item, usvfs_chown) refl)
  ]
  answered_alike (truncates s) none w = refl
  answered_alike (truncates {info = none} s) (some m) w =
      rw (find-Respells icu m.file_tree s false, with_item) refl
  answered_alike (truncates {info = some i} s) (some m) w = elim (Bool-cases (ltb 0 i.fh)) [
    | inl h ↦ rw (h, usvfs_truncate) refl
    | inr h ↦
        rw (h, usvfs_truncate)
          (rw (find-Respells icu m.file_tree s false, with_item, usvfs_truncate) refl)
  ]
  answered_alike (opens s) none w = refl
  answered_alike (opens s) (some m) w = rw (find-Respells icu m.file_tree s false, with_item) refl
  answered_alike (readdirs s) none w = refl
  answered_alike (readdirs s) (some m) w =
      rw (find-Respells icu m.file_tree s false, usvfs_readdir) refl

  -- Case does not matter in the look-up of an existing item: two requests that are the same but for the
  -- case of an ASCII path (`Respelled`) get the same answer and leave the same tree, descriptors and
  -- machine. These are getattr, where neither path ends in "/.directory", readlink, unlink, rmdir,
  -- rename as far as its old name goes, chmod, chown, truncate, open and readdir.
  pub handle-Respelled :
      {r r' : Request}
      → Respelled r r'
      → (c : Context World) → handle icu os r c ≡ handle icu os r' c
  handle-Respelled s c = answered_alike s c.mount c.world
