-- ===== src/Fuse/Safety/Entries.antt =====
-- `usvfs_create` and `usvfs_rename` (src/usvfs.cpp).
use usvfs_fuse.Base.{
  ℕ, ℤ, pos, neg, Bool, true, false, Option, none, some, [], ◌∷◌, Bytes, ◌++◌, bytes, sym, ◌≢◌, inl,
  inr, subst, Option-cases, same,
}
use usvfs_fuse.Utils.{Icu, get_file_name_from_path}
use usvfs_fuse.Tree.Item.{Item, ItemType, file, get_type}
use usvfs_fuse.Tree.Find.{Found, find}
use usvfs_fuse.Tree.Add.{AddResult, added, refused, null_entry, crash, add}
use usvfs_fuse.Tree.Erase.{EraseResult, erased, erase}
use usvfs_fuse.Tree.Erase
use usvfs_fuse.Tree.Sound.{IsSound}
use usvfs_fuse.Tree.Sound.Kept.{AddsSound, add-AddsSound, ErasesSound, erase-ErasesSound}
use usvfs_fuse.FdMap.{subscript}
use usvfs_fuse.Kernel.{Kernel, openat}
use usvfs_fuse.Mount.{MountState, FileInfo, Context, Outcome, outcome, broken, ended}
use usvfs_fuse.Fuse.{parent_path_of}
use usvfs_fuse.Fuse.Entry.{
  create_file, create_in, keeping, usvfs_create, rename_entry, usvfs_rename,
}
use usvfs_fuse.Fuse.Parts.{created, append-ne-nil}
use usvfs_fuse.Fuse.Safety.{
  IsPath, IsSoundMount, IsSafe, if-IsSafe, answered-IsSafe, filled-IsSafe, ended-IsSafe,
  with_state-IsSafe, sys-IsSafe, with_item-IsSafe,
}
use usvfs_fuse.Fuse.Safety.Lookup.{IsPath-IsAscii, IsPath-ne-nil}
use usvfs_fuse.Fuse.Safety.Parents.{placed-IsSafe, parent-IsSafe}

-- `add` refuses "/".
add_root-AddsSound :
    (icu : Icu) (t : Item) (real : Bytes) (k : ItemType) (upd : Bool)
    → AddsSound (add icu t (bytes "/") real k upd)
unfolding add same
add_root-AddsSound icu t [] k upd = tt
add_root-AddsSound icu t (b ∷ s) k upd = tt

add_path-AddsSound :
    (icu : Icu) (t : Item) (path real : Bytes) (k : ItemType) (upd : Bool)
    → IsPath path
    → real ≢ []
    → IsSound t
    → AddsSound (add icu t path real k upd)
add_path-AddsSound icu t path real k upd (inl e) given sound =
    subst (λ p. AddsSound (add icu t p real k upd)) (sym e) (add_root-AddsSound icu t real k upd)
add_path-AddsSound icu t path real k upd (inr (ascii, clean)) given sound =
    add-AddsSound icu t path real k upd ascii clean given sound

created-IsSafe :
    {W : Type 0} (m : MountState) (w : W) (r : AddResult) (found : Option Found)
    → IsSound m.file_tree
    → AddsSound r
    → IsSafe (created m w r found)
created-IsSafe m w r none sound adds = placed-IsSafe m w neg r sound adds
created-IsSafe m w r (some f) sound adds = answered-IsSafe (pos 0) sound

-- What becomes of the results of `add` and `erase` in a renaming.
abbrev moved : {W : Type 0} → MountState → W → (Item → EraseResult) → AddResult → Outcome W
moved m w erasing r = elim r [
  | refused e ↦ ended (neg e) m w
  | null_entry ↦ outcome broken m w
  | crash ↦ outcome broken m w
  | added t ks ↦ elim (erasing t) [
    | Erase.refused e ↦ ended (neg e) (record m { file_tree = t }) w
    | erased t' ↦ ended (pos 0) (record m { file_tree = t' }) w
  ]
]

moved-IsSafe :
    {W : Type 0} (m : MountState) (w : W) (erasing : Item → EraseResult) (r : AddResult)
    → IsSound m.file_tree
    → AddsSound r
    → ((t : Item) → IsSound t → ErasesSound (erasing t))
    → IsSafe (moved m w erasing r)
moved-IsSafe m w erasing (refused e) sound adds erases = answered-IsSafe (neg e) sound
moved-IsSafe m w erasing null_entry sound adds erases = absurd adds
moved-IsSafe m w erasing crash sound adds erases = absurd adds
moved-IsSafe m w erasing (added t ks) sound adds erases = go (erasing t) (erases t adds)
  where
    go :
        (e : EraseResult)
        → ErasesSound e
        → IsSafe (elim e [
          | Erase.refused n ↦ ended (neg n) (record m { file_tree = t }) w
          | erased t' ↦ ended (pos 0) (record m { file_tree = t' }) w
        ])
    go (erased t') s = answered-IsSafe (pos 0) s
    go (Erase.refused n) s = answered-IsSafe (neg n) adds

module _ (icu : Icu) (os : Kernel) where
  open os use {World, run}

  create_file-IsSafe :
      (path real_parent : Bytes) (mode : ℕ) (fi : FileInfo) (fd : ℤ) (m : MountState) (w : World)
      → IsPath path
      → IsSound m.file_tree
      → IsSafe (create_file icu os path real_parent mode fi fd m w)
  unfolding create_file
  create_file-IsSafe path real_parent mode fi fd m w ok sound =
      let real = real_parent ++ (bytes "/" ++ get_file_name_from_path path) in
      let r = add icu m.file_tree path real file false in
      sys-IsSafe os (openat fd (get_file_name_from_path path) fi.flags mode) m w _ sound λ n out w.
        filled-IsSafe (created m w r (find icu m.file_tree path false))
          (created m w r (find icu m.file_tree path false)).out (some (record fi { fh = n }))
          (created-IsSafe m w r (find icu m.file_tree path false) sound (
            add_path-AddsSound icu m.file_tree path real file false ok
              (append-ne-nil real_parent _ _) sound))

  keeping-IsSafe : (fi : FileInfo) (o : Outcome World) → IsSafe o → IsSafe (keeping icu os fi o)
  unfolding keeping
  keeping-IsSafe fi o safe = elim (Option-cases o.info) [
    | inl e ↦ rw (e, keeping) (filled-IsSafe o o.out (some fi) safe)
    | inr (i, e) ↦ rw (e, keeping) safe
  ]

  create_in-IsSafe :
      (path real_parent : Bytes) (mode : ℕ) (fi : FileInfo) (m : MountState) (w : World)
      → IsPath path
      → IsSound m.file_tree
      → IsSafe (create_in icu os path real_parent mode fi m w)
  unfolding create_in
  create_in-IsSafe path real_parent mode fi m w ok sound =
      parent-IsSafe icu os m real_parent mode w _ sound
        λ fd m' w' sound'. create_file-IsSafe path real_parent mode fi fd m' w' ok sound'

  pub usvfs_create-IsSafe :
      (path : Bytes) (mode : ℕ) (fi : FileInfo) (c : Context World)
      → IsPath path
      → IsSoundMount c.mount
      → IsSafe (usvfs_create icu os path mode fi c)
  unfolding usvfs_create
  usvfs_create-IsSafe path mode fi c ok sound =
      search (keeping-IsSafe, with_state-IsSafe, if-IsSafe, with_item-IsSafe, create_in-IsSafe)

  rename_entry-IsSafe :
      (from to : Bytes) (flags : ℕ) (old : Found) (real : Bytes) (m : MountState) (w : World)
      → IsPath from
      → IsPath to
      → IsSound m.file_tree
      → IsSafe (rename_entry icu os from to flags old real m w)
  unfolding rename_entry
  rename_entry-IsSafe from to flags old real m w ok ok' sound =
      let old_fd = subscript icu m.fd_map (parent_path_of old.target) in
      let new_fd = subscript icu old_fd.1 real in
      let m' = record m { fd_map = new_fd.1 } in
      sys-IsSafe os _ m' w _ sound λ n out w'.
        moved-IsSafe m' w' (λ t. erase icu t from true)
          (add icu m.file_tree to (real ++ to) (get_type old.target) false) sound
          (add_path-AddsSound icu m.file_tree to (real ++ to) (get_type old.target) false ok'
            (append-full real to (IsPath-ne-nil to ok')) sound)
          (λ t s.
            erase-ErasesSound icu t from true (IsPath-IsAscii from ok) (IsPath-ne-nil from ok) s)
    where
      append-full : (s t : Bytes) → t ≢ [] → s ++ t ≢ []
      append-full [] t full h = full h
      append-full (c ∷ s) t full h = cc

  pub usvfs_rename-IsSafe :
      (from to : Bytes) (flags : ℕ) (c : Context World)
      → IsPath from
      → IsPath to
      → IsSoundMount c.mount
      → IsSafe (usvfs_rename icu os from to flags c)
  unfolding usvfs_rename
  usvfs_rename-IsSafe from to flags c ok ok' sound =
      search (with_state-IsSafe, if-IsSafe, with_item-IsSafe, ended-IsSafe, rename_entry-IsSafe)
