-- ===== src/Fuse/Entry/Move.antt =====
-- The tree after `usvfs_rename` (src/usvfs.cpp).
use mathlib.Core.Option.{none-ne-some}
use mathlib.Core.Bool.{false≢true}
use usvfs_fuse.Base.{
  ℕ, pos, neg, true, false, none, some, if◌then◌else◌, List, [], ◌∷◌, Bytes, ◌++◌, eexist, ◌≡◌,
  refl, sym, ◌∙◌, arith, ◌≢◌, Bool-cases, inl, inr, map, components, subst, bytes,
}
use usvfs_fuse.Utils.{Icu, get_parent_path}
use usvfs_fuse.Utils.Case.{IsAscii}
use usvfs_fuse.Tree.Item.{Item, Info, info_of, is_deleted, get_type}
use usvfs_fuse.Tree.View.{view, leads_to, leads_to_refl, same_keys, same_keys_iff}
use usvfs_fuse.Tree.Order.{IsOrdered}
use usvfs_fuse.Tree.Find.{Found, find, strip_slash}
use usvfs_fuse.Tree.Find.Seen.{keys_of, find-keys_of, seek_found}
use usvfs_fuse.Tree.Add.{AddResult, added, add}
use usvfs_fuse.Tree.Add.Walk.{lower_name, IsClean}
use usvfs_fuse.Tree.Add.Effect.{written, Updates, last_name, add-Updates}
use usvfs_fuse.Tree.Add.Result.{but_last, outcome-add, added_of_outcome, refused_of_outcome}
use usvfs_fuse.Tree.Add.Order.{AddsOrdered, add-AddsOrdered}
use usvfs_fuse.Tree.Erase.{EraseResult, erased, erase}
use usvfs_fuse.Tree.Erase
use usvfs_fuse.Tree.Erase.Effect.{Erases, EraseOutcome, erase-EraseOutcome}
use usvfs_fuse.Kernel.{Kernel, done}
use usvfs_fuse.Mount.{MountState, ended}
use usvfs_fuse.Fuse.Entry.{usvfs_rename, no_replace, is_found}
use usvfs_fuse.Fuse.Entry.Unlink.{at_mount}
use usvfs_fuse.Fuse.Entry.Rename.{
  new_real_parent, after_lookups, rename_call, rename_refused, rename_moved,
}

append-ne-nil : (s t : Bytes) → t ≢ [] → (s ++ t) ≢ []
append-ne-nil [] t h e = h e
append-ne-nil (c ∷ s) t h e = cc

clean-ne-nil : (path : Bytes) → IsClean (strip_slash path) → path ≢ []
unfolding components
clean-ne-nil [] h e = h.0 refl
clean-ne-nil (c ∷ s) h e = cc

-- An `erase` of a path that has a record succeeds.
erased_of_outcome :
    (t : Item) (ls : List Bytes) (i : Info) (r : EraseResult)
    → EraseOutcome t ls true r
    → view t ls ≡ some i
    → (t' : Item) × (r ≡ erased t') × Erases t ls true t'
erased_of_outcome t ls i (erased t') o h = (t', refl, o.1)
erased_of_outcome t ls i (Erase.refused e) o h = absurd (none-ne-some i (sym o.0 ∙ h))

IsOrdered-of_added :
    (r : AddResult) (t : Item) (ks : List Bytes) → AddsOrdered r → r ≡ added t ks → IsOrdered t
IsOrdered-of_added r t ks o e = subst AddsOrdered e o

-- A record that the update does not touch.
untouched :
    (t u : Item) (ks ls : List Bytes) (i j : Info)
    → Updates t ks i u
    → leads_to ls ks ≡ false
    → view t ls ≡ some j
    → view u ls ≡ some j
untouched t u ks ls i j up apart there = elim (Bool-cases (same_keys ks ls)) [
  | inl e ↦ absurd (
      false≢true (
        sym apart
        ∙ subst (λ js. leads_to js ks ≡ true) ((same_keys_iff ks ls).0 e) (leads_to_refl ks)))
  | inr e ↦ up ls ∙ rw e there
]

-- Two changes of a tree, one after the other.
abbrev pub Moved : Item → List Bytes → List Bytes → Info → Item → Type 0
Moved t ks ls i t' =
    (js : List Bytes)
    → view t' js ≡ (if leads_to ls js then none else if same_keys ks js then some i else view t js)

move_both :
    (t u t' : Item) (ks ls : List Bytes) (i : Info)
    → Updates t ks i u
    → Erases u ls true t'
    → Moved t ks ls i t'
move_both t u t' ks ls i up er js = ground (arith, up js, er js)

-- The names of a path behind one leading slash, and those of its parent.
abbrev pub names_of : Bytes → List Bytes
names_of path = components (strip_slash path)

abbrev pub parent_keys_of : Bytes → List Bytes
parent_keys_of path = map lower_name (but_last (names_of path))

module _ (icu : Icu) (os : Kernel) (from to : Bytes) (flags : ℕ) (m : MountState) (w : os.World)
    (old parent : Found) (n : ℕ) (out : Bytes) (p : Info)
    (old_found : find icu m.file_tree from false ≡ some old)
    (parent_found : find icu m.file_tree (get_parent_path to) false ≡ some parent)
    (worked : (os.run (rename_call icu os from to flags m w old parent) w).0 ≡ done n out)
    (ascii : IsAscii to) (clean : IsClean (strip_slash to))
    (parent_there : view m.file_tree (parent_keys_of to) ≡ some p) where
  abbrev real : Bytes
  real = new_real_parent icu os from to flags m w old parent ++ to

  given : real ≢ []
  given = append-ne-nil _ to (clean-ne-nil to clean)

  -- Where the old item and the new parent are found, the new path is ASCII and has no empty name,
  -- the system call succeeds, RENAME_NOREPLACE is not set, and the tree has an item behind the new
  -- path that is not deleted: the handler fails with EEXIST after the system call and leaves the
  -- tree as it was. The map of descriptors has what `operator[]` put into it.
  pub rename_overwrite :
      (i : Info)
      → view m.file_tree (keys_of to) ≡ some i
      → i.deleted ≡ false
      → no_replace flags ≡ false
      → usvfs_rename icu os from to flags (at_mount m w)
        ≡ ended
            (neg eexist)
            (after_lookups icu os from to flags m w old parent)
            (os.run (rename_call icu os from to flags m w old parent) w).1
  rename_overwrite i there live replace =
      rename_refused icu os from to flags m w old parent n out old_found parent_found worked eexist
        (ground arith)
        (refused_of_outcome _ eexist (
          outcome-add icu m.file_tree to real (get_type old.target) false ascii clean given
          ∙ ground arith))

  -- Where the old item and the new parent are found, both paths are ASCII, the old one is neither
  -- empty nor "/", the new one has no empty name, the tree is in order and its root not deleted,
  -- the system call succeeds, and the tree has nothing behind the new path, not even a deleted
  -- item, nor is the new path below the old one: the call returns 0. Behind the new path stands a
  -- record with the new name, the old type, and as its real path the new directory's followed by
  -- the whole new path; nothing stands behind the old path or below it; all else is as before.
  pub rename_moves :
      IsAscii from
      → from ≢ []
      → from ≢ bytes "/"
      → IsOrdered m.file_tree
      → is_deleted m.file_tree ≡ false
      → view m.file_tree (keys_of to) ≡ none
      → is_found (find icu m.file_tree to false) ≡ false
      → leads_to (keys_of from) (keys_of to) ≡ false
      → (t' : Item) × (usvfs_rename icu os from to flags (at_mount m w)
          ≡ ended
              (pos 0)
              (record (after_lookups icu os from to flags m w old parent) { file_tree = t' })
              (os.run (rename_call icu os from to flags m w old parent) w).1)
        × Moved m.file_tree
            (keys_of to)
            (keys_of from)
            (written none (last_name (names_of to)) real (get_type old.target))
            t'
  rename_moves ascii_from full not_root ordered live free not_found apart =
      let (t, ks, adds) =
        added_of_outcome (add icu m.file_tree to real (get_type old.target) false) (
          outcome-add icu m.file_tree to real (get_type old.target) false ascii clean given
          ∙ ground arith) in
      let (keys, up) =
        add-Updates icu m.file_tree to real (get_type old.target) false t ks ascii clean given
          adds in
      let up' : Updates m.file_tree (keys_of to) i t = ground_update ks t keys up in
      let (walked, at, there) =
        seek_found m.file_tree (keys_of from) false old (
          sym (find-keys_of icu m.file_tree from false ascii_from full not_root live)
          ∙ old_found) in
      let (t', erases, er) =
        erased_of_outcome t (keys_of from) (info_of old.target) (erase icu t from true)
          (erase-EraseOutcome icu t from true ascii_from full (
            IsOrdered-of_added _ t ks
              (add-AddsOrdered icu m.file_tree to real (get_type old.target) false ordered) adds))
          (untouched m.file_tree t (keys_of to) (keys_of from) i _ up' apart there) in
      (
        t',
        rename_moved icu os from to flags m w old parent n out old_found parent_found worked t t' ks
            (rw not_found refl) adds erases,
        move_both m.file_tree t t' (keys_of to) (keys_of from) i up' er,
      )
    where
      i : Info
      i = written none (last_name (names_of to)) real (get_type old.target)

      ground_update :
          (ks : List Bytes) (t : Item)
          → ks ≡ keys_of to
          → Updates m.file_tree ks
              (written (view m.file_tree ks) (last_name (names_of to)) real (get_type old.target))
              t
          → Updates m.file_tree (keys_of to) i t
      ground_update ks t keys up js =
          subst
            (λ ls. view t js ≡ (
              if same_keys ls js
              then some (
                  written (view m.file_tree ls) (last_name (names_of to)) real
                    (get_type old.target))
              else view m.file_tree js))
            keys (up js)
          ∙ rw free refl
