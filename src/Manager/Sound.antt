-- ===== src/Manager/Sound.antt =====
-- The trees that the links of src/usvfsmanager.cpp make for the pending mounts.
pub mod Links
pub mod Steps
use mathlib.Core.Option.{none-ne-some, some-injective}
use usvfs_fuse.Base.{
  ℕ, pos, Bool, true, false, not, Option, none, some, if◌then◌else◌, List, [], ◌∷◌, ◌++◌, Bytes,
  bytes, same, ◌≡◌, ◌≢◌, refl, sym, ap, ◌∙◌, subst, All, Bool-cases, Option-cases, inl, inr, ◌⊎◌,
}
use usvfs_fuse.Utils.{Icu, get_parent_path}
use usvfs_fuse.Utils.Case.{IsAscii}
use usvfs_fuse.Tree.Item.{Item, ItemType, Info, file, dir, lookup, create}
use usvfs_fuse.Tree.View.{view}
use usvfs_fuse.Tree.Find.{strip_slash}
use usvfs_fuse.Tree.Add.{AddResult, added, refused, null_entry, crash, add}
use usvfs_fuse.Tree.Add.Walk.{IsClean}
use usvfs_fuse.Tree.Merge.{merge}
use usvfs_fuse.Tree.Merge.Effect.{IsLive}
use usvfs_fuse.Tree.Sound.{IsSound, Fits}
use usvfs_fuse.Tree.Sound.Kept.{AddsSound, add-AddsSound, merge-IsSound}
use usvfs_fuse.FdMap.{FdMap, assign}
use usvfs_fuse.Kernel.{Kernel, open_dir, open_flags, done, Reply-cases}
use usvfs_fuse.Mount.{MountState}
use usvfs_fuse.Manager.{UsvfsManager, file_name_in_skip_suffixes}
use usvfs_fuse.Manager.Link.{
  DirEntry, Disk, Filled, filled, failed, Linked, answered, aborted, add_entries, create_file_tree,
  link_into, link_new, link_tree, split_at_mountpoint, is_recursive, is_skipped, assign_all,
  with_mount, new_mount, usvfs_virtual_link_file, usvfs_virtual_link_directory_static,
}
use usvfs_fuse.Manager.Link.Entries.{IsAlive, IsPlain, type_of, loop_step, filled-tree}
use usvfs_fuse.Manager.Link.Built.{root_of, root-IsAlive, add_entries-Ordered, IsLive-of_alive}

abbrev pub AllSound : List MountState → Type 0
AllSound ss = All (λ (s : MountState). IsSound s.file_tree) ss

-- The trees of all mounts are sound.
abbrev pub IsSoundManager : UsvfsManager → Type 0
IsSoundManager m = AllSound m.pending_mounts × AllSound m.mounts

-- Every entry of the disk has an ASCII path, without empty names, below the directory that is
-- walked.
abbrev pub IsPlainDisk : {W : Type 0} → Disk W → Type 0
IsPlainDisk {W} disk =
    (path : Bytes) (w : W) (es : List DirEntry) → disk.walk_dir path w ≡ some es → All IsPlain es

pub root-IsSound : (source : Bytes) → IsSound (root_of source)
unfolding view lookup
root-IsSound source = record { ordered = (tt, tt); fits = fits }
  where
    fits : (ks : List Bytes) (i : Info) → view (root_of source) ks ≡ some i → Fits ks i
    fits [] i h = sym (ap (λ (j : Info). j.type) (some-injective _ i h))
    fits (k ∷ ks) i h = absurd (none-ne-some i h)

pub AddsSound-cases :
    (r : AddResult)
    → AddsSound r
    → ((e : ℕ) × (r ≡ refused e)) ⊎ ((t : Item) × (ks : List Bytes) × (r ≡ added t ks) × IsSound t)
AddsSound-cases (refused e) x = inl (e, refl)
AddsSound-cases (added t ks) x = inr (t, ks, refl, x)
AddsSound-cases null_entry x = absurd x
AddsSound-cases crash x = absurd x

pub AllSound-append : (ss ts : List MountState) → AllSound ss → AllSound ts → AllSound (ss ++ ts)
AllSound-append [] ts p q = q
AllSound-append (s ∷ ss) ts (x, p) q = (x, AllSound-append ss ts p q)

abbrev pub SplitSound : Option (List MountState × MountState × List MountState) → Type 0
SplitSound none = Unit
SplitSound (some (before, s, behind)) = AllSound before × IsSound s.file_tree × AllSound behind

pub split-SplitSound :
    (p : Bytes) (ss : List MountState) → AllSound ss → SplitSound (split_at_mountpoint p ss)
unfolding split_at_mountpoint
split-SplitSound p [] all = tt
split-SplitSound p (t ∷ ss) (x, all) = elim (Bool-cases (same t.mountpoint p)) [
  | inl e ↦ rw e (tt, x, all)
  | inr e ↦ rw e (go (split_at_mountpoint p ss) (split-SplitSound p ss all))
]
  where
    go :
        (o : Option (List MountState × MountState × List MountState))
        → SplitSound o
        → SplitSound
            (elim o [ none ↦ none | some (before, u, behind) ↦ some (t ∷ before, u, behind) ])
    go none q = tt
    go (some (before, u, behind)) (q, y, r) = ((x, q), y, r)

-- A sound tree without deleted items.
abbrev pub FilledSound : {W : Type 0} → Filled W → Type 0
FilledSound (filled t fds w) = IsSound t × IsAlive t
FilledSound (failed w) = Unit

abbrev pub LinkedSound : {W : Type 0} → Linked W → Type 0
LinkedSound (answered b m w) = IsSoundManager m
LinkedSound aborted = Unit

module _ (icu : Icu) (os : Kernel) (disk : Disk os.World) where
  open os use {World, run}

  add_entries-IsSound :
      (skip : DirEntry → Bool) (t t' : Item) (fds fds' : FdMap) (es : List DirEntry) (w w' : World)
      → IsSound t
      → All IsPlain es
      → add_entries icu os disk skip t fds es w ≡ filled t' fds' w'
      → IsSound t'
  unfolding add_entries
  add_entries-IsSound skip t t' fds fds' [] w w' sound plain h =
      subst IsSound (filled-tree t t' fds fds' w w' h) sound
  add_entries-IsSound skip t t' fds fds' (e ∷ es) w w' sound (p, plain) h =
      elim (Bool-cases (skip e)) [
        | inl skipped ↦
            add_entries-IsSound skip t t' fds fds' es w w' sound plain (sym (rw skipped refl) ∙ h)
        | inr kept ↦
            let (u, ks, fds2, w2, adds, rest, grown) =
              loop_step icu os disk skip t fds e es w kept t' fds' w' h in
            add_entries-IsSound skip u t' fds2 fds' es w2 w'
              (subst AddsSound adds
                (add-AddsSound icu t e.relative e.path (type_of e) false p.0 p.1 p.2 sound))
              plain rest
      ]

  pub add_entries-FilledSound :
      (skip : DirEntry → Bool) (t : Item) (fds : FdMap) (es : List DirEntry) (w : World)
      → IsSound t
      → IsAlive t
      → All IsPlain es
      → FilledSound (add_entries icu os disk skip t fds es w)
  add_entries-FilledSound skip t fds es w sound alive plain =
      go (add_entries icu os disk skip t fds es w) refl
    where
      go : (r : Filled World) → add_entries icu os disk skip t fds es w ≡ r → FilledSound r
      go (failed w') h = tt
      go (filled t' fds' w') h = (
        add_entries-IsSound skip t t' fds fds' es w w' sound plain h,
        (add_entries-Ordered icu os disk skip t t' fds fds' es w w' sound.ordered alive plain h).1,
      )

  pub create_file_tree-FilledSound :
      (path : Bytes) (fds : FdMap) (w : World)
      → IsPlainDisk disk
      → FilledSound (create_file_tree icu os disk path fds w)
  unfolding create_file_tree create
  create_file_tree-FilledSound [] fds w plain = tt
  create_file_tree-FilledSound (b ∷ s) fds w plain =
      elim (Reply-cases (run (open_dir (b ∷ s) open_flags) w).0) [
        | inl (e, h) ↦ rw (h, create_file_tree) tt
        | inr (fd, out, h) ↦
            let w' = (run (open_dir (b ∷ s) open_flags) w).1 in
            elim (Option-cases (disk.walk_dir (b ∷ s) w')) [
              | inl e ↦ rw (h, e, create_file_tree) tt
              | inr (es, e) ↦
                  rw (h, e, create_file_tree)
                    (add_entries-FilledSound _ (root_of (b ∷ s)) _ es w' (root-IsSound (b ∷ s))
                      (root-IsAlive (b ∷ s)) (plain (b ∷ s) w' es e))
            ]
      ]

  pub link_tree-LinkedSound :
      (destination : Bytes) (t : Item) (fds : FdMap) (m : UsvfsManager) (w : World)
      → IsPlainDisk disk
      → IsSoundManager m
      → IsSound t
      → IsAlive t
      → LinkedSound (link_tree icu os disk destination t fds m w)
  unfolding link_tree
  link_tree-LinkedSound destination t fds m w plain all sound alive =
      go (split_at_mountpoint destination m.pending_mounts)
        (split-SplitSound destination m.pending_mounts all.0)
    where
      live : IsLive t
      live = IsLive-of_alive t sound.ordered alive

      made :
          (r : Filled World)
          → FilledSound r
          → LinkedSound (elim r [
            | failed w ↦ aborted
            | filled u fds w ↦
                answered true (with_mount m (new_mount destination (merge u t) fds)) w
          ])
      made (failed w) q = tt
      made (filled u fds w) (q, a) =
          (AllSound-append m.pending_mounts _ all.0 (merge-IsSound u t live q sound, tt), all.1)

      go :
          (o : Option (List MountState × MountState × List MountState))
          → SplitSound o
          → LinkedSound (elim o [
            | some (before, s, behind) ↦
                answered true
                  (record m {
                    pending_mounts =
                        before
                        ++ (record s {
                          file_tree = merge s.file_tree t;
                          fd_map = assign_all icu os disk fds s.fd_map;
                        }
                            ∷ behind);
                  })
                  w
            | none ↦ elim (create_file_tree icu os disk destination fds w) [
              | failed w ↦ aborted
              | filled u fds w ↦
                  answered true (with_mount m (new_mount destination (merge u t) fds)) w
            ]
          ])
      go none q = made _ (create_file_tree-FilledSound destination fds w plain)
      go (some (before, s, behind)) (q, x, r) =
          (AllSound-append before _ q (merge-IsSound s.file_tree t live x sound, r), all.1)
