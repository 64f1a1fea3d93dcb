-- ===== src/Manager/Sound/Links.antt =====
-- `usvfsVirtualLinkFile` and `usvfsVirtualLinkDirectoryStatic` (src/usvfsmanager.cpp), and the trees
-- of the pending mounts.
use usvfs_fuse.Base.{
  ℕ, true, false, List, [], ◌∷◌, Bytes, ◌≡◌, ◌≢◌, subst, Bool-cases, Option-cases, inl, inr,
}
use usvfs_fuse.Utils.{Icu, get_parent_path}
use usvfs_fuse.Utils.Case.{IsAscii}
use usvfs_fuse.Tree.Item.{file, create}
use usvfs_fuse.Tree.Find.{strip_slash}
use usvfs_fuse.Tree.Add.{AddResult, added, refused, null_entry, crash, add}
use usvfs_fuse.Tree.Add.Walk.{IsClean}
use usvfs_fuse.Tree.Sound.{IsSound}
use usvfs_fuse.Tree.Sound.Kept.{AddsSound, add-AddsSound}
use usvfs_fuse.FdMap.{FdMap}
use usvfs_fuse.Kernel.{Kernel, open_dir, open_flags, done, Reply-cases}
use usvfs_fuse.Mount.{MountState}
use usvfs_fuse.Manager.{UsvfsManager, file_name_in_skip_suffixes}
use usvfs_fuse.Manager.Link.{
  Disk, Filled, filled, failed, answered, aborted, link_into, link_new, link_tree,
  split_at_mountpoint, is_recursive, is_skipped, with_mount, new_mount, usvfs_virtual_link_file,
  usvfs_virtual_link_directory_static,
}
use usvfs_fuse.Manager.Link.Built.{root_of, root-IsAlive}
use usvfs_fuse.Manager.Sound.{
  AllSound, IsSoundManager, IsPlainDisk, root-IsSound, AddsSound-cases, AllSound-append, SplitSound,
  split-SplitSound, FilledSound, LinkedSound, add_entries-FilledSound, create_file_tree-FilledSound,
  link_tree-LinkedSound,
}

module _ (icu : Icu) (os : Kernel) (disk : Disk os.World) where
  open os use {World, run}

  pub directory-LinkedSound :
      (source destination : Bytes) (flags : ℕ) (m : UsvfsManager) (w : World)
      → IsPlainDisk disk
      → IsSoundManager m
      → LinkedSound (usvfs_virtual_link_directory_static icu os disk source destination flags m w)
  unfolding usvfs_virtual_link_directory_static create
  directory-LinkedSound source destination flags m w plain all =
      elim (Reply-cases (run (open_dir source open_flags) w).0) [
        | inl (e, h) ↦ rw (h, usvfs_virtual_link_directory_static) all
        | inr (fd, out, h) ↦ opened source h
      ]
    where
      walked :
          (r : Filled World)
          → FilledSound r
          → LinkedSound (elim r [
            | failed w ↦ answered false m w
            | filled t fds w ↦ link_tree icu os disk destination t fds m w
          ])
      walked (failed w) q = all
      walked (filled t fds w) (q, a) =
          link_tree-LinkedSound icu os disk destination t fds m w plain all q a

      opened :
          (source : Bytes) {fd : ℕ} {out : Bytes}
          → (run (open_dir source open_flags) w).0 ≡ done fd out
          → LinkedSound
              (usvfs_virtual_link_directory_static icu os disk source destination flags m w)
      opened [] h =
          let w' = (run (open_dir [] open_flags) w).1 in
          elim (Bool-cases (is_recursive flags)) [
            | inr e ↦ rw (h, e, usvfs_virtual_link_directory_static) tt
            | inl e ↦ elim (Option-cases (disk.walk_dir [] w')) [
              | inl g ↦ rw (h, e, g, usvfs_virtual_link_directory_static) all
              | inr (es, g) ↦ rw (h, e, g, usvfs_virtual_link_directory_static) tt
            ]
          ]
      opened (b ∷ s) {fd} h =
          let w' = (run (open_dir (b ∷ s) open_flags) w).1 in
          elim (Bool-cases (is_recursive flags)) [
            | inr e ↦
                rw (h, e, usvfs_virtual_link_directory_static)
                  (link_tree-LinkedSound icu os disk destination (root_of (b ∷ s)) _ m w' plain all
                    (root-IsSound (b ∷ s)) (root-IsAlive (b ∷ s)))
            | inl e ↦ elim (Option-cases (disk.walk_dir (b ∷ s) w')) [
              | inl g ↦ rw (h, e, g, usvfs_virtual_link_directory_static) all
              | inr (es, g) ↦
                  rw (h, e, g, usvfs_virtual_link_directory_static)
                    (walked _ (
                      add_entries-FilledSound icu os disk (is_skipped icu os disk m)
                        (root_of (b ∷ s)) _ es w' (root-IsSound (b ∷ s)) (root-IsAlive (b ∷ s))
                        (plain (b ∷ s) w' es g)))
            ]
          ]

  module _ (source name : Bytes) (ascii : IsAscii name) (clean : IsClean (strip_slash name))
      (given : source ≢ []) where
    link_into-LinkedSound :
        (m : UsvfsManager) (before behind : List MountState) (s : MountState) (w : World)
        → IsSoundManager m
        → AllSound before
        → IsSound s.file_tree
        → AllSound behind
        → LinkedSound (link_into icu os disk source name m before s behind w)
    unfolding link_into
    link_into-LinkedSound m before behind s w all p sound q =
        elim (AddsSound-cases (add icu s.file_tree name source file false)
          (add-AddsSound icu s.file_tree name source file false ascii clean given sound)) [
            | inl (e, h) ↦ rw (h, link_into) all
            | inr (t, ks, h, x) ↦
                elim (Reply-cases (run (open_dir (get_parent_path source) open_flags) w).0) [
                  | inl (e, g) ↦ rw (h, g, link_into) (AllSound-append before _ p (x, q), all.1)
                  | inr (fd, out, g) ↦
                      rw (h, g, link_into) (AllSound-append before _ p (x, q), all.1)
                ]
          ]

    link_new-LinkedSound :
        (dst_dir dst_parent_dir : Bytes) (m : UsvfsManager) (fds : FdMap) (w : World)
        → IsPlainDisk disk
        → IsSoundManager m
        → LinkedSound (link_new icu os disk source name dst_dir dst_parent_dir m fds w)
    unfolding link_new
    link_new-LinkedSound dst_dir dst_parent_dir m fds w plain all =
        made _ (create_file_tree-FilledSound icu os disk dst_parent_dir fds w plain)
      where
        put :
            (fds : FdMap) (w : World) (r : AddResult)
            → AddsSound r
            → LinkedSound (elim r [
              | refused k ↦ answered false m w
              | null_entry ↦ answered false m w
              | crash ↦ aborted
              | added t' ks ↦ answered true (with_mount m (new_mount dst_dir t' fds)) w
            ])
        put fds w (refused k) x = all
        put fds w null_entry x = all
        put fds w crash x = tt
        put fds w (added t ks) x = (AllSound-append m.pending_mounts _ all.0 (x, tt), all.1)

        made :
            (r : Filled World)
            → FilledSound r
            → LinkedSound (elim r [
              | failed w ↦ aborted
              | filled t fds w ↦ elim (add icu t name source file true) [
                | refused k ↦ answered false m w
                | null_entry ↦ answered false m w
                | crash ↦ aborted
                | added t' ks ↦ answered true (with_mount m (new_mount dst_dir t' fds)) w
              ]
            ])
        made (failed w) q = tt
        made (filled t fds w) (q, a) =
            put fds w _ (add-AddsSound icu t name source file true ascii clean given q)

  pub file-LinkedSound :
      (source destination : Bytes) (m : UsvfsManager) (w : World)
      → IsAscii (disk.filename destination)
      → IsClean (strip_slash (disk.filename destination))
      → source ≢ []
      → IsPlainDisk disk
      → IsSoundManager m
      → LinkedSound (usvfs_virtual_link_file icu os disk source destination m w)
  unfolding usvfs_virtual_link_file
  file-LinkedSound source destination m w ascii clean given plain all =
      elim (Bool-cases
        (file_name_in_skip_suffixes icu (disk.filename source) m.skip_file_suffixes)) [
          | inl e ↦ rw (e, usvfs_virtual_link_file) all
          | inr e ↦
              let parent = disk.parent_path destination in
              elim (Option-cases (split_at_mountpoint parent m.pending_mounts)) [
                | inr ((before, s, behind), h) ↦
                    let (p, x, q) =
                      subst SplitSound h (split-SplitSound parent m.pending_mounts all.0) in
                    rw (e, h, usvfs_virtual_link_file)
                      (link_into-LinkedSound source _ ascii clean given m before behind s w all p x
                        q)
                | inl h ↦
                    let r = run (open_dir (get_parent_path source) open_flags) w in
                    let q = run (open_dir (get_parent_path destination) open_flags) r.1 in
                    elim (Reply-cases r.0) [
                      | inl (k, f) ↦ rw (e, h, f, usvfs_virtual_link_file) all
                      | inr (fd, out, f) ↦ elim (Reply-cases q.0) [
                        | inl (k, g) ↦ rw (e, h, f, g, usvfs_virtual_link_file) all
                        | inr (fd', out', g) ↦
                            rw (e, h, f, g, usvfs_virtual_link_file)
                              (link_new-LinkedSound source _ ascii clean given parent
                                (get_parent_path destination) m _ q.1 plain all)
                      ]
                    ]
              ]
        ]
