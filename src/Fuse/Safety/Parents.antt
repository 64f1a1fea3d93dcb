-- ===== src/Fuse/Safety/Parents.antt =====
-- `createParentDir` and what becomes of the result of `add` (src/usvfs.cpp).
use usvfs_fuse.Base.{
  ℕ, ℤ, pos, not, ◌&&◌, is_minus_one, is_negative, Bytes, ◌≡◌, refl, sym, subst, Bool-cases, inl,
  inr, is_empty_bytes,
}
use usvfs_fuse.Utils.{Icu, get_parent_path, get_file_name_from_path}
use usvfs_fuse.Tree.Item.{Item}
use usvfs_fuse.Tree.Add.{AddResult, added, refused, null_entry, crash}
use usvfs_fuse.Tree.Sound.{IsSound}
use usvfs_fuse.Tree.Sound.Kept.{AddsSound}
use usvfs_fuse.Kernel.{Kernel, Reply-cases, mkdirat, openat, open_flags}
use usvfs_fuse.FdMap.{fd_at}
use usvfs_fuse.Mount.{MountState, Outcome}
use usvfs_fuse.Fuse.{parent_fd, create_parent_dir, opened_parent, ParentFd, ready, stopped}
use usvfs_fuse.Fuse.Parts.{placed, in_parent}
use usvfs_fuse.Fuse.Safety.{IsSafe, answered-IsSafe}

pub placed-IsSafe :
    {W : Type 0} (m : MountState) (w : W) (code : ℕ → ℤ) (r : AddResult)
    → IsSound m.file_tree
    → AddsSound r
    → IsSafe (placed m w code r)
placed-IsSafe m w code (added t ks) sound adds = answered-IsSafe (pos 0) adds
placed-IsSafe m w code (refused e) sound adds = answered-IsSafe (code e) sound
placed-IsSafe m w code null_entry sound adds = absurd adds
placed-IsSafe m w code crash sound adds = absurd adds

-- What `createParentDir` leaves alone.
abbrev KeepsTree : {W : Type 0} → Item → ParentFd W → Type 0
KeepsTree t (ready fd m w) = m.file_tree ≡ t
KeepsTree t (stopped code m w) = m.file_tree ≡ t

module _ (icu : Icu) (os : Kernel) where
  open os use {World, run}

  pub create_parent_dir-tree :
      (m : MountState) (real : Bytes) (mode : ℕ) (w : World)
      → (create_parent_dir icu os m real mode w).1.file_tree ≡ m.file_tree
  unfolding create_parent_dir opened_parent
  create_parent_dir-tree m real mode w =
      let parent_name = get_file_name_from_path real in
      let fd = fd_at icu m.fd_map (get_parent_path real) in
      let r = run (mkdirat fd parent_name mode) w in
      elim (Reply-cases r.0) [
        | inl (e, h) ↦ rw (h, create_parent_dir) refl
        | inr (n, out, h) ↦ elim (Reply-cases (run (openat fd parent_name open_flags 0) r.1).0) [
          | inl (e, g) ↦ rw (h, create_parent_dir) (rw (g, opened_parent) refl)
          | inr (k, o, g) ↦ rw (h, create_parent_dir) (rw (g, opened_parent) refl)
        ]
      ]

  parent_fd-KeepsTree :
      (m : MountState) (real : Bytes) (mode : ℕ) (w : World)
      → KeepsTree m.file_tree (parent_fd icu os m real mode w)
  unfolding parent_fd
  parent_fd-KeepsTree m real mode w =
      elim (Bool-cases
        (is_minus_one (fd_at icu m.fd_map real) && not (is_empty_bytes m.upper_dir))) [
          | inr e ↦ rw (e, parent_fd) refl
          | inl e ↦ elim (Bool-cases (is_negative (create_parent_dir icu os m real mode w).0)) [
            | inl h ↦ rw (e, h, parent_fd) (create_parent_dir-tree m real mode w)
            | inr h ↦ rw (e, h, parent_fd) (create_parent_dir-tree m real mode w)
          ]
        ]

  pub parent-IsSafe :
      (m : MountState) (real : Bytes) (mode : ℕ) (w : World)
      → (k : ℤ → MountState → World → Outcome World) → IsSound m.file_tree
      → ((fd : ℤ) (m' : MountState) (w' : World) → IsSound m'.file_tree → IsSafe (k fd m' w'))
      → IsSafe (in_parent (parent_fd icu os m real mode w) k)
  parent-IsSafe m real mode w k sound safe =
      go (parent_fd icu os m real mode w) (parent_fd-KeepsTree m real mode w)
    where
      go : (p : ParentFd World) → KeepsTree m.file_tree p → IsSafe (in_parent p k)
      go (ready fd m' w') h = safe fd m' w' (subst IsSound (sym h) sound)
      go (stopped code m' w') h = answered-IsSafe code (subst IsSound (sym h) sound)
