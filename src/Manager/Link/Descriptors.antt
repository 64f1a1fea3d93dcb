-- ===== src/Manager/Link/Descriptors.antt =====
-- The descriptors of a tree that is made from a listing, and of a mount that it is merged into
-- (src/usvfsmanager.cpp).
use mathlib.Core.Option.{none-ne-some}
use usvfs_fuse.Base.{
  if_false, ℕ, ℤ, pos, Bool, true, false, some, List, [], ◌∷◌, Bytes, ◌≡◌, refl, sym, ap, ◌∙◌,
  subst, ◌⊎◌, inl, inr, All, arith, same, same_iff, Bool-cases, Option-cases,
}
use usvfs_fuse.Utils.{Icu, to_lower}
use usvfs_fuse.Tree.Item.{Item}
use usvfs_fuse.FdMap.{FdMap, map_find, map_set, assign, fd_at}
use usvfs_fuse.FdMap.Laws.{map_find-map_set}
use usvfs_fuse.Kernel.{Kernel}
use usvfs_fuse.Manager.Link.{DirEntry, Disk, filled, add_entries, assign_all}
use usvfs_fuse.Manager.Link.Entries.{loop_step, filled-fds}

-- The map has a descriptor under the key.
abbrev pub IsKnown : Bytes → FdMap → Type 0
IsKnown k fds = (n : ℕ) × (map_find k fds ≡ some (pos n))

-- The map has descriptors only.
abbrev pub AllOpen : FdMap → Type 0
AllOpen = All (λ (e : Bytes × ℤ). (n : ℕ) × (e.1 ≡ pos n))

pub map_set-AllOpen :
    (k : Bytes) (n : ℕ) (fds : FdMap) → AllOpen fds → AllOpen (map_set k (pos n) fds)
unfolding map_set
map_set-AllOpen k n [] h = ((n, refl), tt)
map_set-AllOpen k n ((j, old) ∷ fds) (h, hs) = elim (Bool-cases (same j k)) [
  | inl e ↦ rw (e, map_set) ((n, refl), hs)
  | inr e ↦ rw (e, map_set) (h, map_set-AllOpen k n fds hs)
]

map_set-IsKnown :
    (j k : Bytes) (n : ℕ) (fds : FdMap) → IsKnown j fds → IsKnown j (map_set k (pos n) fds)
map_set-IsKnown j k n fds (i, there) = elim (Bool-cases (same k j)) [
  | inl e ↦ (n, map_find-map_set j k (pos n) fds ∙ rw e refl)
  | inr e ↦ (i, map_find-map_set j k (pos n) fds ∙ rw e there)
]

pub IsKnown-map_set : (k : Bytes) (n : ℕ) (fds : FdMap) → IsKnown k (map_set k (pos n) fds)
IsKnown-map_set k n fds = (n, map_find-map_set k k (pos n) fds ∙ rw ((same_iff k k).1 refl) refl)

module _ (icu : Icu) (os : Kernel) (disk : Disk os.World) where
  -- What the mount has descriptors for, it keeps descriptors for.
  pub assign_all_keeps :
      (new fds : FdMap) (k : Bytes)
      → AllOpen new
      → IsKnown k fds
      → IsKnown k (assign_all icu os disk new fds)
  unfolding assign
  assign_all_keeps [] fds k h known = known
  assign_all_keeps ((path, fd) ∷ new) fds k ((n, e), hs) known =
      assign_all_keeps new (assign icu fds path fd) k hs (
        subst (λ x. IsKnown k (map_set (to_lower icu path) x fds)) (sym e)
          (map_set-IsKnown k (to_lower icu path) n fds known))

  -- What the source has descriptors for, the mount has descriptors for, under keys that are in lower
  -- case.
  pub assign_all_adds :
      (new fds : FdMap) (k : Bytes)
      → to_lower icu k ≡ k
      → AllOpen new
      → IsKnown k new
      → IsKnown k (assign_all icu os disk new fds)
  unfolding assign map_find
  assign_all_adds [] fds k low h (n, there) = absurd (none-ne-some _ there)
  assign_all_adds ((path, fd) ∷ new) fds k low ((n, e), hs) (i, there) =
      elim (Bool-cases (same path k)) [
        | inl s ↦ assign_all_keeps new (assign icu fds path fd) k hs (
            subst (λ x. IsKnown k (map_set x fd fds))
              (sym (ap (to_lower icu) ((same_iff path k).0 s) ∙ low))
              (subst (λ x. IsKnown k (map_set k x fds)) (sym e) (IsKnown-map_set k n fds)))
        | inr s ↦
            assign_all_adds new (assign icu fds path fd) k low hs
              (i, sym (if_false (same path k) (some fd) (map_find k new) s) ∙ there)
      ]

  -- Where the loop over a listing ends well, the map has descriptors only if it had before, has those
  -- that it had, and has one for each directory that is not skipped.
  pub add_entries_fds :
      (skip : DirEntry → Bool) (t t' : Item) (fds fds' : FdMap) (es : List DirEntry)
      (w w' : os.World)
      → AllOpen fds
      → add_entries icu os disk skip t fds es w ≡ filled t' fds' w'
      → AllOpen fds'
        × ((k : Bytes) → IsKnown k fds → IsKnown k fds')
        × All (λ e. (skip e ≡ true) ⊎ (e.directory ≡ false) ⊎ IsKnown (to_lower icu e.path) fds') es
  unfolding add_entries assign
  add_entries_fds skip t t' fds fds' [] w w' open_all h =
      let e = filled-fds t t' fds fds' w w' h in
      (subst AllOpen e open_all, (λ k known. subst (IsKnown k) e known), tt)
  add_entries_fds skip t t' fds fds' (e ∷ es) w w' open_all h = elim (Bool-cases (skip e)) [
    | inl skipped ↦
        let (all, keeps, dirs) =
          add_entries_fds skip t t' fds fds' es w w' open_all (sym (rw skipped refl) ∙ h) in
        (all, keeps, (inl skipped, dirs))
    | inr kept ↦
        let (u, ks, fds2, w2, adds, rest, grown) =
          loop_step icu os disk skip t fds e es w kept t' fds' w' h in
        elim grown [
          | inl (is_file, same_fds) ↦
              let (all, keeps, dirs) =
                add_entries_fds skip u t' fds2 fds' es w2 w' (subst AllOpen (sym same_fds) open_all)
                  rest in
              (
                all,
                (λ k known. keeps k (subst (IsKnown k) (sym same_fds) known)),
                (inr (inl is_file), dirs),
              )
          | inr (is_directory, n, more) ↦
              let (all, keeps, dirs) =
                add_entries_fds skip u t' fds2 fds' es w2 w'
                  (subst AllOpen (sym more) (map_set-AllOpen (to_lower icu e.path) n fds open_all))
                  rest in
              (
                all,
                (λ k known. keeps k (
                    subst (IsKnown k) (sym more)
                      (map_set-IsKnown k (to_lower icu e.path) n fds known))),
                (
                  inr (
                      inr (
                        keeps (to_lower icu e.path) (
                          subst (IsKnown (to_lower icu e.path)) (sym more)
                            (IsKnown-map_set (to_lower icu e.path) n fds)))),
                  dirs,
                ),
              )
        ]
  ]

  pub fd_at-IsKnown :
      (fds : FdMap) (path : Bytes) (n : ℕ)
      → fd_at icu fds path ≡ pos n
      → IsKnown (to_lower icu path) fds
  unfolding fd_at
  fd_at-IsKnown fds path n h = elim (Option-cases (map_find (to_lower icu path) fds)) [
    | inl e ↦ absurd (ground arith)
    | inr (fd, e) ↦ (n, e ∙ ap some (sym (rw (e, fd_at) refl) ∙ h))
  ]

  -- What `at` answers for a known path.
  pub known-fd_at :
      (fds : FdMap) (path : Bytes)
      → IsKnown (to_lower icu path) fds
      → (n : ℕ) × (fd_at icu fds path ≡ pos n)
  unfolding fd_at
  known-fd_at fds path (n, there) = (n, rw (there, fd_at) refl)
