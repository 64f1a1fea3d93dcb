-- ===== src/Fuse/Safety/Changes.antt =====
-- `usvfs_readlink`, `usvfs_unlink` and `usvfs_rmdir` (src/usvfs.cpp).
use usvfs_fuse.Base.{
  ℕ, pos, Bool, true, false, not, some, List, [], ◌∷◌, Bytes, ◌≡◌, ◌⊎◌, refl, sym, ap, ◌∙◌, subst,
  Option-cases, Bool-cases, inl, inr,
}
use mathlib.Core.Bool.{true≢false}
use usvfs_fuse.Utils.{Icu}
use usvfs_fuse.Tree.Item.{
  Item, item, get_type, info_of, is_dir, set_deleted, children, modify, walk, file_name,
}
use usvfs_fuse.Tree.Find.{Found, find}
use usvfs_fuse.Tree.Erase.{erase, is_empty}
use usvfs_fuse.Tree.Erase.Order.{set_deleted-IsOrdered}
use usvfs_fuse.Tree.Sound.{IsSound, Fits-same}
use usvfs_fuse.Tree.Sound.Kept.{ErasesSound, erase-ErasesSound, modify-IsSound}
use usvfs_fuse.Kernel.{Kernel, Reply-cases}
use usvfs_fuse.Mount.{Context, with_state, sys}
use usvfs_fuse.Fuse.{with_item}
use usvfs_fuse.Fuse.Attr.{usvfs_readlink, parent_keys}
use usvfs_fuse.Fuse.Dir.{usvfs_rmdir}
use usvfs_fuse.Fuse.Entry.{usvfs_unlink}
use usvfs_fuse.Fuse.Entry.Unlink.{unlink_call}
use usvfs_fuse.Fuse.Parts.{EraseResult-cases}
use usvfs_fuse.Fuse.Safety.{
  IsPath, IsSoundMount, IsSafe, if-IsSafe, answered-IsSafe, ended-IsSafe, sys-IsSafe, mount_cases,
}
use usvfs_fuse.Fuse.Safety.Lookup.{
  IsPath-IsAscii, IsPath-ne-nil, found_walk, found-Fits, root_is_dir, walk-parent_keys,
}
use usvfs_fuse.Fuse.Safety.Reads.{LeavesRoom, IsReadSafe, safe-IsReadSafe, link_target-IsReadSafe}

keys_cases : (ks : List Bytes) → (ks ≡ []) ⊎ ((j : Bytes) × (js : List Bytes) × (ks ≡ j ∷ js))
keys_cases [] = inl refl
keys_cases (j ∷ js) = inr (j, js, refl)

-- An item that is no directory has a parent.
file_parent :
    (t : Item) (r : Found)
    → IsSound t
    → walk t r.keys ≡ some r.target
    → is_dir r.target ≡ false
    → (k : Bytes) × (ks : List Bytes) × (p : Item) × (r.keys ≡ k ∷ ks)
      × (walk t (parent_keys (k ∷ ks)) ≡ some p)
file_parent t r sound walked other = elim (keys_cases r.keys) [
  | inl h ↦
      absurd
        (true≢false (sym (root_is_dir t r.target sound (ap (walk t) (sym h) ∙ walked)) ∙ other))
  | inr (k, ks, h) ↦
      let (p, q) = walk-parent_keys k ks t r.target (ap (walk t) (sym h) ∙ walked) in
      (k, ks, p, h, q)
]

children-set_deleted : (b : Bool) (d : Item) → children (set_deleted b d) ≡ children d
children-set_deleted b (item i es) = refl

file_name-set_deleted : (b : Bool) (d : Item) → file_name d ≡ file_name (set_deleted b d)
file_name-set_deleted b (item i es) = refl

get_type-set_deleted : (b : Bool) (d : Item) → get_type d ≡ get_type (set_deleted b d)
get_type-set_deleted b (item i es) = refl

marked-IsSound :
    (t : Item) (r : Found)
    → IsSound t
    → walk t r.keys ≡ some r.target
    → IsSound (modify (set_deleted true) r.keys t)
marked-IsSound t r sound walked =
    modify-IsSound (set_deleted true) r.keys t r.target (children-set_deleted true)
      (set_deleted-IsOrdered true) walked
      (Fits-same r.keys (info_of r.target) (info_of (set_deleted true r.target))
        (file_name-set_deleted true r.target) (get_type-set_deleted true r.target)
        (found-Fits t r.target r.keys sound walked))
      sound

module _ (icu : Icu) (os : Kernel) where
  open os use {World, run}

  pub usvfs_readlink-IsReadSafe :
      (path : Bytes) (size : ℕ) (c : Context World)
      → IsPath path
      → IsSoundMount c.mount
      → IsReadSafe (LeavesRoom os size c.world) (usvfs_readlink icu os path size c)
  unfolding usvfs_readlink
  usvfs_readlink-IsReadSafe path size c ok sound = elim (mount_cases c sound) [
    | inl h ↦ rw (h, usvfs_readlink) (safe-IsReadSafe _ (answered-IsSafe _ tt))
    | inr (m, h, live) ↦ elim (Option-cases (find icu m.file_tree path false)) [
      | inl e ↦
          rw (h, e, usvfs_readlink, with_state, with_item, sys)
            (safe-IsReadSafe _ (answered-IsSafe _ live))
      | inr (r, e) ↦ elim (Bool-cases (is_dir r.target)) [
        | inl d ↦
            rw (h, e, d, usvfs_readlink, with_state, with_item, sys)
              (link_target-IsReadSafe icu os _ _ size m c.world live)
        | inr d ↦
            let (k, ks, p, keys, q) =
              file_parent m.file_tree r live (found_walk icu m.file_tree path false r ok e) d in
            rw (h, e, d, keys, q, usvfs_readlink, with_state, with_item, sys)
              (link_target-IsReadSafe icu os _ _ size m c.world live)
      ]
    ]
  ]

  pub usvfs_unlink-IsSafe :
      (path : Bytes) (c : Context World)
      → IsPath path
      → IsSoundMount c.mount
      → IsSafe (usvfs_unlink icu os path c)
  unfolding usvfs_unlink
  usvfs_unlink-IsSafe path c ok sound = elim (mount_cases c sound) [
    | inl h ↦ rw (h, usvfs_unlink) (answered-IsSafe _ tt)
    | inr (m, h, live) ↦ elim (Option-cases (find icu m.file_tree path false)) [
      | inl e ↦ rw (h, e, usvfs_unlink, with_state, with_item, sys) (answered-IsSafe _ live)
      | inr (r, e) ↦ elim (Reply-cases (run (unlink_call icu os path m c.world r) c.world).0) [
        | inl (n, f) ↦
            rw (h, e, f, usvfs_unlink, with_state, with_item, sys) (answered-IsSafe _ live)
        | inr (n, out, f) ↦ elim (EraseResult-cases (erase icu m.file_tree path false)) [
          | inl (t, g) ↦
              rw (h, e, f, g, usvfs_unlink, with_state, with_item, sys)
                (answered-IsSafe _ (
                  subst ErasesSound g (
                    erase-ErasesSound icu m.file_tree path false (IsPath-IsAscii path ok)
                      (IsPath-ne-nil path ok) live)))
          | inr (n, g) ↦
              rw (h, e, f, g, usvfs_unlink, with_state, with_item, sys) (answered-IsSafe _ live)
        ]
      ]
    ]
  ]

  pub usvfs_rmdir-IsSafe :
      (path : Bytes) (c : Context World)
      → IsPath path
      → IsSoundMount c.mount
      → IsSafe (usvfs_rmdir icu os path c)
  unfolding usvfs_rmdir
  usvfs_rmdir-IsSafe path c ok sound = elim (mount_cases c sound) [
    | inl h ↦ rw (h, usvfs_rmdir) (answered-IsSafe _ tt)
    | inr (m, h, live) ↦ elim (Option-cases (find icu m.file_tree path false)) [
      | inl e ↦ rw (h, e, usvfs_rmdir, with_state, with_item, sys) (answered-IsSafe _ live)
      | inr (r, e) ↦
          rw (h, e, usvfs_rmdir, with_state, with_item, sys)
            (if-IsSafe (not (is_dir r.target)) (ended-IsSafe _ m c.world live) (
              if-IsSafe (not (is_empty r.target)) (ended-IsSafe _ m c.world live) (
                sys-IsSafe os _ m c.world _ live λ n out w.
                  ended-IsSafe (pos 0)
                    (record m { file_tree = modify (set_deleted true) r.keys m.file_tree }) w
                    (marked-IsSound m.file_tree r live
                      (found_walk icu m.file_tree path false r ok e)))))
    ]
  ]
