-- ===== src/Fuse/Entry/Unlink.antt =====
-- What `usvfs_unlink` (src/usvfs.cpp) does to the tree.
use mathlib.Core.Option.{none-ne-some}
use usvfs_fuse.Base.{
  ℕ, pos, neg, false, none, some, [], Bytes, ◌≡◌, refl, sym, ◌∙◌, arith, ◌≢◌, subst, bytes,
}
use usvfs_fuse.Utils.{Icu}
use usvfs_fuse.Utils.Case.{IsAscii}
use usvfs_fuse.Tree.Item.{Item, info_of, is_deleted}
use usvfs_fuse.Tree.View.{view}
use usvfs_fuse.Tree.Order.{IsOrdered}
use usvfs_fuse.Tree.Find.{Found, find}
use usvfs_fuse.Tree.Find.Seen.{keys_of, find-keys_of, seek_found}
use usvfs_fuse.Tree.Erase.Found.{find-Erases}
use usvfs_fuse.Tree.Erase.Order.{ErasesOrdered, erase-ErasesOrdered}
use usvfs_fuse.Tree.Erase.{EraseResult, erase, erased, refused}
use usvfs_fuse.Tree.Erase.Effect.{Erases, EraseOutcome, erase-EraseOutcome}
use usvfs_fuse.FdMap.{fd_at}
use usvfs_fuse.Kernel.{Kernel, Call, done, fail, unlinkat}
use usvfs_fuse.Mount.{MountState, Context, ended}
use usvfs_fuse.Fuse.{parent_path_of, file_name_of}
use usvfs_fuse.Fuse.Entry.{usvfs_unlink}

-- The context with another mount and machine.
abbrev pub at_mount : {W : Type 0} → MountState → W → Context W
at_mount m w = record { mount = some m; world = w }

module _ (icu : Icu) (os : Kernel) (path : Bytes) (m : MountState) (w : os.World) (r : Found) where
  -- The one system call of `usvfs_unlink`.
  abbrev pub unlink_call : Call
  unlink_call = unlinkat (fd_at icu m.fd_map (parent_path_of r.target)) (file_name_of r.target) 0

  -- Where the item is found and the system call fails, `usvfs_unlink` returns the negated error and
  -- leaves the mount as it was.
  pub unlink_fails :
      (e : ℕ)
      → find icu m.file_tree path false ≡ some r
      → (os.run unlink_call w).0 ≡ fail e
      → usvfs_unlink icu os path (at_mount m w) ≡ ended (neg e) m (os.run unlink_call w).1
  unfolding usvfs_unlink
  unlink_fails e found failed = ground arith

  unlink_erases :
      (n : ℕ) (out : Bytes) (t : Item)
      → find icu m.file_tree path false ≡ some r
      → (os.run unlink_call w).0 ≡ done n out
      → erase icu m.file_tree path false ≡ erased t
      → usvfs_unlink icu os path (at_mount m w)
        ≡ ended (pos 0) (record m { file_tree = t }) (os.run unlink_call w).1
  unfolding usvfs_unlink
  unlink_erases n out t found worked erases = ground arith

  unlink_refused :
      (n e : ℕ) (out : Bytes)
      → find icu m.file_tree path false ≡ some r
      → (os.run unlink_call w).0 ≡ done n out
      → erase icu m.file_tree path false ≡ refused e
      → usvfs_unlink icu os path (at_mount m w) ≡ ended (neg e) m (os.run unlink_call w).1
  unfolding usvfs_unlink
  unlink_refused n e out found worked erases = ground arith

  -- On an ASCII path that is neither empty nor "/", in a tree in order whose root is not deleted:
  -- an item that is found, and whose system call succeeds, is marked as deleted with all below it.
  -- The call returns 0, the records behind all other paths are as before, the path is not found any
  -- more, and the tree is in order.
  pub unlink_effect :
      (n : ℕ) (out : Bytes)
      → IsAscii path
      → path ≢ []
      → path ≢ bytes "/"
      → IsOrdered m.file_tree
      → is_deleted m.file_tree ≡ false
      → find icu m.file_tree path false ≡ some r
      → (os.run unlink_call w).0 ≡ done n out
      → (t : Item) × (usvfs_unlink icu os path (at_mount m w)
          ≡ ended (pos 0) (record m { file_tree = t }) (os.run unlink_call w).1)
        × Erases m.file_tree (keys_of path) false t
        × (find icu t path false ≡ none)
        × IsOrdered t
  unlink_effect n out ascii full not_root ordered live found worked =
      let (keys, walked, shown) =
        seek_found m.file_tree (keys_of path) false r
          (sym (find-keys_of icu m.file_tree path false ascii full not_root live) ∙ found) in
      go (erase icu m.file_tree path false) refl shown
        (erase-EraseOutcome icu m.file_tree path false ascii full ordered)
        (erase-ErasesOrdered icu m.file_tree path false ordered)
    where
      go :
          (result : EraseResult)
          → erase icu m.file_tree path false ≡ result
          → view m.file_tree (keys_of path) ≡ some (info_of r.target)
          → EraseOutcome m.file_tree (keys_of path) false (erase icu m.file_tree path false)
          → ErasesOrdered (erase icu m.file_tree path false)
          → (t : Item) × (usvfs_unlink icu os path (at_mount m w)
              ≡ ended (pos 0) (record m { file_tree = t }) (os.run unlink_call w).1)
            × Erases m.file_tree (keys_of path) false t
            × (find icu t path false ≡ none)
            × IsOrdered t
      go (erased t) e shown outcome order =
          let (there, u) = subst (EraseOutcome m.file_tree (keys_of path) false) e outcome in
          (
            t,
            unlink_erases n out t found worked e,
            u,
            (find-Erases icu m.file_tree t path _ ascii full not_root live shown false u).1,
            subst ErasesOrdered e order,
          )
      go (refused k) e shown outcome order =
          let (nothing, error) = subst (EraseOutcome m.file_tree (keys_of path) false) e outcome in
          absurd (none-ne-some _ (sym nothing ∙ shown))
