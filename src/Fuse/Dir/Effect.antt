-- ===== src/Fuse/Dir/Effect.antt =====
-- What `usvfs_rmdir` and `usvfs_mkdir` do to the tree.
use usvfs_fuse.Base.{
  ℕ, pos, true, false, some, if◌then◌else◌, [], ◌∷◌, Bytes, ◌≡◌, refl, sym, ap, ◌∙◌, arith, ◌≢◌,
  bytes,
}
use usvfs_fuse.Utils.{Icu, get_file_name_from_path}
use usvfs_fuse.Utils.Case.{IsAscii}
use usvfs_fuse.Tree.Item.{
  Item, item, Info, info_of, is_deleted, is_dir, children, set_deleted, modify,
}
use usvfs_fuse.Tree.View.{view, same_keys}
use usvfs_fuse.Tree.Find.{Found, find}
use usvfs_fuse.Tree.Find.Seen.{keys_of, find-keys_of, seek_found}
use usvfs_fuse.Tree.Modify.{modify-Updates}
use usvfs_fuse.Tree.Add.Effect.{Updates}
use usvfs_fuse.Tree.Erase.Walk.{is_empty-true}
use usvfs_fuse.Tree.Erase.Effect.{gone}
use usvfs_fuse.FdMap.{fd_at}
use usvfs_fuse.Kernel.{Kernel, Call, done, unlinkat, at_removedir}
use usvfs_fuse.Mount.{MountState, ended}
use usvfs_fuse.Fuse.{parent_path_of, file_name_of}
use usvfs_fuse.Fuse.Dir.{usvfs_rmdir, usvfs_mkdir, revived}

set_deleted-children : (c : Item) → children (set_deleted true c) ≡ children c
set_deleted-children (item i es) = refl

set_deleted-info : (c : Item) → info_of (set_deleted true c) ≡ gone (info_of c)
set_deleted-info (item i es) = refl

revived-children : (name : Bytes) (c : Item) → children (revived name c) ≡ children c
revived-children [] (item i es) = refl
revived-children (b ∷ name) (item i es) = refl

-- The record that `mkdir` brings back.
abbrev pub back : Bytes → Info → Info
back name i = record i { file_name = name; deleted = false }

revived-info :
    (name : Bytes) (c : Item) → name ≢ [] → info_of (revived name c) ≡ back name (info_of c)
revived-info [] c h = absurd (h refl)
revived-info (b ∷ name) (item i es) h = refl

module _ (icu : Icu) (os : Kernel) (path : Bytes) (m : MountState) (w : os.World) (r : Found) where
  abbrev pub rmdir_call : Call
  rmdir_call =
      unlinkat (fd_at icu m.fd_map (parent_path_of r.target)) (file_name_of r.target) at_removedir

  rmdir_marks :
      (n : ℕ) (out : Bytes)
      → find icu m.file_tree path false ≡ some r
      → is_dir r.target ≡ true
      → (os.run rmdir_call w).0 ≡ done n out
      → usvfs_rmdir icu os path (record { mount = some m; world = w })
        ≡ ended
            (pos 0)
            (record m { file_tree = modify (set_deleted true) r.keys m.file_tree })
            (os.run rmdir_call w).1
  unfolding usvfs_rmdir
  rmdir_marks n out found is_directory worked = ground (arith, is_empty-true r.target)

  -- On an ASCII path that is neither empty nor "/", in a tree whose root is not deleted: where a
  -- directory is found and the system call succeeds, the call returns 0 whether or not the tree has
  -- something below the directory. It marks the record of the directory, and the records of all
  -- other items, those below it too, are as before.
  pub rmdir_effect :
      (n : ℕ) (out : Bytes)
      → IsAscii path
      → path ≢ []
      → path ≢ bytes "/"
      → is_deleted m.file_tree ≡ false
      → find icu m.file_tree path false ≡ some r
      → is_dir r.target ≡ true
      → (os.run rmdir_call w).0 ≡ done n out
      → (t : Item) × (usvfs_rmdir icu os path (record { mount = some m; world = w })
          ≡ ended (pos 0) (record m { file_tree = t }) (os.run rmdir_call w).1)
        × Updates m.file_tree (keys_of path) (gone (info_of r.target)) t
  rmdir_effect n out ascii full not_root live found is_directory worked =
      let (keys, walked, shown) =
        seek_found m.file_tree (keys_of path) false r
          (sym (find-keys_of icu m.file_tree path false ascii full not_root live) ∙ found) in
      (
        modify (set_deleted true) (keys_of path) m.file_tree,
        rmdir_marks n out found is_directory worked
            ∙ ap
                (λ ks.
                  ended (pos 0) (record m { file_tree = modify (set_deleted true) ks m.file_tree })
                    (os.run rmdir_call w).1)
                keys,
        λ js.
            modify-Updates (set_deleted true) set_deleted-children (keys_of path) m.file_tree
              r.target walked js
            ∙ ap (λ i. if same_keys (keys_of path) js then some i else view m.file_tree js)
                (set_deleted-info r.target),
      )

  mkdir_revives :
      (mode : ℕ)
      → find icu m.file_tree path true ≡ some r
      → is_deleted r.target ≡ true
      → usvfs_mkdir icu os path mode (record { mount = some m; world = w })
        ≡ ended
            (pos 0)
            (record m {
              file_tree = modify (revived (get_file_name_from_path path)) r.keys m.file_tree;
            })
            w
  unfolding usvfs_mkdir
  mkdir_revives mode found deleted = ground arith

  -- On an ASCII path that is neither empty nor "/" and has a last name, in a tree whose root is not
  -- deleted: `mkdir` where a deleted item is found returns 0 with no system call at all. The item
  -- is not deleted any more and has the new name, and keeps its real path and its type, also that
  -- of a file; the other records are as before.
  pub mkdir_deleted :
      (mode : ℕ)
      → IsAscii path
      → path ≢ []
      → path ≢ bytes "/"
      → get_file_name_from_path path ≢ []
      → is_deleted m.file_tree ≡ false
      → find icu m.file_tree path true ≡ some r
      → is_deleted r.target ≡ true
      → (t : Item) × (usvfs_mkdir icu os path mode (record { mount = some m; world = w })
          ≡ ended (pos 0) (record m { file_tree = t }) w)
        × Updates m.file_tree
            (keys_of path)
            (back (get_file_name_from_path path) (info_of r.target))
            t
  mkdir_deleted mode ascii full not_root named live found deleted =
      let (keys, walked, shown) =
        seek_found m.file_tree (keys_of path) true r
          (sym (find-keys_of icu m.file_tree path true ascii full not_root live) ∙ found) in
      let name = get_file_name_from_path path in
      (
        modify (revived name) (keys_of path) m.file_tree,
        mkdir_revives mode found deleted
            ∙ ap
                (λ ks.
                  ended (pos 0) (record m { file_tree = modify (revived name) ks m.file_tree }) w)
                keys,
        λ js.
            modify-Updates (revived name) (revived-children name) (keys_of path) m.file_tree
              r.target walked js
            ∙ ap (λ i. if same_keys (keys_of path) js then some i else view m.file_tree js)
                (revived-info name r.target named),
      )
