-- ===== src/Tree/Erase/Found.antt =====
-- `find` after `erase`.
use usvfs_fuse.Base.{
  Bool, true, false, List, [], ◌∷◌, none, some, if◌then◌else◌, Bytes, ◌≡◌, refl, ap, ◌∙◌, arith,
  ◌≢◌, map, subst, bytes,
}
use usvfs_fuse.Utils.{Icu, lower_byte}
use usvfs_fuse.Utils.Case.{IsAscii}
use usvfs_fuse.Utils.Path.{components_cons}
use usvfs_fuse.Tree.Item.{Item, Info, is_deleted}
use usvfs_fuse.Tree.View.{view, leads_to, leads_to_refl, leads_to-nil}
use usvfs_fuse.Tree.Find.{find, strip_slash}
use usvfs_fuse.Tree.Find.Walk.{seek}
use usvfs_fuse.Tree.Find.Seen.{keys_of, find-keys_of, seek_deleted, seek_nothing, root_live}
use usvfs_fuse.Tree.Erase.Effect.{Erases, erased_info}

Erases-root :
    (t t' : Item) (k : Bytes) (ks : List Bytes) (r : Bool)
    → Erases t (k ∷ ks) r t'
    → view t' [] ≡ view t []
Erases-root t t' k ks r u = u [] ∙ rw (leads_to-nil k ks) refl

-- Erased paths are not found any more.
pub find-Erases :
    (icu : Icu) (t t' : Item) (path : Bytes) (i : Info)
    → IsAscii path
    → path ≢ []
    → path ≢ bytes "/"
    → is_deleted t ≡ false
    → view t (keys_of path) ≡ some i
    → (r : Bool) → Erases t (keys_of path) r t'
    → (is_deleted t' ≡ false) × (find icu t' path false ≡ none)
find-Erases icu t t' path i ascii full not_root live there r u =
    let (k, ks, e) = components_cons (strip_slash path) in
    let root =
      Erases-root t t' _ _ r (subst (λ ls. Erases t ls r t') (ap (map (map lower_byte)) e) u) in
    let live' : is_deleted t' ≡ false = root_live t t' root live in
    (live', find-keys_of icu t' path false ascii full not_root live' ∙ gone r (u (keys_of path)))
  where
    gone :
        (r : Bool)
        → view t' (keys_of path) ≡ (
            if leads_to (keys_of path) (keys_of path)
            then erased_info r (view t (keys_of path))
            else view t (keys_of path))
        → seek t' (keys_of path) false ≡ none
    gone true h =
        seek_nothing t' (keys_of path) false (ground (arith, leads_to_refl (keys_of path)))
    gone false h =
        seek_deleted t' (keys_of path) (record i { deleted = true })
          (ground (arith, leads_to_refl (keys_of path))) refl
