-- ===== src/Tree/Find/Seen.antt =====
-- What `find` answers, from the view of the tree.
use usvfs_fuse.Base.{
  Bool, true, false, List, [], none, some, Bytes, ◌≡◌, ap, ◌∙◌, arith, Option-cases, inl, inr, map,
  ◌≢◌, components, bytes, same, same_iff, is_empty_bytes, ◌||◌, ◌∷◌, refl,
}
use usvfs_fuse.Utils.{Icu, lower_byte}
use usvfs_fuse.Utils.Case.{IsAscii, to_lower_of_ascii, components-map_lower}
use usvfs_fuse.Tree.Item.{Item, Info, info_of, is_deleted, walk}
use usvfs_fuse.Tree.View.{view, view-some, view-walk, view-nil}
use usvfs_fuse.Tree.Find.{strip_slash, Found, find}
use usvfs_fuse.Tree.Find.Walk.{
  seek, find-seek, names_of_item, find_internal-seek, IsAscii-strip_slash,
}

-- The keys that a path stands for.
abbrev pub keys_of : Bytes → List Bytes
keys_of path = map (map lower_byte) (components (strip_slash path))

pub find-keys_of :
    (icu : Icu) (t : Item) (path : Bytes) (d : Bool)
    → IsAscii path
    → path ≢ []
    → path ≢ bytes "/"
    → is_deleted t ≡ false
    → find icu t path d ≡ seek t (keys_of path) d
find-keys_of icu t path d ascii full not_root live =
    find-seek icu t path d ascii live
    ∙ ap (λ ns. seek t (map (map lower_byte) ns) d) (names_of_item path full not_root)

-- The search of an item that is not the root, whatever the root is marked as.
pub find_item :
    (icu : Icu) (t : Item) (path : Bytes) (d : Bool)
    → IsAscii path
    → path ≢ []
    → path ≢ bytes "/"
    → find icu t path d ≡ seek t (keys_of path) d
unfolding find
find_item icu t path d ascii full not_root =
    rw (other_path path full not_root, find)
      (rw (to_lower_of_ascii icu (strip_slash path) (IsAscii-strip_slash path ascii)) (
        find_internal-seek _ t (map lower_byte (strip_slash path)) d (omega arith)
        ∙ ap (λ ks. seek t ks d) (components-map_lower (strip_slash path))))
  where
    other_path :
        (p : Bytes) → p ≢ [] → p ≢ bytes "/" → (same p (bytes "/") || is_empty_bytes p) ≡ false
    other_path [] f n = absurd (f refl)
    other_path (b ∷ s) f n = ground (arith, same_iff (b ∷ s) (bytes "/"))

pub seek_deleted :
    (t : Item) (ks : List Bytes) (i : Info)
    → view t ks ≡ some i
    → i.deleted ≡ true
    → seek t ks false ≡ none
seek_deleted t ks i h deleted = let (c, w, e) = view-some t ks i h in ground arith

pub seek_nothing : (t : Item) (ks : List Bytes) (d : Bool) → view t ks ≡ none → seek t ks d ≡ none
seek_nothing t ks d h = elim (Option-cases (walk t ks)) [
  | inl e ↦ ground arith
  | inr (c, e) ↦ ground (arith, view-walk t ks c e)
]

-- What `seek` finds is in the view.
pub seek_found :
    (t : Item) (ks : List Bytes) (d : Bool) (r : Found)
    → seek t ks d ≡ some r
    → (r.keys ≡ ks) × (walk t ks ≡ some r.target) × (view t ks ≡ some (info_of r.target))
seek_found t ks d r h = elim (Option-cases (walk t ks)) [
  | inl e ↦ ground arith
  | inr (c, e) ↦ ground (arith, view-walk t ks c e)
]

pub root_live :
    (t t' : Item) → view t' [] ≡ view t [] → is_deleted t ≡ false → is_deleted t' ≡ false
root_live t t' h live = ground (arith, view-nil t, view-nil t')
