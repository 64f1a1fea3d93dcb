-- ===== src/Tree/Add/Found.antt =====
-- `find` after `add`.
use usvfs_fuse.Base.{
  Bool, true, false, ◌||◌, not, List, [], Option, none, some, Bytes, ◌≡◌, refl, ap, ◌∙◌, arith, map,
  ◌≢◌, components,
}
use usvfs_fuse.Utils.{Icu}
use usvfs_fuse.Utils.Case.{IsAscii}
use usvfs_fuse.Tree.Item.{Item, Info, info_of, ItemType, is_deleted}
use usvfs_fuse.Tree.View.{view, view-some, same_keys, same_keys_iff}
use usvfs_fuse.Tree.Find.{strip_slash, find}
use usvfs_fuse.Tree.Find.Walk.{names, find-seek, seek}
use usvfs_fuse.Tree.Add.{added, add}
use usvfs_fuse.Tree.Add.Walk.{lower_name, IsClean, clean_checks}
use usvfs_fuse.Tree.Add.Effect.{written, last_name, add-Updates}
use usvfs_fuse.Utils.Path.{components_cons}

names_of_clean :
    (path : Bytes) → IsClean (strip_slash path) → names path ≡ components (strip_slash path)
unfolding names
names_of_clean path h = let (full, not_slash) = clean_checks path h in rw (full, not_slash) refl

-- `seek` finds what the view shows as not deleted.
pub seek-view :
    (t : Item) (ks : List Bytes) (d : Bool) (i : Info)
    → view t ks ≡ some i
    → (not i.deleted || d) ≡ true
    → (c : Item) × (seek t ks d ≡ some (record { keys = ks; target = c })) × (info_of c ≡ i)
seek-view t ks d i h live = let (c, w, e) = view-some t ks i h in (c, ground arith, e)

root_live : (t t' : Item) → view t' [] ≡ view t [] → is_deleted t ≡ false → is_deleted t' ≡ false
unfolding view
root_live t t' h live = ground arith

written_live :
    (o : Option Info) (n real : Bytes) (k : ItemType)
    → (not (written o n real k).deleted || false) ≡ true
written_live none n real k = refl
written_live (some i) n real k = refl

-- A successful `add` can be looked up, on an ASCII path whose names behind one leading slash are
-- not empty, with a real path, and in a tree whose root is not deleted: `find` by the same path
-- returns an item at the keys that `add` returned, with the record that `add` wrote.
pub find-add :
    (icu : Icu) (t : Item) (path real : Bytes) (k : ItemType) (upd : Bool) (t' : Item)
    (ks : List Bytes)
    → IsAscii path
    → IsClean (strip_slash path)
    → real ≢ []
    → is_deleted t ≡ false
    → add icu t path real k upd ≡ added t' ks
    → (c : Item) × (find icu t' path false ≡ some (record { keys = ks; target = c }))
      × (info_of c ≡ written (view t ks) (last_name (components (strip_slash path))) real k)
unfolding view same_keys
find-add icu t path real k upd t' ks ascii clean given live h =
    let (keys, u) = add-Updates icu t path real k upd t' ks ascii clean given h in
    let (p, ps, e) = components_cons (strip_slash path) in
    let live' : is_deleted t' ≡ false =
      root_live t t' (u [] ∙ rw (keys ∙ ap (map lower_name) e) refl) live in
    let shown : view t' ks
        ≡ some (written (view t ks) (last_name (components (strip_slash path))) real k) =
      u ks ∙ rw ((same_keys_iff ks ks).1 refl) refl in
    let (c, found, info) = seek-view t' ks false _ shown (written_live (view t ks) _ real k) in
    (
      c,
      find-seek icu t' path false ascii live' ∙ rw (names_of_clean path clean) (rw (← keys) found),
      info,
    )
