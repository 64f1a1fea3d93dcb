-- ===== src/Fuse/Safety/Lookup.antt =====
-- What the handlers of src/usvfs.cpp know of the item that they have found.
use usvfs_fuse.Base.{
  Bool, true, List, [], ◌∷◌, some, Bytes, bytes, same, ◌≡◌, refl, sym, ap, ◌∙◌, ◌≢◌, inl, inr,
  Option-cases,
}
use mathlib.Core.Option.{none-ne-some, some-injective}
use usvfs_fuse.Utils.{Icu, is_ascii, get_file_name_from_path}
use usvfs_fuse.Utils.Case.{IsAscii}
use usvfs_fuse.Tree.Item.{Item, type_is_dir, Info, info_of, is_dir, children, lookup, walk}
use usvfs_fuse.Tree.View.{view-walk}
use usvfs_fuse.Tree.Find.{Found, find, strip_slash}
use usvfs_fuse.Tree.Find.Seen.{keys_of, find_item, seek_found}
use usvfs_fuse.Tree.Names.{last_name-strip_slash, clean-ne-nil, clean-ne-root}
use usvfs_fuse.Tree.Add.Walk.{IsClean}
use usvfs_fuse.Tree.Sound.{IsSound, Fits, Fits-keys_of}
use usvfs_fuse.Fuse.Attr.{parent_keys}
use usvfs_fuse.Fuse.Safety.{IsPath}

pub find_root :
    (icu : Icu) (t : Item) (d : Bool)
    → find icu t (bytes "/") d ≡ some (record { keys = []; target = t })
unfolding find same
find_root icu t d = refl

pub root_found :
    (icu : Icu) (t : Item) (path : Bytes) (d : Bool) (r : Found)
    → path ≡ bytes "/"
    → find icu t path d ≡ some r
    → r ≡ record { keys = []; target = t }
root_found icu t path d r e h =
    some-injective _ _ (sym h ∙ ap (λ p. find icu t p d) e ∙ find_root icu t d)

pub item_found :
    (icu : Icu) (t : Item) (path : Bytes) (d : Bool) (r : Found)
    → IsAscii path
    → IsClean (strip_slash path)
    → find icu t path d ≡ some r
    → (r.keys ≡ keys_of path) × (walk t r.keys ≡ some r.target)
item_found icu t path d r ascii clean h =
    let (keys, walked, seen) = seek_found t (keys_of path) d r (
      sym (find_item icu t path d ascii (clean-ne-nil path clean) (clean-ne-root path clean))
      ∙ h) in
    (keys, ap (walk t) keys ∙ walked)

-- The handle that `find` returns leads to the item that it returns.
pub found_walk :
    (icu : Icu) (t : Item) (path : Bytes) (d : Bool) (r : Found)
    → IsPath path
    → find icu t path d ≡ some r
    → walk t r.keys ≡ some r.target
unfolding walk
found_walk icu t path d r (inl e) h = rw (root_found icu t path d r e h) refl
found_walk icu t path d r (inr (ascii, clean)) h = (item_found icu t path d r ascii clean h).1

pub found-Fits :
    (t c : Item) (ks : List Bytes) → IsSound t → walk t ks ≡ some c → Fits ks (info_of c)
found-Fits t c ks sound walked = sound.fits ks (info_of c) (view-walk t ks c walked)

pub root_is_dir : (t c : Item) → IsSound t → walk t [] ≡ some c → is_dir c ≡ true
root_is_dir t c sound walked = ap type_is_dir (found-Fits t c [] sound walked)

-- An item that is not the root has a parent.
pub walk-parent_keys :
    (k : Bytes) (ks : List Bytes) (t c : Item)
    → walk t (k ∷ ks) ≡ some c
    → (p : Item) × (walk t (parent_keys (k ∷ ks)) ≡ some p)
unfolding walk
walk-parent_keys k [] t c h = (t, refl)
walk-parent_keys k (j ∷ ks) t c h = elim (Option-cases (lookup k (children t))) [
  | inl e ↦ absurd (none-ne-some c (sym (rw (e, walk) refl) ∙ h))
  | inr (d, e) ↦
      let (p, q) = walk-parent_keys j ks d c (sym (rw (e, walk) refl) ∙ h) in (p, rw (e, walk) q)
]

-- A record under another name of the same spelling but for case.
pub renamed-Fits :
    (path : Bytes) (j : Info)
    → IsAscii path
    → IsClean (strip_slash path)
    → j.file_name ≡ get_file_name_from_path path
    → Fits (keys_of path) j
renamed-Fits path j ascii clean h =
    Fits-keys_of path j ascii clean (h ∙ sym (last_name-strip_slash path))

pub IsPath-IsAscii : (path : Bytes) → IsPath path → IsAscii path
unfolding is_ascii
IsPath-IsAscii path (inl e) = rw e refl
IsPath-IsAscii path (inr (ascii, clean)) = ascii

pub IsPath-ne-nil : (path : Bytes) → IsPath path → path ≢ []
IsPath-ne-nil path (inl e) h = cc
IsPath-ne-nil path (inr (ascii, clean)) h = clean-ne-nil path clean h
