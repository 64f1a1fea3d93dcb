-- ===== src/Tree/Find/Walk.antt =====
-- The search of src/virtualfiletreeitem.cpp on bytes, and the walk along the names of a path.
use usvfs_fuse.Base.{
  ℕ, zero, suc, ◌<◌, Bool, false, ◌||◌, not, List, [], ◌∷◌, Option, none, some, if◌then◌else◌,
  Bytes, bytes, is_empty_bytes, starts_with_slash, same, find_slash, find_slash_from, length, take,
  drop, components, components_name, components_split, length-drop_lt, find_slash-lt,
  find_slash_from_first, length-take_of_le, ◌≡◌, refl, sym, ap, ◌∙◌, arith, Option-cases,
  Bool-cases, inl, inr, same_iff, map, find_slash, components_name, ◌≢◌,
}
use usvfs_fuse.Utils.{Icu, lower_byte}
use usvfs_fuse.Utils.Case.{IsAscii, to_lower_of_ascii, components-map_lower, IsAscii-drop}
use usvfs_fuse.Tree.Item.{Item, is_deleted, children, lookup, walk}
use usvfs_fuse.Tree.Find.{Found, below, find_internal, find, strip_slash}

-- The item that a list of names leads to, unless it is deleted and not wanted. Directories on the
-- way are not asked whether they are deleted.
abbrev pub seek : Item → List Bytes → Bool → Option Found
seek t ks include_deleted = elim (walk t ks) [
  | none ↦ none
  | some c ↦
      if not (is_deleted c) || include_deleted
      then some (record { keys = ks; target = c })
      else none
]

seek-below :
    (k : Bytes) (ks : List Bytes) (t c : Item) (d : Bool)
    → lookup k (children t) ≡ some c
    → below k (seek c ks d) ≡ seek t (k ∷ ks) d
unfolding walk
seek-below k ks t c d e = ground arith

seek_missing :
    (k : Bytes) (ks : List Bytes) (t : Item) (d : Bool)
    → lookup k (children t) ≡ none
    → seek t (k ∷ ks) d ≡ none
unfolding walk
seek_missing k ks t d e = ground arith

-- A search from the end of the first name finds the slash behind it.
second_search :
    (path : Bytes) (p : ℕ)
    → find_slash path ≡ some p
    → find_slash_from path (length (take p path)) ≡ some p
second_search path p e =
    ap (find_slash_from path) (length-take_of_le p path (omega (arith, find_slash-lt path p e)))
    ∙ find_slash_from_first path p e

module _ (fuel : ℕ) (t : Item) (path : Bytes) (d : Bool) where
  find_internal_name :
      find_slash path ≡ none → find_internal (suc fuel) t path d ≡ seek t (path ∷ []) d
  unfolding find_internal walk
  find_internal_name e = ground arith

  find_internal_missing :
      (p : ℕ)
      → find_slash path ≡ some p
      → lookup (take p path) (children t) ≡ none
      → find_internal (suc fuel) t path d ≡ none
  unfolding find_internal
  find_internal_missing p e missing = ground arith

  find_internal_down :
      (p : ℕ) (c : Item)
      → find_slash path ≡ some p
      → lookup (take p path) (children t) ≡ some c
      → find_internal (suc fuel) t path d
        ≡ below (take p path) (find_internal fuel c (drop (suc p) path) d)
  unfolding find_internal
  find_internal_down p c e found = ground (arith, second_search path p e)

-- With more fuel than bytes the search is the walk along the names of the path: it finds an item
-- exactly where the walk does.
pub find_internal-seek :
    (fuel : ℕ) (t : Item) (path : Bytes) (d : Bool)
    → length path < fuel
    → find_internal fuel t path d ≡ seek t (components path) d
find_internal-seek zero t path d h = absurd (omega arith)
find_internal-seek (suc fuel) t path d h = elim (Option-cases (find_slash path)) [
  | inl e ↦ rw (components_name path e) (find_internal_name fuel t path d e)
  | inr (p, e) ↦ elim (Option-cases (lookup (take p path) (children t))) [
    | inl missing ↦ rw (components_split path p e) (
        find_internal_missing fuel t path d p e missing
        ∙ sym (seek_missing (take p path) _ t d missing))
    | inr (c, found) ↦ rw (components_split path p e) (
        find_internal_down fuel t path d p c e found
        ∙ ap (below (take p path))
            (find_internal-seek fuel c _ d (omega (arith, length-drop_lt path p e)))
        ∙ seek-below (take p path) _ t c d found)
  ]
]

-- The names that `find` follows: none for the empty path and for "/", and else those of the path
-- without one leading slash.
unfoldable pub names : Bytes → List Bytes
names path =
    if same path (bytes "/") || is_empty_bytes path then [] else components (strip_slash path)

pub IsAscii-strip_slash : (path : Bytes) → IsAscii path → IsAscii (strip_slash path)
IsAscii-strip_slash path h = elim (Bool-cases (starts_with_slash path)) [
  | inl e ↦ rw e (IsAscii-drop 1 path h)
  | inr e ↦ rw e h
]

-- On an ASCII path and a tree whose root is not deleted, `find` walks along the lower-cased names
-- of the path. It asks the last item alone whether it is deleted.
pub find-seek :
    (icu : Icu) (t : Item) (path : Bytes) (d : Bool)
    → IsAscii path
    → is_deleted t ≡ false
    → find icu t path d ≡ seek t (map (map lower_byte) (names path)) d
unfolding find names walk
find-seek icu t path d h live = elim (Bool-cases (same path (bytes "/") || is_empty_bytes path)) [
  | inl e ↦ rw e (ground arith)
  | inr e ↦ rw e (
      rw (to_lower_of_ascii icu (strip_slash path) (IsAscii-strip_slash path h)) (
        find_internal-seek _ t (map lower_byte (strip_slash path)) d (omega arith)
        ∙ ap (λ ks. seek t ks d) (components-map_lower (strip_slash path))))
]

-- The names of a path that is neither empty nor "/".
pub names_of_item :
    (path : Bytes) → path ≢ [] → path ≢ bytes "/" → names path ≡ components (strip_slash path)
unfolding names
names_of_item [] full h = absurd (full refl)
names_of_item (c ∷ s) full h = ground (arith, same_iff (c ∷ s) (bytes "/"))
