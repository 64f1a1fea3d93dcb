-- ===== src/Fuse/Made/Parent.antt =====
-- The directory of a new entry, as the handlers of src/usvfs.cpp look it up.
use mathlib.Core.Option.{none-ne-some}
use usvfs_fuse.Base.{
  false, List, [], ◌∷◌, ◌++◌, some, Bytes, slash, drop, ◌≡◌, ◌≢◌, refl, sym, ap, ◌∙◌, arith, subst,
  map, components, find_last_slash, IsName, components_name, Option-cases, inl, inr, bytes,
}
use usvfs_fuse.Utils.{Icu, is_ascii, get_parent_path, get_file_name_from_path}
use usvfs_fuse.Utils.Case.{IsAscii}
use usvfs_fuse.Utils.Path.{parts_of_path, name-last_slash, no_last_slash}
use usvfs_fuse.Tree.Item.{Item, Info, info_of}
use usvfs_fuse.Tree.Path.{IsAscii-slash}
use usvfs_fuse.Tree.View.{view, view-nil}
use usvfs_fuse.Tree.Find.{Found, find}
use usvfs_fuse.Tree.Find.Seen.{find_item, seek_found}
use usvfs_fuse.Tree.Add.Walk.{IsClean, lower_name, clean_head}
use usvfs_fuse.Tree.Add.Result.{but_last}

but_last-snoc : (ns : List Bytes) (n : Bytes) → but_last (ns ++ (n ∷ [])) ≡ ns
but_last-snoc [] n = refl
but_last-snoc (m ∷ []) n = refl
but_last-snoc (m ∷ l ∷ ns) n = ap (◌∷◌ m) (but_last-snoc (l ∷ ns) n)

IsAscii-prefix : (s t : Bytes) → IsAscii (s ++ t) → IsAscii s
unfolding is_ascii
IsAscii-prefix [] t h = refl
IsAscii-prefix (c ∷ s) t h = ground (arith, IsAscii-prefix s t)

parent_of_name : (s : Bytes) → IsName s → get_parent_path (slash ∷ s) ≡ []
unfolding get_parent_path find_last_slash
parent_of_name s h = rw (name-last_slash s h, get_parent_path) refl

parent_of_slashed :
    (s : Bytes) → ¬ IsName s → get_parent_path (slash ∷ s) ≡ slash ∷ get_parent_path s
unfolding get_parent_path find_last_slash
parent_of_slashed s h = elim (Option-cases (find_last_slash s)) [
  | inl e ↦ absurd (h (no_last_slash s e))
  | inr (q, e) ↦ rw (e, get_parent_path) refl
]

-- The names of the directory, and those of the path but its last.
parent_names :
    (s : Bytes)
    → ¬ IsName s
    → (components s ≡ components (get_parent_path s) ++ (get_file_name_from_path s ∷ []))
      × (but_last (components s) ≡ components (get_parent_path s))
parent_names s h =
    let e = (parts_of_path s h).2 in
    (e, ap but_last e ∙ but_last-snoc (components (get_parent_path s)) _)

IsAscii-get_parent_path : (s : Bytes) → ¬ IsName s → IsAscii s → IsAscii (get_parent_path s)
IsAscii-get_parent_path s h ascii =
    IsAscii-prefix (get_parent_path s) _ (subst IsAscii (parts_of_path s h).0 ascii)

-- A parent that is found has a record in the view.
parent_seen_below :
    (icu : Icu) (t : Item) (s : Bytes) (r : Found)
    → ¬ IsName s
    → IsAscii s
    → IsClean s
    → find icu t (slash ∷ get_parent_path s) false ≡ some r
    → view t (map lower_name (but_last (components s))) ≡ some (info_of r.target)
unfolding components
parent_seen_below icu t s r h ascii clean found = rw (parent_names s h).1 (
    (seek_found t (map lower_name (components (get_parent_path s))) false r (
      sym (
        find_item icu t (slash ∷ get_parent_path s) false
          (IsAscii-slash (get_parent_path s) (IsAscii-get_parent_path s h ascii)) (λ e. cc)
          not_root)
      ∙ found)).2)
  where
    not_root : (slash ∷ get_parent_path s) ≢ bytes "/"
    not_root e =
        clean_head (components s) (get_file_name_from_path s ∷ [])
          ((parent_names s h).0
            ∙ ap (λ p. components p ++ (get_file_name_from_path s ∷ [])) {y = []} (ap (drop 1) e))
          clean

-- The directory of a path with a leading slash that `find` finds has a record in the view.
pub parent_seen :
    (icu : Icu) (t : Item) (s : Bytes) (r : Found)
    → IsAscii s
    → IsClean s
    → find icu t (get_parent_path (slash ∷ s)) false ≡ some r
    → (i : Info) × (view t (map lower_name (but_last (components s))) ≡ some i)
parent_seen icu t s r ascii clean found = elim (Option-cases (find_last_slash s)) [
  | inl e ↦ (info_of t, rw (components_name s (no_last_slash s e)) (view-nil t))
  | inr (q, e) ↦
      let slashed : ¬ IsName s = λ n. none-ne-some q (sym (name-last_slash s n) ∙ e) in
      (
        info_of r.target,
        parent_seen_below icu t s r slashed ascii clean
            (ap (λ p. find icu t p false) (sym (parent_of_slashed s slashed)) ∙ found),
      )
]
