-- ===== src/Tree/Path.antt =====
-- `filePath` (src/virtualfiletreeitem.cpp) and `find`.
use mathlib.Core.Option.{none-ne-some}
use usvfs_fuse.Base.{
  Bool, true, ◌||◌, not, List, [], ◌∷◌, ◌++◌, some, Bytes, bytes, same, slash, components, All, map,
  ◌≡◌, refl, sym, ap, ap₂, ◌∙◌, arith, subst, Option-cases, inl, inr, ◌≢◌, components_name,
  append-nil,
}
use usvfs_fuse.Utils.{Icu, is_ascii}
use usvfs_fuse.Utils.Case.{IsAscii}
use usvfs_fuse.Tree.Item.{Item, Info, children, lookup, walk, file_name, file_path, is_deleted}
use usvfs_fuse.Tree.View.{view, view_found, view-nil}
use usvfs_fuse.Tree.Find.{find}
use usvfs_fuse.Tree.Find.Walk.{seek}
use usvfs_fuse.Tree.Find.Seen.{find_item}
use usvfs_fuse.Tree.Names.{components-prefix}
use usvfs_fuse.Tree.Add.Walk.{lower_name, IsClean}
use usvfs_fuse.Tree.Sound.{IsSound, FitsBelow, Names}

-- Everything below the item stands under its lower-cased name.
abbrev pub IsKeyed : Item → Type 0
IsKeyed t = (k : Bytes) (ks : List Bytes) (i : Info) → view t (k ∷ ks) ≡ some i → FitsBelow k ks i

child-IsKeyed : (t c : Item) (k : Bytes) → IsKeyed t → lookup k (children t) ≡ some c → IsKeyed c
child-IsKeyed t c k keyed e j js i h = keyed k (j ∷ js) i (view_found t c k (j ∷ js) e ∙ h)

child-Names :
    (t c : Item) (k : Bytes) → IsKeyed t → lookup k (children t) ≡ some c → Names k (file_name c)
child-Names t c k keyed e = keyed k [] _ (view_found t c k [] e ∙ view-nil c)

IsAscii-append : (s t : Bytes) → IsAscii s → IsAscii t → IsAscii (s ++ t)
unfolding is_ascii
IsAscii-append [] t h g = g
IsAscii-append (b ∷ s) t h g = ground (arith, IsAscii-append s t)

pub IsAscii-slash : (s : Bytes) → IsAscii s → IsAscii (slash ∷ s)
unfolding is_ascii
IsAscii-slash s h = h

-- The path of the item behind the keys, less its first slash, is a clean one with these keys.
abbrev PathTo : Bytes → List Bytes → Type 0
PathTo p ks =
    (s : Bytes) × (p ≡ slash ∷ s) × (map lower_name (components s) ≡ ks) × IsAscii s × IsClean s

-- The path of a child, from the path below it.
PathTo-last : (k n : Bytes) → Names k n → PathTo (slash ∷ (n ++ [])) (k ∷ [])
PathTo-last k n (key, (ascii, name), full) = rw (append-nil n) (
  n,
  refl,
  rw (components_name n name) (ap (λ l. l ∷ []) (sym key)),
  ascii,
  rw (components_name n name) (full, tt),
)

PathTo-cons :
    (k n p : Bytes) (ks : List Bytes) → Names k n → PathTo p ks → PathTo (slash ∷ (n ++ p)) (k ∷ ks)
PathTo-cons k n p ks (key, (ascii, name), full) (s, e, keys, ascii', clean) = (
  n ++ p,
  refl,
  ap (λ q. map lower_name (components (n ++ q))) e
      ∙ ap (map lower_name) (components-prefix n s name)
      ∙ ap₂ ◌∷◌ (sym key) keys,
  subst (λ q. IsAscii (n ++ q)) (sym e)
      (IsAscii-append n (slash ∷ s) ascii (IsAscii-slash s ascii')),
  subst (λ q. IsClean (n ++ q)) (sym e)
      (subst (All (λ m. m ≢ [])) (sym (components-prefix n s name)) (full, clean)),
)

file_path-PathTo :
    (k : Bytes) (ks : List Bytes) (t c : Item)
    → IsKeyed t
    → walk t (k ∷ ks) ≡ some c
    → PathTo (file_path t (k ∷ ks)) (k ∷ ks)
unfolding walk file_path
file_path-PathTo k [] t c keyed h = elim (Option-cases (lookup k (children t))) [
  | inl e ↦ absurd (none-ne-some c (sym (rw (e, walk) refl) ∙ h))
  | inr (d, e) ↦ rw (e, file_path) (PathTo-last k (file_name d) (child-Names t d k keyed e))
]
file_path-PathTo k (j ∷ ks) t c keyed h = elim (Option-cases (lookup k (children t))) [
  | inl e ↦ absurd (none-ne-some c (sym (rw (e, walk) refl) ∙ h))
  | inr (d, e) ↦
      rw (e, file_path)
        (PathTo-cons k (file_name d) (file_path d (j ∷ ks)) (j ∷ ks) (child-Names t d k keyed e)
          (file_path-PathTo j ks d c (child-IsKeyed t d k keyed e) (sym (rw (e, walk) refl) ∙ h)))
]

clean-ne-slash : (s : Bytes) → IsClean s → (slash ∷ s) ≢ bytes "/"
unfolding components
clean-ne-slash [] clean h = clean.0 refl
clean-ne-slash (b ∷ s) clean h = cc

root_is : (t c : Item) → walk t [] ≡ some c → t ≡ c
unfolding walk
root_is t c h = cc

seek_there :
    (t c : Item) (ks : List Bytes) (d : Bool)
    → walk t ks ≡ some c
    → (not (is_deleted c) || d) ≡ true
    → seek t ks d ≡ some (record { keys = ks; target = c })
seek_there t c ks d walked wanted = ground arith

-- The path that `filePath` gives for an item of a sound tree leads back to it: `find` by that path
-- returns the same keys and the same item, where deleted items are asked for too or the item is not
-- deleted.
pub find-file_path :
    (icu : Icu) (t c : Item) (ks : List Bytes) (d : Bool)
    → IsSound t
    → walk t ks ≡ some c
    → (not (is_deleted c) || d) ≡ true
    → find icu t (file_path t ks) d ≡ some (record { keys = ks; target = c })
unfolding file_path find same
find-file_path icu t c [] d sound walked wanted = rw (root_is t c walked) refl
find-file_path icu t c (k ∷ ks) d sound walked wanted =
    let (s, e, keys, ascii, clean) =
      file_path-PathTo k ks t c (λ j js i h. sound.fits (j ∷ js) i h) walked in
    ap (λ p. find icu t p d) e
    ∙ find_item icu t (slash ∷ s) d (IsAscii-slash s ascii) (λ h. cc) (clean-ne-slash s clean)
    ∙ ap (λ ls. seek t ls d) keys
    ∙ seek_there t c (k ∷ ks) d walked wanted
