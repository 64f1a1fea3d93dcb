-- ===== src/Tree/View.antt =====
-- What a tree means to its clients: a partial map from lists of keys to the records behind them.
use usvfs_fuse.Base.{
  Bool, true, false, ◌&&◌, Option, none, some, if◌then◌else◌, Bytes, same, same_iff, same_refl, ◌≡◌,
  refl, ap, ◌∙◌, arith, ◌↔◌, Option-cases, inl, inr, List, [], ◌∷◌,
}
use usvfs_fuse.Tree.Item.{
  Item, item, Entries, lookup, insert, walk, children, with_children, Info, info_of,
}
use usvfs_fuse.Tree.Entries.{lookup-insert}

unfoldable pub view : Item → List Bytes → Option Info
view t [] = some (info_of t)
view t (k ∷ ks) = elim (lookup k (children t)) [ none ↦ none | some c ↦ view c ks ]

-- The view of what a directory has under a key, if anything.
abbrev pub view_child : Option Item → List Bytes → Option Info
view_child none ks = none
view_child (some c) ks = view c ks

pub view-cons :
    (t : Item) (k : Bytes) (ks : List Bytes)
    → view t (k ∷ ks) ≡ view_child (lookup k (children t)) ks
unfolding view
view-cons t k ks = ground arith

-- The view is the walk, less the children.
pub view-walk :
    (t : Item) (ks : List Bytes) (c : Item) → walk t ks ≡ some c → view t ks ≡ some (info_of c)
unfolding view walk
view-walk t [] c h = ground arith
view-walk t (k ∷ ks) c h = elim (Option-cases (lookup k (children t))) [
  | inl e ↦ ground arith
  | inr (d, e) ↦ ground (arith, view-walk d ks c)
]

unfoldable pub same_keys : List Bytes → List Bytes → Bool
same_keys [] [] = true
same_keys [] (j ∷ js) = false
same_keys (k ∷ ks) [] = false
same_keys (k ∷ ks) (j ∷ js) = same k j && same_keys ks js

pub same_keys_iff : (ks js : List Bytes) → (same_keys ks js ≡ true) ↔ (ks ≡ js)
unfolding same_keys
same_keys_iff [] [] = (λ h. refl, λ h. refl)
same_keys_iff [] (j ∷ js) = (λ h. cc, λ h. cc)
same_keys_iff (k ∷ ks) [] = (λ h. cc, λ h. cc)
same_keys_iff (k ∷ ks) (j ∷ js) = ground (arith, same_iff k j, same_keys_iff ks js)

-- `ks` is `js` or leads to it.
unfoldable pub leads_to : List Bytes → List Bytes → Bool
leads_to [] js = true
leads_to (k ∷ ks) [] = false
leads_to (k ∷ ks) (j ∷ js) = same k j && leads_to ks js

-- A directory with a child put under `k`, seen from outside.
pub view-with_child :
    (t c : Item) (k j : Bytes) (js : List Bytes)
    → view (with_children t (insert k c (children t))) (j ∷ js)
      ≡ (if same k j then view c js else view t (j ∷ js))
unfolding view
view-with_child (item i es) c k j js = ground (arith, lookup-insert j k c es)

pub view-with_child_root : (t : Item) (es : Entries) → view (with_children t es) [] ≡ view t []
unfolding view
view-with_child_root (item i es) fs = refl

-- Where the view shows a record, an item stands.
pub view-some :
    (t : Item) (ks : List Bytes) (i : Info)
    → view t ks ≡ some i
    → (c : Item) × (walk t ks ≡ some c) × (info_of c ≡ i)
unfolding view walk
view-some t [] i h = (t, refl, ground arith)
view-some t (k ∷ ks) i h = elim (Option-cases (lookup k (children t))) [
  | inl e ↦ ground arith
  | inr (d, e) ↦ let (c, w, same) = view-some d ks i (ground arith) in (c, ground arith, same)
]

pub view_missing :
    (t : Item) (k : Bytes) (ks : List Bytes) → lookup k (children t) ≡ none → view t (k ∷ ks) ≡ none
view_missing t k ks e = view-cons t k ks ∙ ap (λ o. view_child o ks) e

pub view_found :
    (t c : Item) (k : Bytes) (ks : List Bytes)
    → lookup k (children t) ≡ some c
    → view t (k ∷ ks) ≡ view c ks
view_found t c k ks e = view-cons t k ks ∙ ap (λ o. view_child o ks) e

pub view-nil : (t : Item) → view t [] ≡ some (info_of t)
unfolding view
view-nil t = refl

pub leads_to_refl : (ks : List Bytes) → leads_to ks ks ≡ true
unfolding leads_to
leads_to_refl [] = refl
leads_to_refl (k ∷ ks) = rw (same_refl k, leads_to_refl ks) refl

-- No list but the empty one leads to the root.
pub leads_to-nil : (k : Bytes) (ks : List Bytes) → leads_to (k ∷ ks) [] ≡ false
unfolding leads_to
leads_to-nil k ks = refl
