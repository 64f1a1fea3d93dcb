-- ===== src/Tree/Erase/Effect.antt =====
-- What `erase` changes in the tree (src/virtualfiletreeitem.cpp).
use usvfs_fuse.Base.{
  Bool, true, false, List, [], ◌∷◌, Option, none, some, if◌then◌else◌, Bytes, same_iff, components,
  ◌≡◌, refl, sym, ◌∙◌, arith, Option-cases, inl, inr, map, ◌≢◌, enoent, subst,
}
use mathlib.Core.Option
use usvfs_fuse.Utils.{Icu, lower_byte}
use usvfs_fuse.Utils.Case.{IsAscii}
use usvfs_fuse.Utils.Path.{components_cons}
use usvfs_fuse.Tree.Item.{
  Item, item, Info, Entries, nil, entry, children, with_children, lookup, insert, remove,
  set_deleted,
}
use usvfs_fuse.Tree.Find.{strip_slash}
use usvfs_fuse.Tree.View.{view, view-with_child, leads_to, view_missing, view_found, view-nil}
use usvfs_fuse.Tree.Entries.{lookup-remove_self, lookup-remove_other}
use usvfs_fuse.Tree.Order.{IsOrdered, child-IsOrdered}
use usvfs_fuse.Tree.Erase.{
  mark_all_children_as_deleted, mark_all, EraseResult, erased, refused, erase_below, erase_name,
  erase,
}
use usvfs_fuse.Tree.Erase.Walk.{is_empty-true, erase_keys, erase-erase_keys}

abbrev pub gone : Info → Info
gone i = record i { deleted = true }

-- A child that is deleted with all its children.
abbrev mark_item : Item → Item
mark_item c = set_deleted true (mark_all_children_as_deleted c)

lookup-mark_all :
    (k : Bytes) (es : Entries) → lookup k (mark_all es) ≡ Option.map mark_item (lookup k es)
unfolding lookup mark_all_children_as_deleted
lookup-mark_all k nil = refl
lookup-mark_all k (entry j c es) = ground (arith, lookup-mark_all k es)

view-mark_item : (c : Item) (js : List Bytes) → view (mark_item c) js ≡ Option.map gone (view c js)
unfolding view mark_all_children_as_deleted
view-mark_item (item i es) [] = refl
view-mark_item (item i es) (j ∷ js) = elim (Option-cases (lookup j es)) [
  | inl e ↦ ground (arith, lookup-mark_all j es)
  | inr (c, e) ↦ ground (arith, lookup-mark_all j es, view-mark_item c js)
]

-- What is left behind each path: nothing, or the records marked as deleted.
abbrev pub erased_info : Bool → Option Info → Option Info
erased_info true o = none
erased_info false none = none
erased_info false (some i) = some (gone i)

-- `t'` is `t` with all behind `ks` erased.
abbrev pub Erases : Item → List Bytes → Bool → Item → Type 0
Erases t ks really t' =
    (js : List Bytes)
    → view t' js ≡ (if leads_to ks js then erased_info really (view t js) else view t js)

Erases-marked :
    (t c : Item) (k : Bytes)
    → lookup k (children t) ≡ some c
    → Erases t (k ∷ []) false (with_children t (insert k (mark_item c) (children t)))
unfolding leads_to view
Erases-marked (item i es) c k e [] = refl
Erases-marked t c k e (j ∷ js) =
    ground (arith, view-with_child t (mark_item c) k j js, view-mark_item c js, same_iff k j)

Erases-removed :
    (t : Item) (k : Bytes)
    → IsOrdered t
    → Erases t (k ∷ []) true (with_children t (remove k (children t)))
unfolding leads_to view
Erases-removed (item i es) k o [] = refl
Erases-removed (item i es) k o (j ∷ js) =
    ground (arith, lookup-remove_self k es o.0, lookup-remove_other j k es, same_iff k j)

Erases-below :
    (t c c' : Item) (k : Bytes) (ks : List Bytes) (r : Bool)
    → lookup k (children t) ≡ some c
    → Erases c ks r c'
    → Erases t (k ∷ ks) r (with_children t (insert k c' (children t)))
unfolding leads_to view
Erases-below (item i es) c c' k ks r e u [] = refl
Erases-below t c c' k ks r e u (j ∷ js) =
    ground (arith, view-with_child t c' k j js, u js, same_iff k j)

-- What a call of `erase` for the keys `ks` comes to.
abbrev pub EraseOutcome : Item → List Bytes → Bool → EraseResult → Type 0
EraseOutcome t ks really (erased t') = (view t ks ≢ none) × Erases t ks really t'
EraseOutcome t ks really (refused e) = (view t ks ≡ none) × (e ≡ enoent)

erase_name_found :
    (t c : Item) (k : Bytes) (r : Bool)
    → lookup k (children t) ≡ some c
    → erase_name t k r
      ≡ erased (
          if r
          then with_children t (remove k (children t))
          else with_children t (insert k (mark_item c) (children t)))
unfolding erase_name mark_all_children_as_deleted
erase_name_found t (item i es) k r e = ground (arith, is_empty-true (item i es))

erase_name_missing :
    (t : Item) (k : Bytes) (r : Bool)
    → lookup k (children t) ≡ none
    → erase_name t k r ≡ refused enoent
unfolding erase_name
erase_name_missing t k r e = ground arith

child-ne-none : (t c : Item) (k : Bytes) → lookup k (children t) ≡ some c → view t (k ∷ []) ≢ none
child-ne-none t c k e h = ground (arith, view_found t c k [] e, view-nil c)

erase_name-EraseOutcome :
    (t : Item) (k : Bytes) (r : Bool) → IsOrdered t → EraseOutcome t (k ∷ []) r (erase_name t k r)
erase_name-EraseOutcome t k r o = elim (Option-cases (lookup k (children t))) [
  | inl e ↦
      subst (EraseOutcome t (k ∷ []) r) (sym (erase_name_missing t k r e))
        (view_missing t k [] e, refl)
  | inr (c, e) ↦ subst (EraseOutcome t (k ∷ []) r) (sym (erase_name_found t c k r e)) (found r c e)
]
  where
    found :
        (r : Bool) (c : Item)
        → lookup k (children t) ≡ some c
        → EraseOutcome t (k ∷ []) r (
            erased (
              if r
              then with_children t (remove k (children t))
              else with_children t (insert k (mark_item c) (children t))))
    found true c e = (child-ne-none t c k e, Erases-removed t k o)
    found false c e = (child-ne-none t c k e, Erases-marked t c k e)

erase_below-EraseOutcome :
    (t c : Item) (k : Bytes) (ks : List Bytes) (r : Bool) (result : EraseResult)
    → lookup k (children t) ≡ some c
    → EraseOutcome c ks r result
    → EraseOutcome t (k ∷ ks) r (erase_below t k result)
erase_below-EraseOutcome t c k ks r (erased c') e (there, u) =
    (λ h. there (sym (view_found t c k ks e) ∙ h), Erases-below t c c' k ks r e u)
erase_below-EraseOutcome t c k ks r (refused n) e (gone, error) =
    (view_found t c k ks e ∙ gone, error)

erase_keys-EraseOutcome :
    (t : Item) (ks : List Bytes) (r : Bool)
    → ks ≢ []
    → IsOrdered t
    → EraseOutcome t ks r (erase_keys t ks r)
unfolding erase_keys
erase_keys-EraseOutcome t [] r ne o = absurd (ne refl)
erase_keys-EraseOutcome t (k ∷ []) r ne o = erase_name-EraseOutcome t k r o
erase_keys-EraseOutcome t (k ∷ j ∷ ks) r ne o = elim (Option-cases (lookup k (children t))) [
  | inl e ↦ rw (e, erase_keys) (view_missing t k (j ∷ ks) e, refl)
  | inr (c, e) ↦
      rw (e, erase_keys)
        (erase_below-EraseOutcome t c k (j ∷ ks) r _ e
          (erase_keys-EraseOutcome c (j ∷ ks) r (λ e. cc) (child-IsOrdered t k c o e)))
]

-- On an ASCII path that is not empty, and a tree in order: `erase` fails exactly where there is
-- nothing at the path, with ENOENT. Else it erases what is at the path and all below it, whether or
-- not there are children, by taking it out of the tree or by marking each record as deleted; the
-- records behind all other paths are as before.
pub erase-EraseOutcome :
    (icu : Icu) (t : Item) (path : Bytes) (r : Bool)
    → IsAscii path
    → path ≢ []
    → IsOrdered t
    → EraseOutcome t (map (map lower_byte) (components (strip_slash path))) r (erase icu t path r)
erase-EraseOutcome icu t path r ascii ne o =
    subst (EraseOutcome t _ r) (sym (erase-erase_keys icu t path r ascii ne))
      (erase_keys-EraseOutcome t _ r (keys-ne-nil (strip_slash path)) o)
  where
    keys-ne-nil : (s : Bytes) → map (map lower_byte) (components s) ≢ []
    keys-ne-nil s h = let (p, ps, e) = components_cons s in cc
