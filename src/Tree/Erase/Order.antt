-- ===== src/Tree/Erase/Order.antt =====
-- `erase` (src/virtualfiletreeitem.cpp) and the order of the maps of children.
use usvfs_fuse.Base.{
  ℕ, Bool, true, [], ◌∷◌, suc, zero, Bytes, Option-cases, inl, inr, take, find_slash, Bool-cases,
}
use usvfs_fuse.Utils.{Icu}
use usvfs_fuse.Tree.Item.{Item, item, Entries, nil, entry, children, lookup, set_deleted}
use usvfs_fuse.Tree.Entries.{Above, Sorted}
use usvfs_fuse.Tree.Order.{
  IsOrdered, AllOrdered, child-IsOrdered, with_child-IsOrdered, without_child-IsOrdered,
}
use usvfs_fuse.Tree.Erase.{
  is_empty, mark_all_children_as_deleted, mark_all, EraseResult, erased, refused, erase_below,
  erase_name, erase_internal, erase,
}

abbrev pub ErasesOrdered : EraseResult → Type 0
ErasesOrdered (erased t) = IsOrdered t
ErasesOrdered (refused e) = Unit

mark-Above : (j : Bytes) (es : Entries) → Above j es → Above j (mark_all es)
unfolding mark_all_children_as_deleted
mark-Above j nil a = tt
mark-Above j (entry k c es) (l, a) = (l, mark-Above j es a)

pub set_deleted-IsOrdered : (b : Bool) (t : Item) → IsOrdered t → IsOrdered (set_deleted b t)
set_deleted-IsOrdered b (item i es) o = o

mutual
  unfolding mark_all_children_as_deleted

  mark-IsOrdered : (t : Item) → IsOrdered t → IsOrdered (mark_all_children_as_deleted t)
  mark-IsOrdered (item i es) (s, os) = mark_all-Ordered es s os

  mark_all-Ordered :
      (es : Entries) → Sorted es → AllOrdered es → Sorted (mark_all es) × AllOrdered (mark_all es)
  mark_all-Ordered nil s os = (tt, tt)
  mark_all-Ordered (entry k c es) (a, s) (o, os) =
      let (s', os') = mark_all-Ordered es s os in
      ((mark-Above k es a, s'), (set_deleted-IsOrdered true _ (mark-IsOrdered c o), os'))

erase_name-ErasesOrdered :
    (t : Item) (k : Bytes) (r : Bool) → IsOrdered t → ErasesOrdered (erase_name t k r)
unfolding erase_name
erase_name-ErasesOrdered t k r o = elim (Option-cases (lookup k (children t))) [
  | inl e ↦ rw (e, erase_name) tt
  | inr (c, e) ↦ elim (Bool-cases (is_empty c)) [
    | inr f ↦ rw (e, f, erase_name) tt
    | inl f ↦ elim (Bool-cases r) [
      | inl g ↦ rw (e, f, g, erase_name) (without_child-IsOrdered t k o)
      | inr g ↦
          rw (e, f, g, erase_name)
            (with_child-IsOrdered t k _ o
              (mark-IsOrdered _ (set_deleted-IsOrdered true c (child-IsOrdered t k c o e))))
    ]
  ]
]

erase_below-ErasesOrdered :
    (t : Item) (k : Bytes) (r : EraseResult)
    → IsOrdered t
    → ErasesOrdered r
    → ErasesOrdered (erase_below t k r)
erase_below-ErasesOrdered t k (erased c) o p = with_child-IsOrdered t k c o p
erase_below-ErasesOrdered t k (refused e) o p = tt

erase_internal-ErasesOrdered :
    (fuel : ℕ) (t : Item) (path : Bytes) (r : Bool)
    → IsOrdered t
    → ErasesOrdered (erase_internal fuel t path r)
unfolding erase_internal
erase_internal-ErasesOrdered zero t path r o = tt
erase_internal-ErasesOrdered (suc fuel) t path r o = elim (Option-cases (find_slash path)) [
  | inl e ↦ rw (e, erase_internal) (erase_name-ErasesOrdered t path r o)
  | inr (p, e) ↦ elim (Option-cases (lookup (take p path) (children t))) [
    | inl f ↦ rw (e, f, erase_internal) tt
    | inr (c, f) ↦
        rw (e, f, erase_internal)
          (erase_below-ErasesOrdered t (take p path) _ o
            (erase_internal-ErasesOrdered fuel c _ r (child-IsOrdered t (take p path) c o f)))
  ]
]

-- Any call of `erase` on a tree in order leaves a tree in order, whatever the path is.
pub erase-ErasesOrdered :
    (icu : Icu) (t : Item) (path : Bytes) (r : Bool)
    → IsOrdered t
    → ErasesOrdered (erase icu t path r)
unfolding erase
erase-ErasesOrdered icu t [] r o = tt
erase-ErasesOrdered icu t (b ∷ s) r o = erase_internal-ErasesOrdered _ t _ r o
