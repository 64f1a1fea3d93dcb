-- ===== src/Tree/Modify.antt =====
-- A change in place of the item behind a handle.
use usvfs_fuse.Base.{List, [], ◌∷◌, some, Bytes, ◌≡◌, arith, Option-cases, inl, inr}
use usvfs_fuse.Tree.Item.{Item, info_of, children, lookup, walk, modify}
use usvfs_fuse.Tree.View.{view, same_keys}
use usvfs_fuse.Tree.Add.Effect.{Updates, Updates-below}
use usvfs_fuse.Tree.Order.{IsOrdered, child-IsOrdered, with_child-IsOrdered}

-- A change that keeps the children of the item changes the record behind the handle, and nothing
-- else.
pub modify-Updates :
    (f : Item → Item)
    → ((c : Item) → children (f c) ≡ children c)
    → (ks : List Bytes) (t c : Item) → walk t ks ≡ some c
    → Updates t ks (info_of (f c)) (modify f ks t)
unfolding modify walk same_keys view
modify-Updates f kept [] t c h [] = ground arith
modify-Updates f kept [] t c h (j ∷ js) = ground (arith, kept t)
modify-Updates f kept (k ∷ ks) t c h js = elim (Option-cases (lookup k (children t))) [
  | inl e ↦ ground arith
  | inr (d, e) ↦
      rw (e, modify)
        (Updates-below t d (modify f ks d) k ks (info_of (f c)) e
          (modify-Updates f kept ks d c (ground arith)) js)
]

pub modify-IsOrdered :
    (f : Item → Item)
    → ((c : Item) → IsOrdered c → IsOrdered (f c))
    → (ks : List Bytes) (t : Item) → IsOrdered t
    → IsOrdered (modify f ks t)
unfolding modify
modify-IsOrdered f kept [] t o = kept t o
modify-IsOrdered f kept (k ∷ ks) t o = elim (Option-cases (lookup k (children t))) [
  | inl e ↦ rw (e, modify) o
  | inr (c, e) ↦
      rw (e, modify)
        (with_child-IsOrdered t k _ o (modify-IsOrdered f kept ks c (child-IsOrdered t k c o e)))
]
