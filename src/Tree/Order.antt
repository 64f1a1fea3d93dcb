-- ===== src/Tree/Order.antt =====
-- The order of the maps of children, at every depth.
use usvfs_fuse.Base.{some, Bytes, same, ◌≡◌, subst, arith, Bool-cases, inl, inr}
use usvfs_fuse.Tree.Item.{
  Item, item, Entries, nil, entry, lookup, insert, remove, children, with_children,
}
use usvfs_fuse.Tree.Entries.{Sorted, Sorted-insert, Sorted-remove}

abbrev mutual
  pub IsOrdered : Item → Type 0
  IsOrdered (item i es) = Sorted es × AllOrdered es

  pub AllOrdered : Entries → Type 0
  AllOrdered nil = Unit
  AllOrdered (entry k c es) = IsOrdered c × AllOrdered es

pub AllOrdered-insert :
    (k : Bytes) (c : Item) (es : Entries) → IsOrdered c → AllOrdered es → AllOrdered (insert k c es)
unfolding insert
AllOrdered-insert k c nil o os = (o, tt)
AllOrdered-insert k c (entry j d es) o (p, os) = ground (arith, AllOrdered-insert k c es o os)

pub AllOrdered-remove : (k : Bytes) (es : Entries) → AllOrdered es → AllOrdered (remove k es)
unfolding remove
AllOrdered-remove k nil os = tt
AllOrdered-remove k (entry j d es) (p, os) = ground (arith, AllOrdered-remove k es os)

pub lookup-IsOrdered :
    (k : Bytes) (es : Entries) (c : Item) → AllOrdered es → lookup k es ≡ some c → IsOrdered c
unfolding lookup
lookup-IsOrdered k nil c os e = cc
lookup-IsOrdered k (entry j d es) c (p, os) e = elim (Bool-cases (same j k)) [
  | inl h ↦ subst IsOrdered (ground arith) p
  | inr h ↦ lookup-IsOrdered k es c os (ground arith)
]

pub child-IsOrdered :
    (t : Item) (k : Bytes) (c : Item) → IsOrdered t → lookup k (children t) ≡ some c → IsOrdered c
child-IsOrdered (item i es) k c (s, os) e = lookup-IsOrdered k es c os e

pub children-Sorted : (t : Item) → IsOrdered t → Sorted (children t)
children-Sorted (item i es) (s, os) = s

pub with_child-IsOrdered :
    (t : Item) (k : Bytes) (c : Item)
    → IsOrdered t
    → IsOrdered c
    → IsOrdered (with_children t (insert k c (children t)))
with_child-IsOrdered (item i es) k c (s, os) o =
    (Sorted-insert k c es s, AllOrdered-insert k c es o os)

pub without_child-IsOrdered :
    (t : Item) (k : Bytes) → IsOrdered t → IsOrdered (with_children t (remove k (children t)))
without_child-IsOrdered (item i es) k (s, os) = (Sorted-remove k es s, AllOrdered-remove k es os)
