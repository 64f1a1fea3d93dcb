-- ===== src/Tree/Entries.antt =====
-- Laws of the map of children, and the order that `std::map` keeps.
use usvfs_fuse.Base.{
  true, false, none, some, if◌then◌else◌, Bytes, same, less, same_iff, same_refl, less_trans,
  less_total, less-ne, ◌≡◌, refl, arith,
}
use usvfs_fuse.Tree.Item.{Item, Entries, nil, entry, lookup, insert, remove}

pub lookup-insert :
    (j k : Bytes) (c : Item) (es : Entries)
    → lookup j (insert k c es) ≡ (if same k j then some c else lookup j es)
unfolding lookup insert
lookup-insert j k c nil = refl
lookup-insert j k c (entry i d es) =
    ground (arith, same_iff i k, same_iff i j, same_iff k j, lookup-insert j k c es)

pub lookup-insert_self : (k : Bytes) (c : Item) (es : Entries) → lookup k (insert k c es) ≡ some c
lookup-insert_self k c es = ground (arith, lookup-insert k k c es, same_refl k)

pub lookup-remove_other :
    (j k : Bytes) (es : Entries) → same k j ≡ false → lookup j (remove k es) ≡ lookup j es
unfolding lookup remove
lookup-remove_other j k nil h = refl
lookup-remove_other j k (entry i d es) h =
    ground (arith, same_iff i k, same_iff i j, same_iff k j, lookup-remove_other j k es)

-- Every key of the map comes after `k`.
abbrev pub Above : Bytes → Entries → Type 0
Above k nil = Unit
Above k (entry j c es) = (less k j ≡ true) × Above k es

-- The keys rise.
abbrev pub Sorted : Entries → Type 0
Sorted nil = Unit
Sorted (entry k c es) = Above k es × Sorted es

Above-trans : (j k : Bytes) (es : Entries) → less j k ≡ true → Above k es → Above j es
Above-trans j k nil h a = tt
Above-trans j k (entry i c es) h (l, a) = (less_trans j k i h l, Above-trans j k es h a)

pub lookup-Above : (k : Bytes) (es : Entries) → Above k es → lookup k es ≡ none
unfolding lookup
lookup-Above k nil a = refl
lookup-Above k (entry j c es) (l, a) =
    ground (arith, less-ne k j l, same_iff k j, same_iff j k, lookup-Above k es a)

Above-insert :
    (j k : Bytes) (c : Item) (es : Entries) → less j k ≡ true → Above j es → Above j (insert k c es)
unfolding insert
Above-insert j k c nil h a = (h, tt)
Above-insert j k c (entry i d es) h (l, a) = ground (arith, Above-insert j k c es h a)

pub Sorted-insert : (k : Bytes) (c : Item) (es : Entries) → Sorted es → Sorted (insert k c es)
unfolding insert
Sorted-insert k c nil s = (tt, tt)
Sorted-insert k c (entry j d es) (a, s) = ground (
  arith,
  Sorted-insert k c es s,
  same_iff j k,
  less_total j k,
  less_total k j,
  same_iff k j,
  Above-trans k j es,
  Above-insert j k c es,
)

Above-remove : (j k : Bytes) (es : Entries) → Above j es → Above j (remove k es)
unfolding remove
Above-remove j k nil a = tt
Above-remove j k (entry i d es) (l, a) = ground (arith, Above-remove j k es a)

pub Sorted-remove : (k : Bytes) (es : Entries) → Sorted es → Sorted (remove k es)
unfolding remove
Sorted-remove k nil s = tt
Sorted-remove k (entry j d es) (a, s) = ground (arith, Sorted-remove k es s, Above-remove j k es a)

pub lookup-remove_self : (k : Bytes) (es : Entries) → Sorted es → lookup k (remove k es) ≡ none
unfolding lookup remove
lookup-remove_self k nil s = refl
lookup-remove_self k (entry j d es) (a, s) =
    ground (arith, lookup-remove_self k es s, same_iff j k, lookup-Above j es a)
