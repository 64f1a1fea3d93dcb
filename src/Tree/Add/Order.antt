-- ===== src/Tree/Add/Order.antt =====
-- `add` (src/virtualfiletreeitem.cpp) and the order of the maps of children.
use usvfs_fuse.Base.{
  ℕ, Bool, ◌||◌, [], ◌∷◌, some, suc, zero, Bytes, ◌≡◌, Option-cases, inl, inr, subst, take,
  find_slash, ◌+◌, bytes, same, leb, length, is_empty_bytes, Bool-cases,
}
use mathlib.Core.Option.{some-injective}
use usvfs_fuse.Utils.{Icu}
use usvfs_fuse.Tree.Item.{Item, item, ItemType, children, lookup, create, is_deleted}
use usvfs_fuse.Tree.Order.{IsOrdered, child-IsOrdered, with_child-IsOrdered}
use usvfs_fuse.Tree.Add.{
  AddResult, added, refused, null_entry, crash, add_below, revive, redirect, add_name, strip_both,
  add_internal, add,
}

-- What a call of `add` leaves is in order.
abbrev pub AddsOrdered : AddResult → Type 0
AddsOrdered (added t ks) = IsOrdered t
AddsOrdered (refused e) = Unit
AddsOrdered null_entry = Unit
AddsOrdered crash = Unit

revive-IsOrdered : (real : Bytes) (c : Item) → IsOrdered c → IsOrdered (revive real c)
revive-IsOrdered real (item i es) o = o

redirect-IsOrdered : (real : Bytes) (c : Item) → IsOrdered c → IsOrdered (redirect real c)
redirect-IsOrdered real (item i es) o = o

create-IsOrdered :
    (n real : Bytes) (k : ItemType) (c : Item) → create n real k ≡ some c → IsOrdered c
unfolding create
create-IsOrdered [] real k c h = cc
create-IsOrdered (a ∷ n) [] k c h = cc
create-IsOrdered (a ∷ n) (b ∷ real) k c h = subst IsOrdered (some-injective _ _ h) (tt, tt)

add_below-AddsOrdered :
    (t c : Item) (k : Bytes) (r : AddResult)
    → IsOrdered t
    → AddsOrdered r
    → AddsOrdered (add_below t k r)
add_below-AddsOrdered t c k (added c' ks) o p = with_child-IsOrdered t k c' o p
add_below-AddsOrdered t c k (refused e) o p = tt
add_below-AddsOrdered t c k null_entry o p = tt
add_below-AddsOrdered t c k crash o p = tt

add_name-AddsOrdered :
    (t : Item) (n lc real : Bytes) (k : ItemType) (upd : Bool)
    → IsOrdered t
    → AddsOrdered (add_name t n lc real k upd)
unfolding add_name
add_name-AddsOrdered t n lc real k upd o = elim (Option-cases (lookup lc (children t))) [
  | inl e ↦ elim (Option-cases (create n real k)) [
    | inl f ↦ rw (e, f, add_name) tt
    | inr (c, f) ↦
        rw (e, f, add_name) (with_child-IsOrdered t lc c o (create-IsOrdered n real k c f))
  ]
  | inr (c, e) ↦
      let child = child-IsOrdered t lc c o e in
      elim (Bool-cases (is_deleted c)) [
        | inl d ↦
            rw (e, d, add_name)
              (with_child-IsOrdered t lc (revive real c) o (revive-IsOrdered real c child))
        | inr d ↦ elim (Bool-cases upd) [
          | inl f ↦
              rw (e, d, f, add_name)
                (with_child-IsOrdered t lc (redirect real c) o (redirect-IsOrdered real c child))
          | inr f ↦ rw (e, d, f, add_name) tt
        ]
      ]
]

-- One turn of the walk: it fails, comes to the last name, or goes down into a child.
add_internal_cases :
    (P : AddResult → Type 0) (fuel : ℕ) (t : Item) (path lc real : Bytes) (k : ItemType)
    (upd : Bool)
    → ((e : ℕ) → P (refused e))
    → P crash
    → ((n l : Bytes) → P (add_name t n l real k upd))
    → ((c : Item) (q n l : Bytes)
        → lookup q (children t) ≡ some c
        → P (add_below t q (add_internal fuel c n l real k upd)))
    → P (add_internal (suc fuel) t path lc real k upd)
unfolding add_internal
add_internal_cases P fuel t path lc real k upd fails crashes name down =
    elim (Bool-cases (same path (bytes "/"))) [
      | inl e ↦ rw (e, add_internal) (fails _)
      | inr e ↦ elim (Option-cases (strip_both path lc)) [
        | inl f ↦ rw (e, f, add_internal) crashes
        | inr ((n, l), f) ↦ elim (Option-cases (find_slash n)) [
          | inl g ↦ rw (e, f, g, add_internal) (name n l)
          | inr (p, g) ↦ elim (Option-cases (lookup (take p l) (children t))) [
            | inl m ↦ rw (e, f, g, m, add_internal) (fails _)
            | inr (c, m) ↦ elim (Bool-cases (leb (p + 1) (length l))) [
              | inl h ↦ rw (e, f, g, m, h, add_internal) (down c _ _ _ m)
              | inr h ↦ rw (e, f, g, m, h, add_internal) crashes
            ]
          ]
        ]
      ]
    ]

add_internal-AddsOrdered :
    (fuel : ℕ) (t : Item) (path lc real : Bytes) (k : ItemType) (upd : Bool)
    → IsOrdered t
    → AddsOrdered (add_internal fuel t path lc real k upd)
unfolding add_internal
add_internal-AddsOrdered zero t path lc real k upd o = tt
add_internal-AddsOrdered (suc fuel) t path lc real k upd o =
    add_internal_cases AddsOrdered fuel t path lc real k upd (λ e. tt) tt
      (λ n l. add_name-AddsOrdered t n l real k upd o)
      (λ c q n l e.
        add_below-AddsOrdered t c q _ o
          (add_internal-AddsOrdered fuel c n l real k upd (child-IsOrdered t q c o e)))

-- Any call of `add` on a tree in order leaves a tree in order, whatever the path is.
pub add-AddsOrdered :
    (icu : Icu) (t : Item) (path real : Bytes) (k : ItemType) (upd : Bool)
    → IsOrdered t
    → AddsOrdered (add icu t path real k upd)
unfolding add
add-AddsOrdered icu t path real k upd o =
    elim (Bool-cases (is_empty_bytes path || is_empty_bytes real)) [
      | inl e ↦ rw (e, add) tt
      | inr e ↦ elim (Bool-cases (same path (bytes "/"))) [
        | inl f ↦ rw (e, f, add) tt
        | inr f ↦ rw (e, f, add) (add_internal-AddsOrdered _ t _ _ real k upd o)
      ]
    ]
