-- ===== src/Tree/Merge/Effect.antt =====
-- Two trees merged, path by path.
use usvfs_fuse.Base.{
  false, List, [], ◌∷◌, Option, none, some, Bytes, same, same_iff, ◌≡◌, refl, sym, ap, ap₂, ◌∙◌,
  arith, Option-cases, Bool-cases, inl, inr, subst,
}
use usvfs_fuse.Tree.Item.{
  Item, item, Info, info_of, Entries, nil, entry, children, lookup, insert, is_deleted,
}
use usvfs_fuse.Tree.View.{view, view_child, view-cons}
use usvfs_fuse.Tree.Entries.{Sorted, lookup-insert, lookup-Above, Sorted-insert}
use usvfs_fuse.Tree.Order.{IsOrdered, AllOrdered, AllOrdered-insert, lookup-IsOrdered}
use usvfs_fuse.Tree.Merge.{clone_children_from, clone_entries, clone, merge, merge_entries}

mutual
  unfolding clone_children_from

  clone_children_from_lem : (t : Item) → clone_children_from t ≡ t
  clone_children_from_lem (item i es) = ap (item i) (clone_entries_lem es)

  clone_entries_lem : (es : Entries) → clone_entries es ≡ es
  clone_entries_lem nil = refl
  clone_entries_lem (entry k c es) = rw (clone_children_from_lem c, clone_entries_lem es) refl

-- A copy is the item itself, but for the mark of the item: a copy of a deleted item is not deleted,
-- while the deleted items below it stay deleted.
pub clone-eq : (t : Item) → clone t ≡ item (record (info_of t) { deleted = false }) (children t)
unfolding clone
clone-eq (item i es) = rw (clone_entries_lem es) refl

clone_live : (t : Item) → is_deleted t ≡ false → clone t ≡ t
clone_live (item i es) h = clone-eq (item i es) ∙ ground arith

-- What is behind a path of the merged tree.
abbrev pub merged : Option Info → Option Info → Option Info
merged o none = o
merged none (some j) = some j
merged (some i) (some j) = some (record i { real_path = j.real_path; file_name = j.file_name })

-- No item of the tree is deleted.
abbrev mutual
  pub IsLive : Item → Type 0
  IsLive (item i es) = (i.deleted ≡ false) × AllLive es

  pub AllLive : Entries → Type 0
  AllLive nil = Unit
  AllLive (entry k c es) = IsLive c × AllLive es

abbrev merged_child : Option Item → Option Item → Option Item
merged_child o none = o
merged_child none (some c) = some c
merged_child (some d) (some c) = some (merge d c)

live_clone : (c : Item) → IsLive c → clone c ≡ c
live_clone (item i es) h = clone_live (item i es) h.0

-- A key of the merged map, from that key of the two maps.
lookup-merge_entries :
    (j : Bytes) (es fs : Entries)
    → Sorted fs
    → AllLive fs
    → lookup j (merge_entries es fs) ≡ merged_child (lookup j es) (lookup j fs)
unfolding merge lookup
lookup-merge_entries j es nil s l = refl
lookup-merge_entries j es (entry k c fs) (a, s) (l, ls) = elim (Option-cases (lookup k es)) [
  | inl e ↦ ground (
    arith,
    lookup-merge_entries j (insert k (clone c) es) fs s ls,
    lookup-insert j k (clone c) es,
    live_clone c l,
    same_iff k j,
    lookup-Above k fs a,
  )
  | inr (d, e) ↦ ground (
    arith,
    lookup-merge_entries j (insert k (merge d c) es) fs s ls,
    lookup-insert j k (merge d c) es,
    same_iff k j,
    lookup-Above k fs a,
  )
]

merge-children : (t u : Item) → children (merge t u) ≡ merge_entries (children t) (children u)
unfolding merge
merge-children (item i es) (item j fs) = refl

lookup-IsLive : (k : Bytes) (es : Entries) (c : Item) → AllLive es → lookup k es ≡ some c → IsLive c
unfolding lookup
lookup-IsLive k nil c l e = cc
lookup-IsLive k (entry j d es) c (l, ls) e = elim (Bool-cases (same j k)) [
  | inl h ↦ subst IsLive (ground arith) l
  | inr h ↦ lookup-IsLive k es c ls (ground arith)
]

view-merged_child :
    (o p : Option Item) (js : List Bytes)
    → ((d c : Item)
        → o ≡ some d
        → p ≡ some c
        → view (merge d c) js ≡ merged (view d js) (view c js))
    → view_child (merged_child o p) js ≡ merged (view_child o js) (view_child p js)
view-merged_child none none js h = refl
view-merged_child (some d) none js h = refl
view-merged_child none (some c) js h = merged-none (view c js)
  where
    merged-none : (o : Option Info) → o ≡ merged none o
    merged-none none = refl
    merged-none (some i) = refl
view-merged_child (some d) (some c) js h = h d c refl refl

-- Behind each path of `t += u` stands the record of `t` with the name and the real path of the
-- record of `u`, or the one record of the two that there is: for trees `u` in order, none of whose
-- items is deleted.
pub view-merge :
    (t u : Item) (js : List Bytes)
    → IsOrdered u
    → IsLive u
    → view (merge t u) js ≡ merged (view t js) (view u js)
unfolding merge view
view-merge (item i es) (item j fs) [] o l = refl
view-merge (item i es) (item j fs) (k ∷ ks) (s, os) (live, ls) =
    view-cons (merge (item i es) (item j fs)) k ks
    ∙ ap (λ o. view_child o ks) (lookup-merge_entries k es fs s ls)
    ∙ view-merged_child (lookup k es) (lookup k fs) ks (λ d c found other.
      view-merge d c ks (lookup-IsOrdered k fs c os other) (lookup-IsLive k fs c ls other))
    ∙ ap₂ merged (sym (view-cons (item i es) k ks)) (sym (view-cons (item j fs) k ks))

clone-IsOrdered : (t : Item) → IsOrdered t → IsOrdered (clone t)
clone-IsOrdered t o = subst IsOrdered (sym (clone-eq t)) (same_children t o)
  where
    same_children :
        (t : Item)
        → IsOrdered t
        → IsOrdered (item (record (info_of t) { deleted = false }) (children t))
    same_children (item i es) o = o

merge_entries_new :
    (k : Bytes) (c : Item) (es fs : Entries)
    → lookup k es ≡ none
    → merge_entries es (entry k c fs) ≡ merge_entries (insert k (clone c) es) fs
unfolding merge
merge_entries_new k c es fs e = ground arith

merge_entries_old :
    (k : Bytes) (c d : Item) (es fs : Entries)
    → lookup k es ≡ some d
    → merge_entries es (entry k c fs) ≡ merge_entries (insert k (merge d c) es) fs
unfolding merge
merge_entries_old k c d es fs e = ground arith

merge-item :
    (t u : Item)
    → Sorted (merge_entries (children t) (children u))
      × AllOrdered (merge_entries (children t) (children u))
    → IsOrdered (merge t u)
unfolding merge
merge-item (item i es) (item j fs) o = o

-- Both maps are in order.
abbrev Ordered : Entries → Type 0
Ordered es = Sorted es × AllOrdered es

children-Ordered : (t : Item) → IsOrdered t → Ordered (children t)
children-Ordered (item i es) o = o

insert-Ordered :
    (k : Bytes) (c : Item) (es : Entries) → IsOrdered c → Ordered es → Ordered (insert k c es)
insert-Ordered k c es o (s, os) = (Sorted-insert k c es s, AllOrdered-insert k c es o os)

merge_entries_nil : (es : Entries) → Ordered es → Ordered (merge_entries es nil)
unfolding merge
merge_entries_nil es o = o

mutual
  merge-IsOrdered_at : (u t : Item) → IsOrdered u → IsOrdered t → IsOrdered (merge t u)
  merge-IsOrdered_at (item j fs) t (s, os) o =
      merge-item t (item j fs) (merge_entries-Ordered fs (children t) os (children-Ordered t o))

  merge_entries-Ordered :
      (fs es : Entries) → AllOrdered fs → Ordered es → Ordered (merge_entries es fs)
  merge_entries-Ordered nil es os o = merge_entries_nil es o
  merge_entries-Ordered (entry k c fs) es (p, os) o = elim (Option-cases (lookup k es)) [
    | inl e ↦ subst Ordered (sym (merge_entries_new k c es fs e)) (
        merge_entries-Ordered fs (insert k (clone c) es) os
          (insert-Ordered k (clone c) es (clone-IsOrdered c p) o))
    | inr (d, e) ↦ subst Ordered (sym (merge_entries_old k c d es fs e)) (
        merge_entries-Ordered fs (insert k (merge d c) es) os (
          insert-Ordered k (merge d c) es (merge-IsOrdered_at c d p (lookup-IsOrdered k es d o.1 e))
            o))
  ]

-- Merging keeps the maps of children in order.
pub merge-IsOrdered : (t u : Item) → IsOrdered t → IsOrdered u → IsOrdered (merge t u)
merge-IsOrdered t u o p = merge-IsOrdered_at u t p o
