-- ===== src/Manager/Link/Built.antt =====
-- The order and the marks of the tree that is made from a listing (src/usvfsmanager.cpp).
use usvfs_fuse.Base.{
  Bool, false, some, List, [], ◌∷◌, Bytes, bytes, ◌≡◌, refl, sym, ap, ◌∙◌, subst, Bool-cases, inl,
  inr, All, same, same_refl, same_iff,
}
use mathlib.Core.Option.{none-ne-some, some-injective}
use usvfs_fuse.Utils.{Icu}
use usvfs_fuse.Tree.Item.{Item, item, Entries, nil, entry, lookup, dir}
use usvfs_fuse.Tree.Entries.{Sorted, lookup-Above}
use usvfs_fuse.Tree.View.{view, view_child, view-cons}
use usvfs_fuse.Tree.Order.{IsOrdered, AllOrdered}
use usvfs_fuse.Tree.Add.Order.{AddsOrdered, add-AddsOrdered}
use usvfs_fuse.Tree.Merge.Effect.{IsLive, AllLive}
use usvfs_fuse.FdMap.{FdMap}
use usvfs_fuse.Kernel.{Kernel}
use usvfs_fuse.Manager.Link.{DirEntry, Disk, filled, add_entries}
use usvfs_fuse.Manager.Link.Entries.{
  IsAlive, IsPlain, type_of, loop_step, filled-tree, fresh-IsAlive,
}

-- In a tree in order, the records of the view are those of the items.
mutual
  unfolding view lookup

  pub IsLive-of_alive : (t : Item) → IsOrdered t → IsAlive t → IsLive t
  IsLive-of_alive (item i es) (s, o) alive = (
    alive [] i refl,
    AllLive-of_alive es s o λ k c here js j there.
        alive (k ∷ js) j (view-cons (item i es) k js ∙ ap (λ o. view_child o js) here ∙ there),
  )

  AllLive-of_alive :
      (es : Entries)
      → Sorted es
      → AllOrdered es
      → ((k : Bytes) (c : Item) → lookup k es ≡ some c → IsAlive c)
      → AllLive es
  AllLive-of_alive nil s o alive = tt
  AllLive-of_alive (entry k c es) (a, s) (p, o) alive = (
    IsLive-of_alive c p (alive k c (rw (same_refl k) refl)),
    AllLive-of_alive es s o λ j d here. alive j d (elim (Bool-cases (same k j)) [
      | inl e ↦ absurd (
          none-ne-some d
            (sym (lookup-Above k es a) ∙ ap (λ n. lookup n es) ((same_iff k j).0 e) ∙ here))
      | inr e ↦ rw e here
    ]),
  )

-- A new root.
abbrev pub root_of : Bytes → Item
root_of source =
    item (record { file_name = bytes "/"; real_path = source; type = dir; deleted = false }) nil

pub root-IsAlive : (source : Bytes) → IsAlive (root_of source)
unfolding view lookup
root-IsAlive source [] i h = ap (λ o. o.deleted) (sym (some-injective _ i h))
root-IsAlive source (k ∷ ks) i h = absurd (none-ne-some i h)

module _ (icu : Icu) (os : Kernel) (disk : Disk os.World) (skip : DirEntry → Bool) where
  pub add_entries-Ordered :
      (t t' : Item) (fds fds' : FdMap) (es : List DirEntry) (w w' : os.World)
      → IsOrdered t
      → IsAlive t
      → All IsPlain es
      → add_entries icu os disk skip t fds es w ≡ filled t' fds' w'
      → IsOrdered t' × IsAlive t'
  unfolding add_entries
  add_entries-Ordered t t' fds fds' [] w w' o alive plain h =
      let same_tree = filled-tree t t' fds fds' w w' h in
      (subst IsOrdered same_tree o, subst IsAlive same_tree alive)
  add_entries-Ordered t t' fds fds' (e ∷ es) w w' o alive (p, plain) h =
      elim (Bool-cases (skip e)) [
        | inl skipped ↦
            add_entries-Ordered t t' fds fds' es w w' o alive plain (sym (rw skipped refl) ∙ h)
        | inr kept ↦
            let (u, ks, fds2, w2, adds, rest, grown) =
              loop_step icu os disk skip t fds e es w kept t' fds' w' h in
            add_entries-Ordered u t' fds2 fds' es w2 w'
              (subst AddsOrdered adds (add-AddsOrdered icu t e.relative e.path (type_of e) false o))
              (fresh-IsAlive icu t u e.relative e.path (type_of e) ks alive p.0 p.1 p.2 adds) plain
              rest
      ]
