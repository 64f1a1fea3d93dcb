-- ===== src/Tree/Listed.antt =====
-- What `getAllItemPaths` (src/virtualfiletreeitem.cpp) lists.
use mathlib.Core.Option.{none-ne-some}
use mathlib.Core.List.{Memᴰ}
use mathlib.Core.List.Memᴰ
use usvfs_fuse.Base.{
  Bool, true, false, List, [], ◌∷◌, ◌++◌, none, some, Bytes, same, same_iff, same_refl, ◌≡◌, ◌≢◌,
  ◌↔◌, ◌⊎◌, refl, sym, ap, ◌∙◌, arith, subst, Option-cases, Bool-cases, inl, inr, append_assoc,
  append-nil,
}
use usvfs_fuse.Utils.{Icu}
use usvfs_fuse.Tree.Item.{
  Item, item, Entries, nil, entry, children, lookup, walk, file_name, file_path,
}
use usvfs_fuse.Tree.Entries.{Sorted, lookup-Above}
use usvfs_fuse.Tree.Order.{IsOrdered, AllOrdered}
use usvfs_fuse.Tree.Find.{Found, find}
use usvfs_fuse.Tree.Path.{find-file_path}
use usvfs_fuse.Tree.Sound.{IsSound}
use usvfs_fuse.Tree.Print.{item_paths, item_paths_of_children, child_path, get_all_item_paths}

-- A path is that of an item, behind a prefix.
abbrev IsPathIn : Bytes → Item → Bytes → Type 0
IsPathIn prefix t p =
    (ks : List Bytes) × (c : Item) × (walk t ks ≡ some c) × (p ≡ prefix ++ file_path t ks)

abbrev IsPathOfChild : Bytes → Entries → Bytes → Type 0
IsPathOfChild prefix es p =
    (k : Bytes) × (c : Item) × (lookup k es ≡ some c) × IsPathIn (child_path prefix c) c p

-- The path of an item below a child, from the directory.
child_path-append :
    (prefix : Bytes) (c : Item) (s : Bytes)
    → child_path prefix c ++ s ≡ prefix ++ (b'/' ∷ (file_name c ++ s))
child_path-append prefix c s = append_assoc prefix (b'/' ∷ file_name c) s

lookup-behind :
    (j k : Bytes) (c d : Item) (es : Entries)
    → lookup k es ≡ none
    → lookup j es ≡ some d
    → lookup j (entry k c es) ≡ some d
unfolding lookup
lookup-behind j k c d es fresh there = elim (Bool-cases (same k j)) [
  | inl e ↦ absurd (none-ne-some d (sym fresh ∙ ap (λ i. lookup i es) ((same_iff k j).0 e) ∙ there))
  | inr e ↦ rw (e, lookup) there
]

-- The path of an item below a child, with its keys from the directory.
abbrev IsPathBelow : Item → Bytes → Bytes → Type 0
IsPathBelow t prefix p =
    (k : Bytes) × (ks : List Bytes) × (c : Item) × (walk t (k ∷ ks) ≡ some c)
    × (p ≡ prefix ++ file_path t (k ∷ ks))

child-IsPathBelow :
    (prefix p : Bytes) (t : Item) → IsPathOfChild prefix (children t) p → IsPathBelow t prefix p
unfolding walk file_path
child-IsPathBelow prefix p t (k, c, e, r) =
    let (ks, d, walked, q) = r in
    (
      k,
      ks,
      d,
      rw (e, walk) walked,
      q
          ∙ child_path-append prefix c (file_path c ks)
          ∙ ap (◌++◌ prefix) (sym (rw (e, file_path) refl)),
    )

mutual
  unfolding item_paths item_paths_of_children lookup walk file_path

  item_paths-IsPathIn :
      (prefix p : Bytes) (t : Item)
      → IsOrdered t
      → Memᴰ p (item_paths prefix t)
      → IsPathIn prefix t p
  item_paths-IsPathIn prefix p (item i es) (s, o) (Memᴰ.head e) =
      ([], item i es, refl, e ∙ sym (append-nil prefix))
  item_paths-IsPathIn prefix p (item i es) (s, o) (Memᴰ.tail m) =
      let (k, ks, c, walked, e) =
        child-IsPathBelow prefix p (item i es) (children-IsPathOfChild prefix p es s o m) in
      (k ∷ ks, c, walked, e)

  children-IsPathOfChild :
      (prefix p : Bytes) (es : Entries)
      → Sorted es
      → AllOrdered es
      → Memᴰ p (item_paths_of_children prefix es)
      → IsPathOfChild prefix es p
  children-IsPathOfChild prefix p nil s o m = absurd (Memᴰ.not-nil m)
  children-IsPathOfChild prefix p (entry k c es) (above, s) (o, os) m =
      elim (Memᴰ.append_cases (item_paths (child_path prefix c) c) m) [
        | inl here ↦ (
          k,
          c,
          rw (same_refl k, lookup) refl,
          item_paths-IsPathIn (child_path prefix c) p c o here,
        )
        | inr there ↦
            let (j, d, e, r) = children-IsPathOfChild prefix p es s os there in
            (j, d, lookup-behind j k c d es (lookup-Above k es above) e, r)
      ]

-- What is listed of a child is listed of its directory.
listed_of_child :
    (prefix p k : Bytes) (es : Entries) (c : Item)
    → lookup k es ≡ some c
    → Memᴰ p (item_paths (child_path prefix c) c)
    → Memᴰ p (item_paths_of_children prefix es)
unfolding item_paths_of_children lookup
listed_of_child prefix p k nil c e m = absurd (none-ne-some c e)
listed_of_child prefix p k (entry j d es) c e m = elim (Bool-cases (same j k)) [
  | inl h ↦
      Memᴰ.append_left (item_paths_of_children prefix es)
        (subst (λ d. Memᴰ p (item_paths (child_path prefix d) d)) (ground arith) m)
  | inr h ↦
      Memᴰ.append_right (item_paths (child_path prefix d) d)
        (listed_of_child prefix p k es c (ground arith) m)
]

item_paths_listed :
    (prefix : Bytes) (t c : Item) (ks : List Bytes)
    → walk t ks ≡ some c
    → Memᴰ (prefix ++ file_path t ks) (item_paths prefix t)
unfolding item_paths walk file_path
item_paths_listed prefix (item i es) c [] h = Memᴰ.head (append-nil prefix)
item_paths_listed prefix (item i es) c (k ∷ ks) h = elim (Option-cases (lookup k es)) [
  | inl e ↦ absurd (none-ne-some c (sym (rw (e, walk) refl) ∙ h))
  | inr (d, e) ↦ Memᴰ.tail (
      listed_of_child prefix _ k es d e (
        Memᴰ.cast (rw (e, file_path) (sym (child_path-append prefix d (file_path d ks))))
          (item_paths_listed (child_path prefix d) d c ks (sym (rw (e, walk) refl) ∙ h))))
]

file_path-ne-nil :
    (t c : Item) (k : Bytes) (ks : List Bytes)
    → walk t (k ∷ ks) ≡ some c
    → file_path t (k ∷ ks) ≢ []
unfolding walk file_path
file_path-ne-nil t c k ks h e = elim (Option-cases (lookup k (children t))) [
  | inl f ↦ absurd (none-ne-some c (sym (rw (f, walk) refl) ∙ h))
  | inr (d, f) ↦
      let shown : file_path t (k ∷ ks) ≡ b'/' ∷ (file_name d ++ file_path d ks) =
        rw (f, file_path) refl in
      cc (sym shown ∙ e)
]

-- What `getAllItemPaths` lists of a root, and which items have a path there.
abbrev pub IsListed : Item → Bool → Found → Bytes → Type 0
IsListed t include_root r p =
    ((include_root ≡ true) ⊎ (r.keys ≢ []))
    × (walk t r.keys ≡ some r.target)
    × (p ≡ file_path t r.keys)

-- In a sound tree `getAllItemPaths` lists exactly the paths, as `filePath` gives them, of the items of the
-- tree, deleted ones included, and of the root only if it is asked for. Each of them leads `find`,
-- deleted items asked for, back to its item.
pub get_all_item_paths_iff :
    (icu : Icu) (t : Item) (include_root : Bool) (p : Bytes)
    → IsSound t
    → Memᴰ p (get_all_item_paths t include_root)
      ↔ ((r : Found) × IsListed t include_root r p × (find icu t p true ≡ some r))
unfolding get_all_item_paths item_paths file_path
get_all_item_paths_iff icu (item i es) include_root p sound =
    (forth include_root, back include_root)
  where
    t : Item
    t = item i es

    found :
        (b : Bool) (ks : List Bytes) (c : Item)
        → ((b ≡ true) ⊎ (ks ≢ []))
        → walk t ks ≡ some c
        → p ≡ file_path t ks
        → (r : Found) × IsListed t b r p × (find icu t p true ≡ some r)
    found b ks c wanted walked e = (
      record { keys = ks; target = c },
      (wanted, walked, e),
      ap (λ q. find icu t q true) e ∙ find-file_path icu t c ks true sound walked (ground arith),
    )

    forth :
        (b : Bool)
        → Memᴰ p (get_all_item_paths t b)
        → (r : Found) × IsListed t b r p × (find icu t p true ≡ some r)
    forth true m =
        let (ks, c, walked, e) = item_paths-IsPathIn [] p t sound.ordered m in
        found true ks c (inl refl) walked e
    forth false m =
        let (k, ks, c, walked, e) =
          child-IsPathBelow [] p t
            (children-IsPathOfChild [] p es sound.ordered.0 sound.ordered.1 m) in
        found false (k ∷ ks) c (inr (λ h. cc)) walked e

    listed :
        (ks : List Bytes) (c : Item)
        → walk t ks ≡ some c
        → p ≡ file_path t ks
        → Memᴰ p (item_paths [] t)
    listed ks c walked e = Memᴰ.cast e (item_paths_listed [] t c ks walked)

    below :
        (ks : List Bytes) (c : Item)
        → ks ≢ []
        → walk t ks ≡ some c
        → p ≡ file_path t ks
        → Memᴰ p (item_paths_of_children [] es)
    below [] c wanted walked e = absurd (wanted refl)
    below (k ∷ ks) c wanted walked e = elim (Memᴰ.cases_cons (listed (k ∷ ks) c walked e)) [
      | inl h ↦ absurd (file_path-ne-nil t c k ks walked (sym e ∙ h))
      | inr m ↦ m
    ]

    back :
        (b : Bool)
        → (r : Found) × IsListed t b r p × (find icu t p true ≡ some r)
        → Memᴰ p (get_all_item_paths t b)
    back true (r, (wanted, walked, e), h) = listed r.keys r.target walked e
    back false (r, (inl wanted, walked, e), h) = absurd (cc)
    back false (r, (inr wanted, walked, e), h) = below r.keys r.target wanted walked e
