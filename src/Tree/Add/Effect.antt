-- ===== src/Tree/Add/Effect.antt =====
-- What `add` changes in the tree (src/virtualfiletreeitem.cpp).
use usvfs_fuse.Base.{
  Bool, false, List, [], ◌∷◌, Option, none, some, if◌then◌else◌, Bytes, components, ◌≡◌, refl, sym,
  ap, ◌∙◌, arith, Option-cases, inl, inr, same_iff, map, ◌≢◌, subst,
}
use usvfs_fuse.Utils.{Icu}
use usvfs_fuse.Utils.Case.{IsAscii}
use usvfs_fuse.Tree.Item.{
  Item, item, Info, info_of, ItemType, children, with_children, lookup, insert, create, nil,
  Entries,
}
use usvfs_fuse.Tree.View.{view, view-cons, view-with_child, same_keys}
use usvfs_fuse.Tree.Find.{strip_slash}
use usvfs_fuse.Tree.Add.{AddResult, added, refused, null_entry, crash, add_below, add_name, add}
use usvfs_fuse.Tree.Add.Walk.{add_names, lower_name, IsClean, add-add_names}

abbrev pub last_name : List Bytes → Bytes
last_name [] = []
last_name (n ∷ []) = n
last_name (n ∷ m ∷ ns) = last_name (m ∷ ns)

-- The record behind the added path, from the one that was there, if any.
abbrev pub written : Option Info → Bytes → Bytes → ItemType → Info
written none n real k = record { file_name = n; real_path = real; type = k; deleted = false }
written (some old) n real k = record old { real_path = real; deleted = false }

-- The tree with `i` behind `ks`.
abbrev pub Updates : Item → List Bytes → Info → Item → Type 0
Updates t ks i t' = (js : List Bytes) → view t' js ≡ (if same_keys ks js then some i else view t js)

-- A child with a new record and the same children, or a new child with none.
put_child :
    (t c : Item) (k : Bytes) (i : Info)
    → info_of c ≡ i
    → ((j : Bytes) (js : List Bytes) → view c (j ∷ js) ≡ view t (k ∷ j ∷ js))
    → Updates t (k ∷ []) i (with_children t (insert k c (children t)))
unfolding same_keys view
put_child (item s es) c k i e h [] = refl
put_child t c k i e h (j ∷ []) = ground (arith, view-with_child t c k j [])
put_child t c k i e h (j ∷ l ∷ js) =
    ground (arith, same_iff k j, view-with_child t c k j (l ∷ js), h l js)

-- The tree that `add_name` returns has the child `c` under the key.
abbrev Puts : Item → Bytes → Bytes → Bytes → ItemType → Item → List Bytes → Type 0
Puts t n lc real k t' ks =
    (c : Item) × (ks ≡ lc ∷ [])
    × (t' ≡ with_children t (insert lc c (children t)))
    × (info_of c ≡ written (view t (lc ∷ [])) n real k)
    × ((j : Bytes) (js : List Bytes) → view c (j ∷ js) ≡ view t (lc ∷ j ∷ js))

module _ (t : Item) (n lc real : Bytes) (k : ItemType) (upd : Bool) (t' : Item)
    (ks : List Bytes) where
  add_name_present :
      (i : Info) (es : Entries)
      → lookup lc (children t) ≡ some (item i es)
      → add_name t n lc real k upd ≡ added t' ks
      → Puts t n lc real k t' ks
  unfolding add_name view
  add_name_present i es e h = (
    item (record i { deleted = false; real_path = real }) es,
    ground arith,
    ground arith,
    ground arith,
    λ j js. ground arith,
  )

  add_name_absent :
      lookup lc (children t) ≡ none
      → add_name t n lc real k upd ≡ added t' ks
      → Puts t n lc real k t' ks
  unfolding add_name view create lookup
  add_name_absent e h = (
    item (record { file_name = n; real_path = real; type = k; deleted = false }) nil,
    ground arith,
    ground arith,
    ground arith,
    λ j js. ground arith,
  )

  add_name-Puts : add_name t n lc real k upd ≡ added t' ks → Puts t n lc real k t' ks
  add_name-Puts h = elim (Option-cases (lookup lc (children t))) [
    | inl e ↦ add_name_absent e h
    | inr (item i es, e) ↦ add_name_present i es e h
  ]

  add_name-Updates :
      add_name t n lc real k upd ≡ added t' ks
      → (ks ≡ lc ∷ []) × Updates t (lc ∷ []) (written (view t (lc ∷ [])) n real k) t'
  add_name-Updates h =
      let (c, keys, tree, info, kept) = add_name-Puts h in
      (keys, λ js. ap (λ (u : Item). view u js) tree ∙ put_child t c lc _ info kept js)

-- A change below a child is that change, seen from the directory.
pub Updates-below :
    (t c c' : Item) (k : Bytes) (ks : List Bytes) (i : Info)
    → lookup k (children t) ≡ some c
    → Updates c ks i c'
    → Updates t (k ∷ ks) i (with_children t (insert k c' (children t)))
unfolding same_keys view
Updates-below (item s es) c c' k ks i e u [] = refl
Updates-below t c c' k ks i e u (j ∷ js) =
    ground (arith, view-with_child t c' k j js, u js, same_iff k j)

-- An `add` one directory down that succeeds comes from one in the child.
add_below-eq-added :
    (t : Item) (k : Bytes) (r : AddResult) (t' : Item) (ks : List Bytes)
    → add_below t k r ≡ added t' ks
    → (c' : Item) × (ls : List Bytes) × (r ≡ added c' ls)
      × (ks ≡ k ∷ ls)
      × (t' ≡ with_children t (insert k c' (children t)))
add_below-eq-added t k (added c ls) t' ks h = (c, ls, refl, ground arith, ground arith)
add_below-eq-added t k (refused e) t' ks h = cc
add_below-eq-added t k null_entry t' ks h = cc
add_below-eq-added t k crash t' ks h = cc

abbrev AddsNames : Item → List Bytes → Bytes → ItemType → Item → List Bytes → Type 0
AddsNames t ns real k t' ks =
    (ks ≡ map lower_name ns) × Updates t ks (written (view t ks) (last_name ns) real k) t'

add_names-AddsNames :
    (t : Item) (ns : List Bytes) (real : Bytes) (k : ItemType) (upd : Bool) (t' : Item)
    (ks : List Bytes)
    → add_names t ns real k upd ≡ added t' ks
    → AddsNames t ns real k t' ks
unfolding add_names
add_names-AddsNames t [] real k upd t' ks h = cc
add_names-AddsNames t (n ∷ []) real k upd t' ks h =
    let (keys, u) = add_name-Updates t n (lower_name n) real k upd t' ks h in
    (keys, subst (λ ls. Updates t ls (written (view t ls) n real k) t') (sym keys) u)
add_names-AddsNames t (n ∷ m ∷ ns) real k upd t' ks h =
    elim (Option-cases (lookup (lower_name n) (children t))) [
      | inl e ↦ ground arith
      | inr (c, e) ↦
          let (c', ls, r, keys, tree) =
            add_below-eq-added t (lower_name n) (add_names c (m ∷ ns) real k upd) t' ks
              (ground arith) in
          let (ih, u) = add_names-AddsNames c (m ∷ ns) real k upd c' ls r in
          (
            keys ∙ ap (◌∷◌ (lower_name n)) ih,
            λ js. ground (
              arith,
              view-cons t (lower_name n) ls,
              Updates-below t c c' (lower_name n) ls _ e u js,
            ),
          )
    ]

-- When `add` succeeds on an ASCII path whose names, behind one leading slash, are not empty, with a
-- real path that is not empty: the returned item lies behind the lower-cased names of the path,
-- with the given real path and not deleted; a new item has the name and the type of the call, an
-- old one keeps its own. The records behind all other paths are as before.
pub add-Updates :
    (icu : Icu) (t : Item) (path real : Bytes) (k : ItemType) (upd : Bool) (t' : Item)
    (ks : List Bytes)
    → IsAscii path
    → IsClean (strip_slash path)
    → real ≢ []
    → add icu t path real k upd ≡ added t' ks
    → (ks ≡ map lower_name (components (strip_slash path)))
      × Updates t ks (written (view t ks) (last_name (components (strip_slash path))) real k) t'
add-Updates icu t path real k upd t' ks ascii clean given h =
    add_names-AddsNames t _ real k upd t' ks
      (sym (add-add_names icu t path real k upd ascii clean given) ∙ h)
