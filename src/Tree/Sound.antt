-- ===== src/Tree/Sound.antt =====
-- What every tree of the program is like: the maps of children are in order, every child stands
-- under its lower-cased name, which is ASCII, not empty and without slashes, and the root is a
-- directory.
pub mod Kept
use mathlib.Core.Option.{none-ne-some, some-injective}
use usvfs_fuse.Base.{
  Bool, true, false, List, [], ◌∷◌, ◌++◌, Option, none, some, if◌then◌else◌, Bytes, components, All,
  map, ◌≡◌, refl, sym, ap, ◌∙◌, arith, subst, Bool-cases, Option-cases, inl, inr, ◌≢◌,
}
use usvfs_fuse.Utils.{Icu}
use usvfs_fuse.Utils.Case.{IsAscii}
use usvfs_fuse.Utils.Path.{components_cons}
use usvfs_fuse.Tree.Item.{Item, ItemType, dir, Info, info_of, children, walk, modify}
use usvfs_fuse.Tree.View.{view, same_keys, same_keys_iff, leads_to}
use usvfs_fuse.Tree.Order.{IsOrdered}
use usvfs_fuse.Tree.Find.{strip_slash}
use usvfs_fuse.Tree.Find.Walk.{IsAscii-strip_slash}
use usvfs_fuse.Tree.Find.Seen.{keys_of}
use usvfs_fuse.Tree.Names.{IsPlainName, components-plain}
use usvfs_fuse.Tree.Add.{AddResult, added, refused, null_entry, crash, add}
use usvfs_fuse.Tree.Add.Walk.{lower_name, IsClean}
use usvfs_fuse.Tree.Add.Effect.{last_name, written, Updates, add-Updates}
use usvfs_fuse.Tree.Add.Result.{outcome, expected, but_last, outcome-add}
use usvfs_fuse.Tree.Modify.{modify-Updates, modify-IsOrdered}
use usvfs_fuse.Tree.Add.Order.{AddsOrdered, add-AddsOrdered}
use usvfs_fuse.Tree.Erase.{EraseResult, erased, erase}
use usvfs_fuse.Tree.Erase
use usvfs_fuse.Tree.Erase.Effect.{Erases, EraseOutcome, erase-EraseOutcome, erased_info, gone}
use usvfs_fuse.Tree.Erase.Order.{ErasesOrdered, erase-ErasesOrdered}
use usvfs_fuse.Tree.Merge.{merge}
use usvfs_fuse.Tree.Merge.Effect.{IsLive, merged, view-merge, merge-IsOrdered}

-- The name of an item is a plain one, and the key is the lower-cased name.
abbrev pub Names : Bytes → Bytes → Type 0
Names k n = (k ≡ lower_name n) × IsPlainName n × (n ≢ [])

abbrev pub FitsBelow : Bytes → List Bytes → Info → Type 0
FitsBelow k [] i = Names k i.file_name
FitsBelow k (j ∷ ks) i = FitsBelow j ks i

-- A record that may stand behind the keys: the last key is of its name; the root is a directory.
abbrev pub Fits : List Bytes → Info → Type 0
Fits [] i = i.type ≡ dir
Fits (k ∷ ks) i = FitsBelow k ks i

pub record IsSound (t : Item) : Type 0 where
  pub ordered : IsOrdered t
  pub fits : (ks : List Bytes) (i : Info) → view t ks ≡ some i → Fits ks i

pub FitsBelow-same :
    (k : Bytes) (ks : List Bytes) (i j : Info)
    → i.file_name ≡ j.file_name
    → FitsBelow k ks i
    → FitsBelow k ks j
FitsBelow-same k [] i j h f = subst (Names k) h f
FitsBelow-same k (l ∷ ks) i j h f = FitsBelow-same l ks i j h f

pub Fits-same :
    (ks : List Bytes) (i j : Info)
    → i.file_name ≡ j.file_name
    → i.type ≡ j.type
    → Fits ks i
    → Fits ks j
Fits-same [] i j h e f = sym e ∙ f
Fits-same (k ∷ ks) i j h e f = FitsBelow-same k ks i j h f

FitsBelow-last :
    (n : Bytes) (ns : List Bytes) (i : Info)
    → All IsPlainName (n ∷ ns)
    → All (λ m. m ≢ []) (n ∷ ns)
    → i.file_name ≡ last_name (n ∷ ns)
    → FitsBelow (lower_name n) (map lower_name ns) i
FitsBelow-last n [] i (p, ps) (q, qs) h = subst (Names (lower_name n)) (sym h) (refl, p, q)
FitsBelow-last n (m ∷ ns) i (p, ps) (q, qs) h = FitsBelow-last m ns i ps qs h

-- A record with the last name of a path may stand behind the path's keys.
pub Fits-keys_of :
    (path : Bytes) (i : Info)
    → IsAscii path
    → IsClean (strip_slash path)
    → i.file_name ≡ last_name (components (strip_slash path))
    → Fits (keys_of path) i
Fits-keys_of path i ascii clean h =
    go (components (strip_slash path)) (components_cons (strip_slash path))
      (components-plain (strip_slash path) (IsAscii-strip_slash path ascii)) clean h
  where
    go :
        (ns : List Bytes)
        → ((p : Bytes) × (ps : List Bytes) × (ns ≡ p ∷ ps))
        → All IsPlainName ns
        → All (λ m. m ≢ []) ns
        → i.file_name ≡ last_name ns
        → Fits (map lower_name ns) i
    go [] (p, ps, e) plain full h = absurd (cc)
    go (n ∷ ns) c plain full h = FitsBelow-last n ns i plain full h
