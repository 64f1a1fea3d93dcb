-- ===== src/Tree/Store.antt =====
-- The tree (src/virtualfiletreeitem.cpp) as its callers may think of it: a function from the keys of
-- a path to the record that stands there, if any, with `add`, `erase` and `find` as short
-- operations on it.
pub mod Refines
use mathlib.Core.Option.{none-ne-some}
use usvfs_fuse.Base.{
  ℕ, Bool, true, false, not, ◌||◌, if◌then◌else◌, List, [], ◌∷◌, map, Option, none, some, Bytes,
  bytes, enoent, components, All, ◌≡◌, refl, sym, ap, ap₂, ◌∙◌, ◌≢◌, subst, arith, Option-cases,
  inl, inr,
}
use usvfs_fuse.Utils.{Icu}
use usvfs_fuse.Utils.Case.{IsAscii}
use usvfs_fuse.Tree.Item.{walk, Item, ItemType, Info, info_of}
use usvfs_fuse.Tree.View.{view, view-some, same_keys, leads_to}
use usvfs_fuse.Tree.Order.{IsOrdered}
use usvfs_fuse.Tree.Find.{Found, find, strip_slash}
use usvfs_fuse.Tree.Find.Walk.{seek}
use usvfs_fuse.Tree.Find.Seen.{keys_of, find_item, seek_found, seek_nothing}
use usvfs_fuse.Tree.Add.{AddResult, added, refused, null_entry, crash, add}
use usvfs_fuse.Tree.Add.Walk.{lower_name, IsClean}
use usvfs_fuse.Tree.Add.Effect.{last_name, written, add-Updates}
use usvfs_fuse.Tree.Add.Result.{Outcome, succeeds, fails, outcome, expected, but_last, outcome-add}
use usvfs_fuse.Tree.Add.Order.{AddsOrdered, add-AddsOrdered}
use usvfs_fuse.Tree.Erase.{EraseResult, erased, erase}
use usvfs_fuse.Tree.Erase
use usvfs_fuse.Tree.Erase.Effect.{EraseOutcome, erase-EraseOutcome, erased_info}
use usvfs_fuse.Tree.Erase.Order.{ErasesOrdered, erase-ErasesOrdered}

pub data Op : Type 0 where
  add_item : Bytes → Bytes → ItemType → Bool → Op
  erase_item : Bytes → Bool → Op
  find_path : Bytes → Bool → Op

-- `lost`: the call has crashed, or left a null pointer behind.
pub data Answer : Type 0 where
  ends : Outcome → Answer
  shows : Option Info → Answer
  lost : Answer

-- ASCII paths without empty names, and real paths that are not empty.
abbrev pub IsGiven : Op → Type 0
IsGiven (add_item path real k upd) = IsAscii path × IsClean (strip_slash path) × (real ≢ [])
IsGiven (erase_item path r) = IsAscii path × IsClean (strip_slash path)
IsGiven (find_path path d) = IsAscii path × IsClean (strip_slash path)

-- What the caller sees of a call, and the tree that it leaves.
abbrev pub after_add : Item → AddResult → Answer × Item
after_add t (added t' ks) = (ends succeeds, t')
after_add t (refused e) = (ends (fails e), t)
after_add t null_entry = (lost, t)
after_add t crash = (lost, t)

abbrev pub after_erase : Item → EraseResult → Answer × Item
after_erase t (erased t') = (ends succeeds, t')
after_erase t (Erase.refused e) = (ends (fails e), t)

abbrev pub info_found : Option Found → Option Info
info_found none = none
info_found (some r) = some (info_of r.target)

unfoldable pub call : Icu → Op → Item → Answer × Item
call icu (add_item path real k upd) t = after_add t (add icu t path real k upd)
call icu (erase_item path r) t = after_erase t (erase icu t path r)
call icu (find_path path d) t = (shows (info_found (find icu t path d)), t)

unfoldable pub serve : Icu → List Op → Item → List Answer × Item
serve icu [] t = ([], t)
serve icu (op ∷ ops) t =
    let (a, t') = call icu op t in let (rest, u) = serve icu ops t' in (a ∷ rest, u)

abbrev pub Store : Type 0
Store = List Bytes → Option Info

abbrev pub update : Store → List Bytes → Info → Store
update s ks i js = if same_keys ks js then some i else s js

abbrev pub erase_below_keys : Store → List Bytes → Bool → Store
erase_below_keys s ks r js = if leads_to ks js then erased_info r (s js) else s js

-- The record, unless it is deleted and the caller does not want such.
abbrev pub visible : Option Info → Bool → Option Info
visible none d = none
visible (some i) d = if not i.deleted || d then some i else none

abbrev pub store_add : Store → List Bytes → Info → Outcome → Answer × Store
store_add s ks i succeeds = (ends succeeds, update s ks i)
store_add s ks i (fails e) = (ends (fails e), s)

abbrev pub store_erase : Store → List Bytes → Bool → Option Info → Answer × Store
store_erase s ks r none = (ends (fails enoent), s)
store_erase s ks r (some i) = (ends succeeds, erase_below_keys s ks r)

-- The same calls, on a function.
abbrev pub perform : Op → Store → Answer × Store
perform (add_item path real k upd) s =
    let ns = components (strip_slash path) in
    store_add s (keys_of path) (written (s (keys_of path)) (last_name ns) real k)
      (expected (s (map lower_name (but_last ns))) (s (keys_of path)) upd)
perform (erase_item path r) s = store_erase s (keys_of path) r (s (keys_of path))
perform (find_path path d) s = (shows (visible (s (keys_of path)) d), s)

unfoldable pub replay : List Op → Store → List Answer × Store
replay [] s = ([], s)
replay (op ∷ ops) s = let (a, s') = perform op s in let (rest, u) = replay ops s' in (a ∷ rest, u)
