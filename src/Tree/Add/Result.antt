-- ===== src/Tree/Add/Result.antt =====
-- Which calls of `add` (src/virtualfiletreeitem.cpp) succeed, and the errors of the others.
use usvfs_fuse.Base.{
  ℕ, Bool, List, [], ◌∷◌, Option, none, some, if◌then◌else◌, Bytes, ◌≡◌, refl, ap, ◌∙◌, arith,
  Option-cases, inl, inr, map, ◌≢◌, eexist, enoent, All, components,
}
use usvfs_fuse.Utils.{Icu}
use usvfs_fuse.Utils.Case.{IsAscii}
use usvfs_fuse.Utils.Path.{components_cons}
use usvfs_fuse.Tree.Item.{Item, Info, ItemType, children, lookup, create}
use usvfs_fuse.Tree.View.{view, view-cons}
use usvfs_fuse.Tree.Find.{strip_slash}
use usvfs_fuse.Tree.Add.{AddResult, added, refused, null_entry, crash, add_below, add_name, add}
use usvfs_fuse.Tree.Add.Walk.{add_names, lower_name, IsClean, add-add_names}

-- The names of the parent.
abbrev pub but_last : List Bytes → List Bytes
but_last [] = []
but_last (n ∷ []) = []
but_last (n ∷ m ∷ ns) = n ∷ but_last (m ∷ ns)

-- The outcome that the view of the tree calls for.
pub data Outcome : Type 0 where
  succeeds : Outcome
  fails : ℕ → Outcome

abbrev pub outcome : AddResult → Option Outcome
outcome (added t ks) = some succeeds
outcome (refused e) = some (fails e)
outcome null_entry = none
outcome crash = none

-- An `add` that is expected to succeed does, and one that is expected to fail does.
pub added_of_outcome :
    (r : AddResult) → outcome r ≡ some succeeds → (t : Item) × (ks : List Bytes) × (r ≡ added t ks)
added_of_outcome (added t ks) h = (t, ks, refl)
added_of_outcome (refused e) h = absurd (cc)
added_of_outcome null_entry h = absurd (cc)
added_of_outcome crash h = absurd (cc)

pub refused_of_outcome : (r : AddResult) (e : ℕ) → outcome r ≡ some (fails e) → r ≡ refused e
refused_of_outcome (added t ks) e h = absurd (cc)
refused_of_outcome (refused k) e h = cc
refused_of_outcome null_entry e h = absurd (cc)
refused_of_outcome crash e h = absurd (cc)

-- With no record at the parent the call fails with ENOENT; with a record at the path that is not
-- deleted, and none to be updated, it fails with EEXIST; else it succeeds.
abbrev pub expected : Option Info → Option Info → Bool → Outcome
expected none old upd = fails enoent
expected (some parent) none upd = succeeds
expected (some parent) (some old) upd =
    if old.deleted then succeeds else if upd then succeeds else fails eexist

outcome-add_below : (t : Item) (k : Bytes) (r : AddResult) → outcome (add_below t k r) ≡ outcome r
outcome-add_below t k (added c ks) = refl
outcome-add_below t k (refused e) = refl
outcome-add_below t k null_entry = refl
outcome-add_below t k crash = refl

outcome-add_name :
    (t : Item) (n real : Bytes) (k : ItemType) (upd : Bool)
    → n ≢ []
    → real ≢ []
    → outcome (add_name t n (lower_name n) real k upd)
      ≡ some (expected (view t []) (view t (lower_name n ∷ [])) upd)
unfolding add_name view create
outcome-add_name t [] real k upd hn hr = absurd (hn refl)
outcome-add_name t (b ∷ n) [] k upd hn hr = absurd (hr refl)
outcome-add_name t (b ∷ n) (a ∷ real) k upd hn hr = ground arith

outcome-add_names :
    (t : Item) (ns : List Bytes) (real : Bytes) (k : ItemType) (upd : Bool)
    → ns ≢ []
    → All (λ n. n ≢ []) ns
    → real ≢ []
    → outcome (add_names t ns real k upd)
      ≡ some (expected (view t (map lower_name (but_last ns))) (view t (map lower_name ns)) upd)
unfolding add_names
outcome-add_names t [] real k upd ne full hr = absurd (ne refl)
outcome-add_names t (n ∷ []) real k upd ne full hr = outcome-add_name t n real k upd full.0 hr
outcome-add_names t (n ∷ m ∷ ns) real k upd ne full hr =
    elim (Option-cases (lookup (lower_name n) (children t))) [
      | inl e ↦ ground (arith, view-cons t (lower_name n) (map lower_name (but_last (m ∷ ns))))
      | inr (c, e) ↦ ground (
        arith,
        outcome-add_below t (lower_name n) (add_names c (m ∷ ns) real k upd),
        outcome-add_names c (m ∷ ns) real k upd (λ e. cc) full.1 hr,
        view-cons t (lower_name n) (map lower_name (but_last (m ∷ ns))),
        view-cons t (lower_name n) (map lower_name (m ∷ ns)),
      )
    ]

components-ne-nil : (path : Bytes) → components path ≢ []
components-ne-nil path h = let (p, ps, e) = components_cons path in cc

-- Which calls of `add` succeed. On an ASCII path whose names, behind one leading slash, are not
-- empty, and with a real path given: ENOENT where there is nothing at the parent's path, EEXIST
-- where the path holds an item that is not deleted and the call is not to update it, and else
-- success. So the call neither crashes nor leaves a null pointer in the tree.
pub outcome-add :
    (icu : Icu) (t : Item) (path real : Bytes) (k : ItemType) (upd : Bool)
    → IsAscii path
    → IsClean (strip_slash path)
    → real ≢ []
    → let ns = components (strip_slash path) in
      outcome (add icu t path real k upd)
      ≡ some (expected (view t (map lower_name (but_last ns))) (view t (map lower_name ns)) upd)
outcome-add icu t path real k upd ascii clean given =
    ap outcome (add-add_names icu t path real k upd ascii clean given)
    ∙ outcome-add_names t _ real k upd (components-ne-nil (strip_slash path)) clean given
