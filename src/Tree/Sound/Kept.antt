-- ===== src/Tree/Sound/Kept.antt =====
-- The operations of src/virtualfiletreeitem.cpp on trees that are as the program keeps them.
use mathlib.Core.Option.{none-ne-some, some-injective}
use usvfs_fuse.Base.{
  Bool, true, false, List, [], ◌∷◌, Option, none, some, Bytes, components, map, ◌≡◌, refl, sym, ap,
  ◌∙◌, subst, Bool-cases, inl, inr, ◌≢◌,
}
use usvfs_fuse.Utils.{Icu}
use usvfs_fuse.Utils.Case.{IsAscii}
use usvfs_fuse.Tree.Item.{Item, ItemType, Info, info_of, children, walk, modify}
use usvfs_fuse.Tree.View.{view, same_keys, same_keys_iff, leads_to}
use usvfs_fuse.Tree.Order.{IsOrdered}
use usvfs_fuse.Tree.Find.{strip_slash}
use usvfs_fuse.Tree.Find.Seen.{keys_of}
use usvfs_fuse.Tree.Add.{AddResult, added, refused, null_entry, crash, add}
use usvfs_fuse.Tree.Add.Walk.{lower_name, IsClean}
use usvfs_fuse.Tree.Add.Effect.{last_name, written, Updates, add-Updates}
use usvfs_fuse.Tree.Add.Result.{outcome, expected, but_last, outcome-add}
use usvfs_fuse.Tree.Modify.{modify-Updates, modify-IsOrdered}
use usvfs_fuse.Tree.Add.Order.{AddsOrdered, add-AddsOrdered}
use usvfs_fuse.Tree.Erase.{EraseResult, erased, erase}
use usvfs_fuse.Tree.Erase
use usvfs_fuse.Tree.Erase.Effect.{Erases, EraseOutcome, erase-EraseOutcome, erased_info, gone}
use usvfs_fuse.Tree.Erase.Order.{ErasesOrdered, erase-ErasesOrdered}
use usvfs_fuse.Tree.Merge.{merge}
use usvfs_fuse.Tree.Merge.Effect.{IsLive, merged, view-merge, merge-IsOrdered}
use usvfs_fuse.Tree.Sound.{Fits, IsSound, FitsBelow-same, Fits-same, Fits-keys_of}

-- A change of one record to one that fits.
pub Updates-Fits :
    (t t' : Item) (ks : List Bytes) (i : Info)
    → ((js : List Bytes) (j : Info) → view t js ≡ some j → Fits js j)
    → Updates t ks i t'
    → Fits ks i
    → (js : List Bytes) (j : Info) → view t' js ≡ some j
    → Fits js j
Updates-Fits t t' ks i fits up fit js j h = elim (Bool-cases (same_keys ks js)) [
  | inl e ↦
      subst (Fits js) (some-injective i j (sym (up js ∙ rw e refl) ∙ h))
        (subst (λ ls. Fits ls i) ((same_keys_iff ks js).0 e) fit)
  | inr e ↦ fits js j (sym (rw e refl) ∙ sym (up js) ∙ h)
]

erased-Fits :
    (js : List Bytes) (r : Bool) (o : Option Info) (j : Info)
    → ((i : Info) → o ≡ some i → Fits js i)
    → erased_info r o ≡ some j
    → Fits js j
erased-Fits js true o j old h = absurd (none-ne-some j h)
erased-Fits js false none j old h = absurd (none-ne-some j h)
erased-Fits js false (some i) j old h =
    subst (Fits js) (some-injective _ j h) (Fits-same js i (gone i) refl refl (old i refl))

Erases-Fits :
    (t t' : Item) (ks : List Bytes) (r : Bool)
    → ((js : List Bytes) (j : Info) → view t js ≡ some j → Fits js j)
    → Erases t ks r t'
    → (js : List Bytes) (j : Info) → view t' js ≡ some j
    → Fits js j
Erases-Fits t t' ks r fits er js j h = elim (Bool-cases (leads_to ks js)) [
  | inl e ↦ erased-Fits js r (view t js) j (fits js) (sym (rw e refl) ∙ sym (er js) ∙ h)
  | inr e ↦ fits js j (sym (rw e refl) ∙ sym (er js) ∙ h)
]

-- What a call of `add` leaves is sound.
abbrev pub AddsSound : AddResult → Type 0
AddsSound (added t ks) = IsSound t
AddsSound (refused e) = Unit
AddsSound null_entry = ⊥
AddsSound crash = ⊥

written-Fits :
    (ks : List Bytes) (o : Option Info) (n real : Bytes) (k : ItemType)
    → ((i : Info) → o ≡ some i → Fits ks i)
    → Fits ks (written none n real k)
    → Fits ks (written o n real k)
written-Fits ks none n real k old new = new
written-Fits ks (some i) n real k old new = Fits-same ks i _ refl refl (old i refl)

-- `add` of a path without empty names, with a real path, keeps a tree sound, and neither crashes nor
-- leaves a null pointer.
pub add-AddsSound :
    (icu : Icu) (t : Item) (path real : Bytes) (k : ItemType) (upd : Bool)
    → IsAscii path
    → IsClean (strip_slash path)
    → real ≢ []
    → IsSound t
    → AddsSound (add icu t path real k upd)
add-AddsSound icu t path real k upd ascii clean given sound =
    go (add icu t path real k upd) refl (outcome-add icu t path real k upd ascii clean given)
      (add-AddsOrdered icu t path real k upd sound.ordered)
  where
    go :
        (r : AddResult)
        → add icu t path real k upd ≡ r
        → outcome (add icu t path real k upd)
          ≡ some (
              expected
                (view t (map lower_name (but_last (components (strip_slash path)))))
                (view t (keys_of path))
                upd)
        → AddsOrdered (add icu t path real k upd)
        → AddsSound r
    go (refused e) h o ordered = tt
    go null_entry h o ordered = absurd (none-ne-some _ (ap outcome (sym h) ∙ o))
    go crash h o ordered = absurd (none-ne-some _ (ap outcome (sym h) ∙ o))
    go (added t' ks) h o ordered =
        let (keys, up) = add-Updates icu t path real k upd t' ks ascii clean given h in
        record {
          ordered = subst AddsOrdered h ordered;
          fits = Updates-Fits t t' ks _ sound.fits up (
              written-Fits ks (view t ks) _ real k (sound.fits ks) (
                subst
                  (λ ls. Fits ls (written none (last_name (components (strip_slash path))) real k))
                  (sym keys) (Fits-keys_of path _ ascii clean refl)));
        }

abbrev pub ErasesSound : EraseResult → Type 0
ErasesSound (erased t) = IsSound t
ErasesSound (Erase.refused e) = Unit

-- `erase` keeps a tree sound.
pub erase-ErasesSound :
    (icu : Icu) (t : Item) (path : Bytes) (r : Bool)
    → IsAscii path
    → path ≢ []
    → IsSound t
    → ErasesSound (erase icu t path r)
erase-ErasesSound icu t path r ascii full sound =
    go (erase icu t path r) (erase-EraseOutcome icu t path r ascii full sound.ordered)
      (erase-ErasesOrdered icu t path r sound.ordered)
  where
    go : (e : EraseResult) → EraseOutcome t (keys_of path) r e → ErasesOrdered e → ErasesSound e
    go (erased t') o ordered = record {
      ordered = ordered;
      fits = Erases-Fits t t' (keys_of path) r sound.fits o.1;
    }
    go (Erase.refused e) o ordered = tt

-- A change in place of the record that a path leads to.
pub modify-IsSound :
    (f : Item → Item) (ks : List Bytes) (t c : Item)
    → ((d : Item) → children (f d) ≡ children d)
    → ((d : Item) → IsOrdered d → IsOrdered (f d))
    → walk t ks ≡ some c
    → Fits ks (info_of (f c))
    → IsSound t
    → IsSound (modify f ks t)
modify-IsSound f ks t c kept order walked fit sound = record {
  ordered = modify-IsOrdered f order ks t sound.ordered;
  fits =
      Updates-Fits t (modify f ks t) ks (info_of (f c)) sound.fits
        (modify-Updates f kept ks t c walked) fit;
}

merged-Fits :
    (ks : List Bytes) (o p : Option Info) (j : Info)
    → ((i : Info) → o ≡ some i → Fits ks i)
    → ((i : Info) → p ≡ some i → Fits ks i)
    → merged o p ≡ some j
    → Fits ks j
merged-Fits ks o none j old new h = old j h
merged-Fits ks none (some i) j old new h = new j h
merged-Fits [] (some i) (some l) j old new h = subst (Fits []) (some-injective _ j h) (old i refl)
merged-Fits (k ∷ ks) (some i) (some l) j old new h =
    subst (Fits (k ∷ ks)) (some-injective _ j h) (FitsBelow-same k ks l _ refl (new l refl))

-- Merging keeps a tree sound, where the other tree is sound and has no deleted items.
pub merge-IsSound : (t u : Item) → IsLive u → IsSound t → IsSound u → IsSound (merge t u)
merge-IsSound t u live sound sound' = record {
  ordered = merge-IsOrdered t u sound.ordered sound'.ordered;
  fits = λ ks j h.
      merged-Fits ks (view t ks) (view u ks) j (sound.fits ks) (sound'.fits ks)
        (sym (view-merge t u ks sound'.ordered live) ∙ h);
}
