-- ===== src/Fuse/Parts.antt =====
-- Parts that several handlers of src/usvfs.cpp have in common, as the proofs name them.
use usvfs_fuse.Base.{
  false, ℕ, ℤ, pos, neg, Option, none, some, [], ◌∷◌, ◌++◌, Bytes, ◌≡◌, ◌≢◌, refl, ◌⊎◌, inl, inr,
}
use usvfs_fuse.Tree.Item.{Item, item, info_of, children}
use usvfs_fuse.Tree.Find.{Found}
use usvfs_fuse.Tree.Add.{AddResult, added, refused, null_entry, crash}
use usvfs_fuse.Tree.Erase.{EraseResult, erased}
use usvfs_fuse.Tree.Erase
use usvfs_fuse.Mount.{MountState, Outcome, broken, outcome, ended}
use usvfs_fuse.Fuse.Dir.{revived}
use usvfs_fuse.Fuse.{ParentFd, ready, stopped}

-- What becomes of the result of `add`.
abbrev pub placed : {W : Type 0} → MountState → W → (ℕ → ℤ) → AddResult → Outcome W
placed m w code r = elim r [
  | added t ks ↦ ended (pos 0) (record m { file_tree = t }) w
  | refused e ↦ ended (code e) m w
  | null_entry ↦ outcome broken m w
  | crash ↦ outcome broken m w
]

-- What becomes of the result of `add` where the item is not there yet.
abbrev pub created : {W : Type 0} → MountState → W → AddResult → Option Found → Outcome W
created m w r found = elim found [ some _ ↦ ended (pos 0) m w | none ↦ placed m w neg r ]

-- What is done with the descriptor of the directory.
abbrev pub in_parent : {W : Type 0} → ParentFd W → (ℤ → MountState → W → Outcome W) → Outcome W
in_parent p k = elim p [ stopped code m w ↦ ended code m w | ready fd m w ↦ k fd m w ]

pub append-ne-nil : (s t : Bytes) (b : ℕ) → s ++ b ∷ t ≢ []
append-ne-nil [] t b h = cc
append-ne-nil (c ∷ s) t b h = cc

pub EraseResult-cases :
    (r : EraseResult) → ((t : Item) × (r ≡ erased t)) ⊎ ((e : ℕ) × (r ≡ Erase.refused e))
EraseResult-cases (erased t) = inl (t, refl)
EraseResult-cases (Erase.refused e) = inr (e, refl)

pub children-revived : (n : Bytes) (d : Item) → children (revived n d) ≡ children d
children-revived [] (item i es) = refl
children-revived (c ∷ s) (item i es) = refl

pub revived_live : (n : Bytes) (d : Item) → (info_of (revived n d)).deleted ≡ false
revived_live [] (item i es) = refl
revived_live (c ∷ s) (item i es) = refl
