-- ===== src/Base/Paths.antt =====
-- Paths as lists of names: what repeated `find('/')` and `substr` walk through.
use Prim.Native.Nat.{ℕ, zero, suc, ◌<◌, ◌≤◌}
use mathlib.Core.Path.{◌≡◌, refl, ap}
use mathlib.Core.Logic.{inl, inr}
use mathlib.Core.Option.{none, some}
use mathlib.Core.List.{List, [], ◌∷◌}
use native.Mathlib.Omega.{arith}
use usvfs_fuse.Base.Tests.{◌==◌, if◌then◌else◌, Option-cases}
use usvfs_fuse.Base.Lists.{length, take, drop, length-drop}
use usvfs_fuse.Base.Text.{Bytes, slash, find_slash, find_slash_from}

abbrev pub prepend : ℕ → List Bytes → List Bytes
prepend c [] = (c ∷ []) ∷ []
prepend c (p ∷ ps) = (c ∷ p) ∷ ps

-- The names between the slashes; a path has at least one, perhaps empty.
unfoldable pub components : Bytes → List Bytes
components [] = [] ∷ []
components (c ∷ s) = if c == slash then [] ∷ components s else prepend c (components s)

-- A name that a directory can list.
abbrev pub IsName : Bytes → Type 0
IsName s = find_slash s ≡ none

pub components_name : (s : Bytes) → find_slash s ≡ none → components s ≡ s ∷ []
unfolding components find_slash
components_name [] h = refl
components_name (c ∷ s) h = ground (arith, components_name s)

pub find_slash-lt : (s : Bytes) (p : ℕ) → find_slash s ≡ some p → p < length s
unfolding find_slash
find_slash-lt [] p h = cc
find_slash-lt (c ∷ s) p h = elim (Option-cases (find_slash s)) [
  | inl e ↦ ground arith
  | inr (q, e) ↦ ground (arith, find_slash-lt s q e)
]

pub components_split :
    (s : Bytes) (p : ℕ)
    → find_slash s ≡ some p
    → components s ≡ take p s ∷ components (drop (suc p) s)
unfolding components find_slash
components_split [] p h = cc
components_split (c ∷ s) p h = elim (Option-cases (find_slash s)) [
  | inl e ↦ ground arith
  | inr (q, e) ↦ ground (arith, components_split s q e)
]

pub length-drop_lt :
    (s : Bytes) (p : ℕ) → find_slash s ≡ some p → length (drop (suc p) s) < length s
length-drop_lt s p h = omega (arith, find_slash-lt s p h, length-drop (suc p) s)

pub length-take_of_le {ℓ} : {A : Type ℓ} (n : ℕ) (s : List A) → n ≤ length s → length (take n s) ≡ n
length-take_of_le zero s h = refl
length-take_of_le (suc n) [] h = absurd (omega arith)
length-take_of_le (suc n) (c ∷ s) h = ap suc (length-take_of_le n s (omega arith))

-- A search that starts at the first slash finds that slash.
pub find_slash_from_first :
    (s : Bytes) (p : ℕ) → find_slash s ≡ some p → find_slash_from s p ≡ some p
unfolding find_slash find_slash_from
find_slash_from_first [] p h = cc
find_slash_from_first (c ∷ s) zero h = h
find_slash_from_first (c ∷ s) (suc p) h = elim (Option-cases (find_slash s)) [
  | inl e ↦ ground arith
  | inr (q, e) ↦ ground (arith, find_slash_from_first s q e)
]

pub find_slash-take : (s : Bytes) (p : ℕ) → find_slash s ≡ some p → find_slash (take p s) ≡ none
unfolding find_slash
find_slash-take [] p h = cc
find_slash-take (c ∷ s) zero h = refl
find_slash-take (c ∷ s) (suc p) h = elim (Option-cases (find_slash s)) [
  | inl e ↦ ground arith
  | inr (q, e) ↦ ground (arith, find_slash-take s q e)
]
