-- ===== src/Tree/Names.antt =====
-- The names on a path: what each of them is like, and the paths that are made of names.
use mathlib.Core.Option.{none-ne-some}
use usvfs_fuse.Base.{
  ℕ, true, false, List, [], ◌∷◌, ◌++◌, ◌==◌, Bytes, slash, components, bytes, prepend, find_slash,
  IsName, components_name, All, ltb, ◌≡◌, refl, sym, ap, ◌∙◌, arith, subst, Bool-cases,
  Option-cases, inl, inr, ◌≢◌,
}
use usvfs_fuse.Utils.{is_ascii, get_file_name_from_path, get_parent_path}
use usvfs_fuse.Utils.Case.{IsAscii}
use usvfs_fuse.Utils.Path.{components_cons, parts_of_path, parts_of_name}
use usvfs_fuse.Tree.Find.{strip_slash}
use usvfs_fuse.Tree.Add.Walk.{IsClean}
use usvfs_fuse.Tree.Add.Effect.{last_name}

-- An ASCII name without slashes.
abbrev pub IsPlainName : Bytes → Type 0
IsPlainName n = IsAscii n × IsName n

prepend-plain :
    (c : ℕ) (ps : List Bytes)
    → (c == slash) ≡ false
    → ltb 127 c ≡ false
    → All IsPlainName ps
    → All IsPlainName (prepend c ps)
unfolding is_ascii find_slash
prepend-plain c [] h a ps = (ground arith, tt)
prepend-plain c (p ∷ ps) h a (q, qs) = (ground arith, qs)

pub components-plain : (s : Bytes) → IsAscii s → All IsPlainName (components s)
unfolding components is_ascii find_slash
components-plain [] a = ((refl, refl), tt)
components-plain (c ∷ s) a = elim (Bool-cases (c == slash)) [
  | inl e ↦ rw e ((refl, refl), components-plain s (ground arith))
  | inr e ↦
      rw e (prepend-plain c (components s) e (ground arith) (components-plain s (ground arith)))
]

-- A name in front of a path.
pub components-prefix : (n s : Bytes) → IsName n → components (n ++ slash ∷ s) ≡ n ∷ components s
unfolding components find_slash
components-prefix [] s h = refl
components-prefix (c ∷ n) s h = elim (Option-cases (find_slash n)) [
  | inl e ↦ ground (arith, components-prefix n s e)
  | inr (q, e) ↦ ground arith
]

last_name-snoc : (ns : List Bytes) (n : Bytes) → last_name (ns ++ n ∷ []) ≡ n
last_name-snoc [] n = refl
last_name-snoc (m ∷ []) n = refl
last_name-snoc (m ∷ k ∷ ns) n = last_name-snoc (k ∷ ns) n

-- The last name of a path.
pub last_name-components :
    (path : Bytes) → last_name (components path) ≡ get_file_name_from_path path
last_name-components path = elim (Option-cases (find_slash path)) [
  | inl e ↦ rw (components_name path e, (parts_of_name path e).1) refl
  | inr (p, e) ↦
      ap last_name (parts_of_path path (λ h. none-ne-some p (sym h ∙ e))).2
      ∙ last_name-snoc (components (get_parent_path path)) (get_file_name_from_path path)
]

last_name-cons : (n : Bytes) (s : Bytes) → last_name (n ∷ components s) ≡ last_name (components s)
last_name-cons n s = let (p, ps, e) = components_cons s in rw e refl

slash_first : (c : ℕ) (s : Bytes) → (c == slash) ≡ true → [] ∷ components s ≡ components (c ∷ s)
unfolding components
slash_first c s e = rw e refl

-- A slash in front changes nothing of that.
pub last_name-strip_slash :
    (path : Bytes) → last_name (components (strip_slash path)) ≡ get_file_name_from_path path
unfolding components
last_name-strip_slash [] = last_name-components []
last_name-strip_slash (c ∷ s) = elim (Bool-cases (c == slash)) [
  | inl e ↦
      rw e (
        sym (last_name-cons [] s) ∙ ap last_name (slash_first c s e) ∙ last_name-components (c ∷ s))
  | inr e ↦ rw e (last_name-components (c ∷ s))
]

-- A path with only full names behind its leading slash is neither empty nor "/".
pub clean-ne-nil : (path : Bytes) → IsClean (strip_slash path) → path ≢ []
unfolding components
clean-ne-nil [] clean h = clean.0 refl
clean-ne-nil (b ∷ s) clean h = cc

pub clean-ne-root : (path : Bytes) → IsClean (strip_slash path) → path ≢ bytes "/"
unfolding components
clean-ne-root path clean h = (subst (λ p. IsClean (strip_slash p)) h clean).0 refl
