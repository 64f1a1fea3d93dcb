-- ===== src/Utils/Path.antt =====
-- The parts of a path: `getParentPath` and `getFileNameFromPath` of src/utils.cpp.
use usvfs_fuse.Base.{
  ℕ, suc, zero, List, [], ◌∷◌, ◌++◌, none, some, ◌==◌, take, drop, Bytes, slash, find_slash,
  components, ◌≡◌, refl, ap, ◌∙◌, arith, inl, inr, Option-cases, Bool-cases, find_last_slash,
  IsName, components_name,
}
use usvfs_fuse.Utils.{get_file_name_from_path, get_parent_path}

pub no_last_slash : (s : Bytes) → find_last_slash s ≡ none → IsName s
unfolding find_last_slash find_slash
no_last_slash [] h = refl
no_last_slash (c ∷ s) h = elim (Option-cases (find_last_slash s)) [
  | inl e ↦ ground (arith, no_last_slash s e)
  | inr (q, e) ↦ ground arith
]

pub name-last_slash : (s : Bytes) → IsName s → find_last_slash s ≡ none
unfolding find_last_slash find_slash
name-last_slash [] h = refl
name-last_slash (c ∷ s) h = ground (arith, name-last_slash s)

abbrev SplitAt : Bytes → ℕ → Type 0
SplitAt s p = (s ≡ take p s ++ slash ∷ drop (suc p) s) × IsName (drop (suc p) s)

last_slash_split : (s : Bytes) (p : ℕ) → find_last_slash s ≡ some p → SplitAt s p
unfolding find_last_slash
last_slash_split [] p h = cc
last_slash_split (c ∷ s) zero h = elim (Option-cases (find_last_slash s)) [
  | inl e ↦ (ground arith, no_last_slash s e)
  | inr (q, e) ↦ ground arith
]
last_slash_split (c ∷ s) (suc p) h = elim (Option-cases (find_last_slash s)) [
  | inl e ↦ ground arith
  | inr (q, e) ↦ ground (arith, last_slash_split s q e)
]

pub components_cons : (s : Bytes) → (p : Bytes) × (ps : List Bytes) × (components s ≡ p ∷ ps)
unfolding components
components_cons [] = ([], [], refl)
components_cons (c ∷ s) =
    let (p, ps, e) = components_cons s in
    elim (Bool-cases (c == slash)) [
      | inl h ↦ ([], components s, rw h refl)
      | inr h ↦ (c ∷ p, ps, rw (h, e) refl)
    ]

pub components-join :
    (s n : Bytes) → IsName n → components (s ++ slash ∷ n) ≡ components s ++ n ∷ []
unfolding components
components-join [] n h = ap (◌∷◌ []) (components_name n h)
components-join (c ∷ s) n h =
    let (p, ps, e) = components_cons s in rw (components-join s n h, e) (ground arith)

get_parent_path_split :
    (path : Bytes) (p : ℕ)
    → find_last_slash path ≡ some p
    → (get_parent_path path ≡ take p path) × (get_file_name_from_path path ≡ drop (suc p) path)
unfolding get_parent_path get_file_name_from_path
get_parent_path_split path p e = (
  rw (e, get_parent_path),
  rw (e, get_file_name_from_path) (ap (λ k. drop k path) {y = suc p} (omega arith)),
)

-- The parent and the name of a path that holds a slash: they make up the path, the name holds no
-- slash, and the names of the path are those of the parent and then the name.
pub parts_of_path :
    (path : Bytes)
    → ¬ IsName path
    → (path ≡ get_parent_path path ++ slash ∷ get_file_name_from_path path)
      × IsName (get_file_name_from_path path)
      × (components path ≡ components (get_parent_path path) ++ get_file_name_from_path path ∷ [])
parts_of_path path h = elim (Option-cases (find_last_slash path)) [
  | inl e ↦ absurd (h (no_last_slash path e))
  | inr (p, e) ↦
      let (whole, name) = last_slash_split path p e in
      let (parent, file) = get_parent_path_split path p e in
      rw (parent, file) (whole, name, ap components whole ∙ components-join (take p path) _ name)
]

-- A path with no slash is its own parent and its own name.
pub parts_of_name :
    (path : Bytes)
    → IsName path
    → (get_parent_path path ≡ path) × (get_file_name_from_path path ≡ path)
unfolding get_parent_path get_file_name_from_path
parts_of_name path h =
    let e = name-last_slash path h in (rw (e, get_parent_path), rw (e, get_file_name_from_path))
