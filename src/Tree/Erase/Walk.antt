-- ===== src/Tree/Erase/Walk.antt =====
-- `erase` along the names of the path, and what `isEmpty` answers.
use usvfs_fuse.Base.{
  ℕ, zero, suc, ◌<◌, Bool, true, List, [], ◌∷◌, none, some, Bytes, find_slash, length, take, drop,
  components, components_name, components_split, length-drop_lt, ◌≡◌, refl, sym, ap, ◌∙◌, arith,
  Option-cases, inl, inr, map, ◌≢◌, enoent,
}
use usvfs_fuse.Utils.{Icu, lower_byte}
use usvfs_fuse.Utils.Case.{IsAscii, to_lower_of_ascii, components-map_lower}
use usvfs_fuse.Utils.Path.{components_cons}
use usvfs_fuse.Tree.Item.{Item, item, Entries, nil, entry, children, lookup}
use usvfs_fuse.Tree.Find.{strip_slash}
use usvfs_fuse.Tree.Find.Walk.{IsAscii-strip_slash}
use usvfs_fuse.Tree.Erase.{
  is_empty, all_empty, EraseResult, refused, erase_below, erase_name, erase_internal, erase,
}

mutual
  unfolding is_empty

  is_empty_always : (t : Item) → is_empty t ≡ true
  is_empty_always (item i es) = all_empty_always es

  all_empty_always : (es : Entries) → all_empty es ≡ true
  all_empty_always nil = refl
  all_empty_always (entry k c es) = rw (is_empty_always c, all_empty_always es) refl

-- `isEmpty` answers true for every item, whatever its children are.
pub is_empty-true : (t : Item) → is_empty t ≡ true
is_empty-true t = is_empty_always t

-- `erase`, along a list of keys.
unfoldable pub erase_keys : Item → List Bytes → Bool → EraseResult
erase_keys t [] really_erase = refused enoent
erase_keys t (k ∷ []) really_erase = erase_name t k really_erase
erase_keys t (k ∷ j ∷ ks) really_erase = elim (lookup k (children t)) [
  | none ↦ refused enoent
  | some c ↦ erase_below t k (erase_keys c (j ∷ ks) really_erase)
]

erase_keys_missing :
    (t : Item) (k j : Bytes) (ks ls : List Bytes) (r : Bool)
    → lookup k (children t) ≡ none
    → ls ≡ j ∷ ks
    → erase_keys t (k ∷ ls) r ≡ refused enoent
unfolding erase_keys
erase_keys_missing t k j ks ls r missing e = rw e (ground arith)

erase_keys_down :
    (t c : Item) (k j : Bytes) (ks ls : List Bytes) (r : Bool)
    → lookup k (children t) ≡ some c
    → ls ≡ j ∷ ks
    → erase_keys t (k ∷ ls) r ≡ erase_below t k (erase_keys c ls r)
unfolding erase_keys
erase_keys_down t c k j ks ls r found e = rw e (ground arith)

module _ (fuel : ℕ) (t : Item) (path : Bytes) (r : Bool) where
  erase_internal_name :
      find_slash path ≡ none → erase_internal (suc fuel) t path r ≡ erase_keys t (path ∷ []) r
  unfolding erase_internal erase_keys
  erase_internal_name e = ground arith

  erase_internal_missing :
      (p : ℕ)
      → find_slash path ≡ some p
      → lookup (take p path) (children t) ≡ none
      → erase_internal (suc fuel) t path r ≡ refused enoent
  unfolding erase_internal
  erase_internal_missing p e missing = ground arith

  erase_internal_down :
      (p : ℕ) (c : Item)
      → find_slash path ≡ some p
      → lookup (take p path) (children t) ≡ some c
      → erase_internal (suc fuel) t path r
        ≡ erase_below t (take p path) (erase_internal fuel c (drop (suc p) path) r)
  unfolding erase_internal
  erase_internal_down p c e found = ground arith

-- With more fuel than bytes, the walk over the path is the walk along its names.
pub erase_internal-erase_keys :
    (fuel : ℕ) (t : Item) (path : Bytes) (r : Bool)
    → length path < fuel
    → erase_internal fuel t path r ≡ erase_keys t (components path) r
erase_internal-erase_keys zero t path r h = absurd (omega arith)
erase_internal-erase_keys (suc fuel) t path r h = elim (Option-cases (find_slash path)) [
  | inl e ↦ rw (components_name path e) (erase_internal_name fuel t path r e)
  | inr (p, e) ↦
      let rest : Bytes = drop (suc p) path in
      let (m, ms, more) = components_cons rest in
      let split = components_split path p e in
      elim (Option-cases (lookup (take p path) (children t))) [
        | inl missing ↦
            erase_internal_missing fuel t path r p e missing
            ∙ sym (
                rw split (erase_keys_missing t (take p path) m ms (components rest) r missing more))
        | inr (c, found) ↦
            erase_internal_down fuel t path r p c e found
            ∙ ap (erase_below t (take p path))
                (erase_internal-erase_keys fuel c rest r (omega (arith, length-drop_lt path p e)))
            ∙ sym (rw split (erase_keys_down t c (take p path) m ms (components rest) r found more))
      ]
]

-- On an ASCII path that is not empty, `erase` walks along the lower-cased names of the path behind
-- one leading slash.
pub erase-erase_keys :
    (icu : Icu) (t : Item) (path : Bytes) (r : Bool)
    → IsAscii path
    → path ≢ []
    → erase icu t path r ≡ erase_keys t (map (map lower_byte) (components (strip_slash path))) r
unfolding erase
erase-erase_keys icu t [] r ascii ne = absurd (ne refl)
erase-erase_keys icu t (b ∷ s) r ascii ne =
    rw (to_lower_of_ascii icu (strip_slash (b ∷ s)) (IsAscii-strip_slash (b ∷ s) ascii)) (
      erase_internal-erase_keys _ t (map lower_byte (strip_slash (b ∷ s))) r (omega arith)
      ∙ ap (λ ks. erase_keys t ks r) (components-map_lower (strip_slash (b ∷ s))))
