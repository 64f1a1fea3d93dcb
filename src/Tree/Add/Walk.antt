-- ===== src/Tree/Add/Walk.antt =====
-- `addInternal` (src/virtualfiletreeitem.cpp), and the walk along the names of a path.
use usvfs_fuse.Base.{
  ℕ, zero, suc, ◌+◌, ◌<◌, Bool, true, false, List, [], ◌∷◌, none, some, ◌==◌, Bytes, bytes, slash,
  is_empty_bytes, starts_with_slash, same, find_slash, leb, length, take, drop, components,
  components_name, components_split, length-drop_lt, length-map, find_slash-lt, ◌≡◌, refl, sym, ap,
  ◌∙◌, arith, Option-cases, Bool-cases, inl, inr, same_iff, map, ◌≢◌, All, map-take, map-drop,
  eexist, enoent, subst,
}
use usvfs_fuse.Utils.{Icu, lower_byte}
use usvfs_fuse.Utils.Path.{components_cons}
use usvfs_fuse.Utils.Case.{IsAscii, to_lower_of_ascii}
use usvfs_fuse.Tree.Item.{Item, ItemType, children, lookup}
use usvfs_fuse.Tree.Find.{strip_slash}
use usvfs_fuse.Tree.Find.Walk.{IsAscii-strip_slash}
use usvfs_fuse.Tree.Add.{
  AddResult, refused, crash, add_below, add_name, strip_both, add_internal, add,
}

abbrev pub lower_name : Bytes → Bytes
lower_name = map lower_byte

-- `add`, along a list of names.
unfoldable pub add_names : Item → List Bytes → Bytes → ItemType → Bool → AddResult
add_names t [] real k update_existing = refused eexist
add_names t (n ∷ []) real k update_existing = add_name t n (lower_name n) real k update_existing
add_names t (n ∷ m ∷ ns) real k update_existing = elim (lookup (lower_name n) (children t)) [
  | none ↦ refused enoent
  | some c ↦ add_below t (lower_name n) (add_names c (m ∷ ns) real k update_existing)
]

-- No name between the slashes is empty.
abbrev pub IsClean : Bytes → Type 0
IsClean path = All (λ n. n ≢ []) (components path)

pub clean_head : (ns ms : List Bytes) → ns ≡ [] ∷ ms → All (λ n. n ≢ []) ns → ⊥
clean_head [] ms e h = cc
clean_head (n ∷ ns) ms e h = h.0 (cc)

clean_tail :
    (ns ms : List Bytes) (n : Bytes) → ns ≡ n ∷ ms → All (λ n. n ≢ []) ns → All (λ n. n ≢ []) ms
clean_tail ns ms n e h = (subst (All (λ n. n ≢ [])) e h).1

clean-no_slash : (path : Bytes) → IsClean path → starts_with_slash path ≡ false
unfolding components
clean-no_slash [] h = refl
clean-no_slash (c ∷ s) h = elim (Bool-cases (c == slash)) [
  | inl e ↦ absurd (clean_head (components (c ∷ s)) (components s) (rw e refl) h)
  | inr e ↦ e
]

not_root : (path : Bytes) → starts_with_slash path ≡ false → same path (bytes "/") ≡ false
not_root path h = ground (arith, same_iff path (bytes "/"))

-- Where no slash leads, the call goes straight to the search for one.
abbrev after_strip : ℕ → Item → Bytes → Bytes → Bytes → ItemType → Bool → AddResult
after_strip fuel t path path_lc real k upd = elim (find_slash path) [
  | none ↦ add_name t path path_lc real k upd
  | some p ↦ elim (lookup (take p path_lc) (children t)) [
    | none ↦ refused enoent
    | some c ↦ elim (leb (p + 1) (length path_lc)) [
      | false ↦ crash
      | true ↦
          add_below t (take p path_lc)
            (add_internal fuel c (drop (p + 1) path) (drop (p + 1) path_lc) real k upd)
    ]
  ]
]

module _ (fuel : ℕ) (t : Item) (path real : Bytes) (k : ItemType) (upd : Bool)
    (clean : IsClean path) where
  add_internal_step :
      add_internal (suc fuel) t path (lower_name path) real k upd
      ≡ after_strip fuel t path (lower_name path) real k upd
  unfolding add_internal strip_both
  add_internal_step = let h = clean-no_slash path clean in rw (not_root path h, h) refl

  add_internal_name :
      find_slash path ≡ none
      → add_internal (suc fuel) t path (lower_name path) real k upd
        ≡ add_names t (components path) real k upd
  unfolding add_names
  add_internal_name e = rw (components_name path e) (add_internal_step ∙ ground arith)

  module _ (p : ℕ) (e : find_slash path ≡ some p) where
    lower_take : take p (lower_name path) ≡ lower_name (take p path)
    lower_take = map-take lower_byte p path

    add_internal_missing :
        lookup (lower_name (take p path)) (children t) ≡ none
        → add_internal (suc fuel) t path (lower_name path) real k upd ≡ refused enoent
    add_internal_missing missing = add_internal_step ∙ ground (arith, lower_take)

    add_internal_down :
        (c : Item)
        → lookup (lower_name (take p path)) (children t) ≡ some c
        → add_internal (suc fuel) t path (lower_name path) real k upd
          ≡ add_below t
              (lower_name (take p path))
              (add_internal fuel c (drop (suc p) path) (lower_name (drop (suc p) path)) real k upd)
    add_internal_down c found =
        add_internal_step
        ∙ ground (
          arith,
          lower_take,
          map-drop lower_byte (suc p) path,
          length-map lower_byte path,
          find_slash-lt path p e,
        )

-- `add_names` at a first name with more behind it.
module _ (t : Item) (n : Bytes) (ns : List Bytes) (real : Bytes) (k : ItemType) (upd : Bool) where
  add_names_missing :
      lookup (lower_name n) (children t) ≡ none
      → (m : Bytes) (ms : List Bytes) → ns ≡ m ∷ ms
      → add_names t (n ∷ ns) real k upd ≡ refused enoent
  unfolding add_names
  add_names_missing missing m ms e = rw e (ground arith)

  add_names_down :
      (c : Item)
      → lookup (lower_name n) (children t) ≡ some c
      → (m : Bytes) (ms : List Bytes) → ns ≡ m ∷ ms
      → add_names t (n ∷ ns) real k upd ≡ add_below t (lower_name n) (add_names c ns real k upd)
  unfolding add_names
  add_names_down c found m ms e = rw e (ground arith)

-- With more fuel than bytes, the walk over the path and its lower-cased copy is the walk along the
-- names; so it neither crashes nor runs out of fuel on its own account.
pub add_internal-add_names :
    (fuel : ℕ) (t : Item) (path real : Bytes) (k : ItemType) (upd : Bool)
    → length path < fuel
    → IsClean path
    → add_internal fuel t path (lower_name path) real k upd
      ≡ add_names t (components path) real k upd
add_internal-add_names zero t path real k upd h clean = absurd (omega arith)
add_internal-add_names (suc fuel) t path real k upd h clean =
    elim (Option-cases (find_slash path)) [
      | inl e ↦ add_internal_name fuel t path real k upd clean e
      | inr (p, e) ↦
          let rest : Bytes = drop (suc p) path in
          let (m, ms, more) = components_cons rest in
          let split = components_split path p e in
          let clean' : IsClean rest = clean_tail _ _ _ split clean in
          elim (Option-cases (lookup (lower_name (take p path)) (children t))) [
            | inl missing ↦
                add_internal_missing fuel t path real k upd clean p e missing
                ∙ sym (
                    rw split (
                      add_names_missing t (take p path) (components rest) real k upd missing m ms
                        more))
            | inr (c, found) ↦
                add_internal_down fuel t path real k upd clean p e c found
                ∙ ap (add_below t (lower_name (take p path))) (
                    add_internal-add_names fuel c rest real k upd
                      (omega (arith, length-drop_lt path p e)) clean')
                ∙ sym (
                    rw split (
                      add_names_down t (take p path) (components rest) real k upd c found m ms
                        more))
          ]
    ]

-- A path with only full names behind its leading slash is neither empty nor "/".
pub clean_checks :
    (path : Bytes)
    → IsClean (strip_slash path)
    → (is_empty_bytes path ≡ false) × (same path (bytes "/") ≡ false)
unfolding components
clean_checks [] h = absurd (h.0 refl)
clean_checks (c ∷ s) h = elim (Bool-cases (same (c ∷ s) (bytes "/"))) [
  | inl e ↦ absurd (
      (subst (λ (q : Bytes). IsClean (strip_slash q)) ((same_iff (c ∷ s) (bytes "/")).0 e) h).0
        refl)
  | inr e ↦ (refl, e)
]

given : (s : Bytes) → s ≢ [] → is_empty_bytes s ≡ false
given [] h = absurd (h refl)
given (c ∷ s) h = refl

-- On an ASCII path whose names, behind one leading slash, are not empty, and with a real path
-- given, `add` walks along the names of the path.
pub add-add_names :
    (icu : Icu) (t : Item) (path real : Bytes) (k : ItemType) (upd : Bool)
    → IsAscii path
    → IsClean (strip_slash path)
    → real ≢ []
    → add icu t path real k upd ≡ add_names t (components (strip_slash path)) real k upd
unfolding add
add-add_names icu t path real k upd ascii clean real_given =
    let (full, not_slash) = clean_checks path clean in
    rw (full, given real real_given, not_slash)
      (rw (to_lower_of_ascii icu (strip_slash path) (IsAscii-strip_slash path ascii))
        (add_internal-add_names _ t (strip_slash path) real k upd (omega arith) clean))
