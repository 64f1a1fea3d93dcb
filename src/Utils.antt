-- ===== src/Utils.antt =====
-- src/utils.cpp: case-insensitive comparison, case mapping, and the parts of a path.
-- ICU is a parameter; `tolower` and `toupper` are those of the C locale, which the program never
-- leaves.
pub mod Case
pub mod Path
use usvfs_fuse.Base.{
  ℕ, ◌+◌, ◌-◌, Bool, true, false, ◌&&◌, ◌||◌, List, [], ◌∷◌, ◌++◌, map, Option, none, some, ltb,
  leb, ◌==◌, if◌then◌else◌, length, take, drop, Bytes, is_empty_bytes, find_last_slash, suc,
}

-- What the program uses of ICU, on UTF-8: `toLower`, `toUpper`, and `caseCompare(…, 0) == 0`.
pub record Icu : Type 0 where
  pub lower : Bytes → Bytes
  pub upper : Bytes → Bytes
  pub case_equal : Bytes → Bytes → Bool

unfoldable pub lower_byte : ℕ → ℕ
lower_byte c = if leb b'A' c && leb c b'Z' then c + 32 else c

unfoldable pub upper_byte : ℕ → ℕ
upper_byte c = if leb b'a' c && leb c b'z' then c - 32 else c

-- The loop that looks for a byte above 127.
unfoldable pub is_ascii : Bytes → Bool
is_ascii [] = true
is_ascii (c ∷ s) = if ltb 127 c then false else is_ascii s

-- The loop over the bytes of both strings: `none` where it meets a byte above 127.
unfoldable pub compare_ascii : Bytes → Bytes → Option Bool
compare_ascii [] _ = some true
compare_ascii (a ∷ s) [] = some true
compare_ascii (a ∷ s) (b ∷ t) =
    let rest = compare_ascii s t in
    if ltb 127 a || ltb 127 b
    then none
    else if lower_byte a == lower_byte b
    then rest
    else some false

module _ (icu : Icu) where
  unfoldable pub iequals : Bytes → Bytes → Bool
  iequals lhs rhs =
      if length lhs == length rhs
      then elim (compare_ascii lhs rhs) [ some r ↦ r | none ↦ icu.case_equal lhs rhs ]
      else false

  unfoldable pub iends_with : Bytes → Bytes → Bool
  iends_with lhs rhs =
      if is_empty_bytes rhs
      then true
      else if ltb (length lhs) (length rhs)
      then false
      else iequals (drop (length lhs - length rhs) lhs) rhs

  unfoldable pub istarts_with : Bytes → Bytes → Bool
  istarts_with lhs rhs =
      if is_empty_bytes rhs
      then true
      else if ltb (length lhs) (length rhs)
      then false
      else iequals (take (length rhs) lhs) rhs

  unfoldable pub to_lower : Bytes → Bytes
  to_lower s = if is_ascii s then map lower_byte s else icu.lower s

  -- The new value of the string.
  unfoldable pub to_lower_inplace : Bytes → Bytes
  to_lower_inplace s = if is_ascii s then map lower_byte s else icu.lower s

  unfoldable pub to_upper : Bytes → Bytes
  to_upper s = if is_ascii s then map upper_byte s else icu.upper s

  unfoldable pub to_upper_inplace : Bytes → Bytes
  to_upper_inplace s = if is_ascii s then map upper_byte s else icu.upper s

unfoldable pub get_file_name_from_path : Bytes → Bytes
get_file_name_from_path path = elim (find_last_slash path) [
  | none ↦ path
  | some p ↦ drop (p + 1) path
]

unfoldable pub get_parent_path : Bytes → Bytes
get_parent_path path = elim (find_last_slash path) [ none ↦ path | some p ↦ take p path ]

-- `createEnv`, over the array of pointers `environ`: the texts up to the null pointer. With no null
-- pointer in it the program would read behind the array.
unfoldable pub create_env : List (Option Bytes) → Option (List Bytes)
create_env [] = none
create_env (none ∷ pointers) = some []
create_env (some text ∷ pointers) = elim (create_env pointers) [
  | none ↦ none
  | some texts ↦ some (text ∷ texts)
]
