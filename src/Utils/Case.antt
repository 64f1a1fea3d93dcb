-- ===== src/Utils/Case.antt =====
-- Laws of the case mapping and of the case-insensitive comparison in src/utils.cpp.
use usvfs_fuse.Base.{
  ℕ, ◌+◌, ◌-◌, ◌≤◌, suc, zero, true, List, [], ◌∷◌, ◌++◌, map, some, ltb, ◌==◌, if◌then◌else◌,
  length, take, drop, Bytes, slash, find_slash, components, ◌≡◌, same, same_iff, refl, sym, ap, ◌∙◌,
  arith, ◌↔◌, inl, inr, Bool-cases, length-map, length-append, map-drop, prepend,
}
use usvfs_fuse.Utils.{Icu, lower_byte, is_ascii, compare_ascii, iequals, iends_with, to_lower}

-- Every byte is ASCII.
abbrev pub IsAscii : Bytes → Type 0
IsAscii s = is_ascii s ≡ true

pub lower_byte_idem : (c : ℕ) → lower_byte (lower_byte c) ≡ lower_byte c
unfolding lower_byte
lower_byte_idem c = ground arith

pub lower_byte-slash : (c : ℕ) → (lower_byte c == slash) ≡ (c == slash)
unfolding lower_byte
lower_byte-slash c = ground arith

pub lower_byte-ascii : (c : ℕ) → ltb 127 (lower_byte c) ≡ ltb 127 c
unfolding lower_byte
lower_byte-ascii c = ground arith

pub map-lower_idem : (s : Bytes) → map lower_byte (map lower_byte s) ≡ map lower_byte s
map-lower_idem [] = refl
map-lower_idem (c ∷ s) = cc (lower_byte_idem c, map-lower_idem s)

pub is_ascii-map_lower : (s : Bytes) → is_ascii (map lower_byte s) ≡ is_ascii s
unfolding is_ascii
is_ascii-map_lower [] = refl
is_ascii-map_lower (c ∷ s) = rw (lower_byte-ascii c, is_ascii-map_lower s)

pub find_slash-map_lower : (s : Bytes) → find_slash (map lower_byte s) ≡ find_slash s
unfolding find_slash
find_slash-map_lower [] = refl
find_slash-map_lower (c ∷ s) = rw (lower_byte-slash c, find_slash-map_lower s)

pub components-map_lower :
    (s : Bytes) → components (map lower_byte s) ≡ map (map lower_byte) (components s)
unfolding components
components-map_lower [] = refl
components-map_lower (c ∷ s) =
    rw (lower_byte-slash c, components-map_lower s) (lower-step c (components s))
  where
    lower-prepend :
        (c : ℕ) (ps : List Bytes)
        → prepend (lower_byte c) (map (map lower_byte) ps) ≡ map (map lower_byte) (prepend c ps)
    lower-prepend c [] = refl
    lower-prepend c (p ∷ ps) = refl

    lower-step :
        (c : ℕ) (ps : List Bytes)
        → (if c == slash
            then [] ∷ map (map lower_byte) ps
            else prepend (lower_byte c) (map (map lower_byte) ps))
          ≡ map (map lower_byte) (if c == slash then [] ∷ ps else prepend c ps)
    lower-step c ps = elim (Bool-cases (c == slash)) [
      | inl e ↦ rw e refl
      | inr e ↦ rw e (lower-prepend c ps)
    ]

module _ (icu : Icu) where
  pub to_lower_of_ascii : (s : Bytes) → IsAscii s → to_lower icu s ≡ map lower_byte s
  unfolding to_lower
  to_lower_of_ascii s h = rw h

  -- Lower-casing an ASCII text twice is the same as once.
  pub to_lower_idem : (s : Bytes) → IsAscii s → to_lower icu (to_lower icu s) ≡ to_lower icu s
  unfolding to_lower
  to_lower_idem s h = rw h (rw (is_ascii-map_lower s ∙ h) (map-lower_idem s))

length-eq_of_same : (s t : Bytes) → same s t ≡ true → length s ≡ length t
length-eq_of_same s t h = ap length ((same_iff s t).0 h)

compare_ascii_lem :
    (s t : Bytes)
    → IsAscii s
    → IsAscii t
    → length s ≡ length t
    → compare_ascii s t ≡ some (same (map lower_byte s) (map lower_byte t))
unfolding compare_ascii is_ascii same
compare_ascii_lem [] [] hs ht e = refl
compare_ascii_lem [] (b ∷ t) hs ht e = absurd (omega arith)
compare_ascii_lem (a ∷ s) [] hs ht e = absurd (omega arith)
compare_ascii_lem (a ∷ s) (b ∷ t) hs ht e = ground (arith, compare_ascii_lem s t)

module _ (icu : Icu) where
  -- On ASCII texts `iequals` compares the lower-cased texts, whatever ICU does.
  pub iequals-to_lower :
      (lhs rhs : Bytes)
      → IsAscii lhs
      → IsAscii rhs
      → (iequals icu lhs rhs ≡ true) ↔ (to_lower icu lhs ≡ to_lower icu rhs)
  unfolding iequals
  iequals-to_lower lhs rhs hl hr =
      rw (to_lower_of_ascii icu lhs hl, to_lower_of_ascii icu rhs hr)
        (ground (
          arith,
          compare_ascii_lem lhs rhs hl hr,
          same_iff (map lower_byte lhs) (map lower_byte rhs),
          length-map lower_byte lhs,
          length-map lower_byte rhs,
          length-eq_of_same (map lower_byte lhs) (map lower_byte rhs),
        ))

take_append_drop : (n : ℕ) (s : Bytes) → take n s ++ drop n s ≡ s
take_append_drop zero s = refl
take_append_drop (suc n) [] = refl
take_append_drop (suc n) (c ∷ s) = ap (◌∷◌ c) (take_append_drop n s)

pub IsAscii-drop : (n : ℕ) (s : Bytes) → IsAscii s → IsAscii (drop n s)
unfolding is_ascii
IsAscii-drop zero s h = h
IsAscii-drop (suc n) [] h = h
IsAscii-drop (suc n) (c ∷ s) h = IsAscii-drop n s (ground arith)

drop-append : (s t : Bytes) → drop (length s) (s ++ t) ≡ t
drop-append [] t = refl
drop-append (c ∷ s) t = drop-append s t

drop_all : (s : Bytes) → drop (length s) s ≡ []
drop_all [] = refl
drop_all (c ∷ s) = drop_all s

module _ (icu : Icu) where
  -- The test, once the suffix fits.
  iends_with_fits :
      (lhs rhs : Bytes)
      → length rhs ≤ length lhs
      → iends_with icu lhs rhs ≡ iequals icu (drop (length lhs - length rhs) lhs) rhs
  unfolding iends_with iequals compare_ascii
  iends_with_fits lhs [] h = rw (sub_zero (length lhs), drop_all lhs) refl
    where
      sub_zero : (n : ℕ) → n - 0 ≡ n
      sub_zero n = omega arith
  iends_with_fits lhs (b ∷ rhs) h = ground arith

  iends_with_short : (lhs rhs : Bytes) → iends_with icu lhs rhs ≡ true → length rhs ≤ length lhs
  unfolding iends_with
  iends_with_short lhs [] h = omega arith
  iends_with_short lhs (b ∷ rhs) h = ground arith

  -- On ASCII texts `iends_with` holds exactly when the lower-cased text ends with the lower-cased
  -- suffix.
  pub iends_with_suffix :
      (lhs rhs : Bytes)
      → IsAscii lhs
      → IsAscii rhs
      → (iends_with icu lhs rhs ≡ true) ↔ ((s : Bytes) × (to_lower icu lhs ≡ s ++ to_lower icu rhs))
  iends_with_suffix lhs rhs hl hr = (forth, back)
    where
      n : ℕ
      n = length lhs - length rhs

      tail_equal :
          (iequals icu (drop n lhs) rhs ≡ true) ↔ (to_lower icu (drop n lhs) ≡ to_lower icu rhs)
      tail_equal = iequals-to_lower icu (drop n lhs) rhs (IsAscii-drop n lhs hl) hr

      lower_tail : to_lower icu (drop n lhs) ≡ drop n (to_lower icu lhs)
      lower_tail =
          to_lower_of_ascii icu (drop n lhs) (IsAscii-drop n lhs hl)
          ∙ sym (ap (drop n) (to_lower_of_ascii icu lhs hl) ∙ map-drop lower_byte n lhs)

      length_lower : (s : Bytes) → IsAscii s → length (to_lower icu s) ≡ length s
      length_lower s h = ap length (to_lower_of_ascii icu s h) ∙ length-map lower_byte s

      forth :
          iends_with icu lhs rhs ≡ true → (s : Bytes) × (to_lower icu lhs ≡ s ++ to_lower icu rhs)
      forth h =
          let fits = iends_with_short lhs rhs h in
          let e = tail_equal.0 (sym (iends_with_fits lhs rhs fits) ∙ h) in
          (
            take n (to_lower icu lhs),
            sym (
                ap (◌++◌ (take n (to_lower icu lhs))) (sym e ∙ lower_tail)
                ∙ take_append_drop n (to_lower icu lhs)),
          )

      back :
          (s : Bytes) × (to_lower icu lhs ≡ s ++ to_lower icu rhs) → iends_with icu lhs rhs ≡ true
      back (s, e) =
          let lengths : length lhs ≡ length s + length rhs = omega (
            arith,
            length_lower lhs hl,
            length_lower rhs hr,
            ap length e,
            length-append s (to_lower icu rhs),
          ) in
          let same_n : n ≡ length s = omega arith in
          iends_with_fits lhs rhs (omega arith)
          ∙ tail_equal.1 (
              lower_tail
              ∙ ap (drop n) e
              ∙ ap (λ k. drop k (s ++ to_lower icu rhs)) same_n
              ∙ drop-append s (to_lower icu rhs))
