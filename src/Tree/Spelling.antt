-- ===== src/Tree/Spelling.antt =====
-- `find` and `erase` (src/virtualfiletreeitem.cpp) of a path in another spelling.
use usvfs_fuse.Base.{
  Bool, ◌==◌, [], ◌∷◌, Bytes, bytes, same, slash, is_empty_bytes, map, ◌≡◌, refl, sym, ap, ◌∙◌,
  Bool-cases, inl, inr,
}
use usvfs_fuse.Utils.{Icu, lower_byte, to_lower}
use usvfs_fuse.Utils.Case.{
  IsAscii, lower_byte-slash, map-lower_idem, is_ascii-map_lower, to_lower_of_ascii,
}
use usvfs_fuse.Tree.Item.{Item}
use usvfs_fuse.Tree.Find.{find, strip_slash}
use usvfs_fuse.Tree.Find.Walk.{IsAscii-strip_slash}
use usvfs_fuse.Tree.Erase.{erase}

-- Two ASCII texts that are the same but for case.
pub record Respells (p q : Bytes) : Type 0 where
  pub ascii : IsAscii p
  pub ascii' : IsAscii q
  pub lowered : map lower_byte p ≡ map lower_byte q

strip_slash-map_lower :
    (p : Bytes) → strip_slash (map lower_byte p) ≡ map lower_byte (strip_slash p)
strip_slash-map_lower [] = refl
strip_slash-map_lower (b ∷ s) = elim (Bool-cases (b == slash)) [
  | inl e ↦ rw (lower_byte-slash b, e) refl
  | inr e ↦ rw (lower_byte-slash b, e) refl
]

is_root-map_lower : (p : Bytes) → same (map lower_byte p) (bytes "/") ≡ same p (bytes "/")
unfolding same
is_root-map_lower [] = refl
is_root-map_lower (b ∷ []) = rw (lower_byte-slash b) refl
is_root-map_lower (b ∷ c ∷ s) = rw (lower_byte-slash b) refl

is_empty-map_lower : (p : Bytes) → is_empty_bytes (map lower_byte p) ≡ is_empty_bytes p
is_empty-map_lower [] = refl
is_empty-map_lower (b ∷ s) = refl

to_lower-strip_slash :
    (icu : Icu) (p : Bytes)
    → IsAscii p
    → to_lower icu (strip_slash (map lower_byte p)) ≡ to_lower icu (strip_slash p)
to_lower-strip_slash icu p a =
    let b : IsAscii (strip_slash p) = IsAscii-strip_slash p a in
    ap (to_lower icu) (strip_slash-map_lower p)
    ∙ to_lower_of_ascii icu (map lower_byte (strip_slash p))
        (is_ascii-map_lower (strip_slash p) ∙ b)
    ∙ map-lower_idem (strip_slash p)
    ∙ sym (to_lower_of_ascii icu (strip_slash p) b)

find-map_lower :
    (icu : Icu) (t : Item) (p : Bytes) (d : Bool)
    → IsAscii p
    → find icu t (map lower_byte p) d ≡ find icu t p d
unfolding find
find-map_lower icu t p d a =
    rw (is_root-map_lower p, is_empty-map_lower p, to_lower-strip_slash icu p a, find) refl

erase-map_lower :
    (icu : Icu) (t : Item) (p : Bytes) (r : Bool)
    → IsAscii p
    → erase icu t (map lower_byte p) r ≡ erase icu t p r
unfolding erase
erase-map_lower icu t p r a = rw (is_empty-map_lower p, to_lower-strip_slash icu p a, erase) refl

module _ (icu : Icu) (t : Item) {p q : Bytes} (s : Respells p q) where
  -- Paths that are the same but for case lead to the same item.
  pub find-Respells : (d : Bool) → find icu t p d ≡ find icu t q d
  find-Respells d =
      sym (find-map_lower icu t p d s.ascii)
      ∙ ap (λ path. find icu t path d) s.lowered
      ∙ find-map_lower icu t q d s.ascii'

  pub erase-Respells : (r : Bool) → erase icu t p r ≡ erase icu t q r
  erase-Respells r =
      sym (erase-map_lower icu t p r s.ascii)
      ∙ ap (λ path. erase icu t path r) s.lowered
      ∙ erase-map_lower icu t q r s.ascii'
