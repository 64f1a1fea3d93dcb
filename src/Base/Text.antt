-- ===== src/Base/Text.antt =====
-- `std::string` as its bytes: equality, the order of `std::less<>`, and the searches for '/'.
use Prim.Native.Nat.{ℕ, zero, suc}
use Prim.Native.Char.{code}
use Prim.Native.String.{String}
use mathlib.Core.Path.{◌≡◌, refl}
use mathlib.Core.Logic.{◌↔◌}
use mathlib.Core.Bool.{Bool, true, false, ◌&&◌, ◌||◌}
use mathlib.Core.Option.{Option, none, some}
use mathlib.Core.Option
use mathlib.Core.List.{List, [], ◌∷◌}
use native.Mathlib.Omega.{arith}
use usvfs_fuse.Base.Tests.{ltb, ◌==◌, if◌then◌else◌}

abbrev pub Bytes : Type 0
Bytes = List ℕ

-- The bytes of an ASCII literal.
abbrev pub bytes : String → Bytes
bytes String.[] = []
bytes (String.◌∷◌ c s) = code c ∷ bytes s

abbrev pub slash : ℕ
slash = b'/'

abbrev pub is_empty_bytes : Bytes → Bool
is_empty_bytes [] = true
is_empty_bytes (c ∷ s) = false

-- `s[0] == '/'`; the read past the end of an empty view finds no slash.
abbrev pub starts_with_slash : Bytes → Bool
starts_with_slash [] = false
starts_with_slash (c ∷ s) = c == slash

-- `==` of two strings.
unfoldable pub same : Bytes → Bytes → Bool
same [] [] = true
same [] (b ∷ t) = false
same (a ∷ s) [] = false
same (a ∷ s) (b ∷ t) = a == b && same s t

-- `<` of two strings, by unsigned bytes.
unfoldable pub less : Bytes → Bytes → Bool
less s [] = false
less [] (b ∷ t) = true
less (a ∷ s) (b ∷ t) = ltb a b || (a == b && less s t)

-- `s.find('/')`
unfoldable pub find_slash : Bytes → Option ℕ
find_slash [] = none
find_slash (c ∷ s) = if c == slash then some 0 else Option.map suc (find_slash s)

-- `s.find('/', n)`
unfoldable pub find_slash_from : Bytes → ℕ → Option ℕ
find_slash_from s zero = find_slash s
find_slash_from [] (suc n) = none
find_slash_from (c ∷ s) (suc n) = Option.map suc (find_slash_from s n)

-- `s.find_last_of('/')`
unfoldable pub find_last_slash : Bytes → Option ℕ
find_last_slash [] = none
find_last_slash (c ∷ s) = elim (find_last_slash s) [
  | some p ↦ some (suc p)
  | none ↦ if c == slash then some 0 else none
]

pub same_iff : (s t : Bytes) → (same s t ≡ true) ↔ (s ≡ t)
unfolding same
same_iff [] [] = (λ h. refl, λ h. refl)
same_iff [] (b ∷ t) = (λ h. cc, λ h. cc)
same_iff (a ∷ s) [] = (λ h. cc, λ h. cc)
same_iff (a ∷ s) (b ∷ t) = ground (arith, same_iff s t)

pub same_refl : (s : Bytes) → same s s ≡ true
same_refl s = (same_iff s s).1 refl

pub less_irrefl : (s : Bytes) → less s s ≡ false
unfolding less
less_irrefl [] = refl
less_irrefl (a ∷ s) = ground (arith, less_irrefl s)

less_nil : (s : Bytes) → less s [] ≡ false
unfolding less
less_nil s = refl

pub less_trans : (s t u : Bytes) → less s t ≡ true → less t u ≡ true → less s u ≡ true
unfolding less
less_trans s t [] p q = ground (arith, less_nil t)
less_trans s [] (c ∷ u) p q = ground (arith, less_nil s)
less_trans [] (b ∷ t) (c ∷ u) p q = refl
less_trans (a ∷ s) (b ∷ t) (c ∷ u) p q = ground (arith, less_trans s t u)

-- The order is total.
pub less_total : (s t : Bytes) → same s t ≡ false → less s t ≡ false → less t s ≡ true
unfolding less same
less_total [] [] p q = cc
less_total [] (b ∷ t) p q = cc
less_total (a ∷ s) [] p q = refl
less_total (a ∷ s) (b ∷ t) p q = ground (arith, less_total s t)

pub less-ne : (s t : Bytes) → less s t ≡ true → same s t ≡ false
less-ne s t h = ground (arith, same_iff s t, less_irrefl s)
