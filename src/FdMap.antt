-- ===== src/FdMap.antt =====
-- src/fdmap.h and .cpp: file descriptors by the lower-cased path of their directory.
pub mod Laws
use usvfs_fuse.Base.{
  ℤ, pos, negsuc, Bool, List, [], ◌∷◌, Option, none, some, if◌then◌else◌, Bytes, same,
}
use usvfs_fuse.Utils.{Icu, to_lower}

-- The entries of the `unordered_map`; their order means nothing.
abbrev pub FdMap : Type 0
FdMap = List (Bytes × ℤ)

unfoldable pub map_find : Bytes → FdMap → Option ℤ
map_find k [] = none
map_find k ((j, fd) ∷ m) = if same j k then some fd else map_find k m

unfoldable pub map_set : Bytes → ℤ → FdMap → FdMap
map_set k fd [] = (k, fd) ∷ []
map_set k fd ((j, old) ∷ m) = if same j k then (k, fd) ∷ m else (j, old) ∷ map_set k fd m

module _ (icu : Icu) where
  -- -1 in place of the `out_of_range` exception.
  unfoldable pub fd_at : FdMap → Bytes → ℤ
  fd_at m path = elim (map_find (to_lower icu path) m) [ none ↦ negsuc 0 | some fd ↦ fd ]

  -- `operator[]` that is read: a missing entry is made, and is 0.
  unfoldable pub subscript : FdMap → Bytes → ℤ × FdMap
  subscript m path = elim (map_find (to_lower icu path) m) [
    | none ↦ (pos 0, map_set (to_lower icu path) (pos 0) m)
    | some fd ↦ (fd, m)
  ]

  -- `operator[]` that is assigned to.
  unfoldable pub assign : FdMap → Bytes → ℤ → FdMap
  assign m path fd = map_set (to_lower icu path) fd m
