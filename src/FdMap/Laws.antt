-- ===== src/FdMap/Laws.antt =====
-- Reads after writes in the map of file descriptors.
use usvfs_fuse.Base.{
  ℤ, pos, negsuc, [], ◌∷◌, none, some, if◌then◌else◌, Bytes, same, same_iff, same_refl, ◌≡◌, refl,
  arith,
}
use usvfs_fuse.Utils.{Icu, to_lower}
use usvfs_fuse.FdMap.{FdMap, map_find, map_set, fd_at, subscript, assign}

pub map_find-map_set :
    (j k : Bytes) (fd : ℤ) (m : FdMap)
    → map_find j (map_set k fd m) ≡ (if same k j then some fd else map_find j m)
unfolding map_find map_set
map_find-map_set j k fd [] = refl
map_find-map_set j k fd ((i, old) ∷ m) =
    ground (arith, same_iff i k, same_iff i j, same_iff k j, map_find-map_set j k fd m)

module _ (icu : Icu) where
  -- An assigned descriptor is read back under every spelling of its path; other paths keep theirs.
  pub fd_at-assign :
      (m : FdMap) (path other : Bytes) (fd : ℤ)
      → fd_at icu (assign icu m path fd) other
        ≡ (if same (to_lower icu path) (to_lower icu other) then fd else fd_at icu m other)
  unfolding fd_at assign
  fd_at-assign m path other fd =
      ground (arith, map_find-map_set (to_lower icu other) (to_lower icu path) fd m)

  -- Reading a missing path by `operator[]` gives descriptor 0 and changes the answer of `at` for
  -- it from -1 to 0.
  pub subscript_missing :
      (m : FdMap) (path : Bytes)
      → map_find (to_lower icu path) m ≡ none
      → (fd_at icu m path ≡ negsuc 0)
        × ((subscript icu m path).0 ≡ pos 0)
        × (fd_at icu (subscript icu m path).1 path ≡ pos 0)
  unfolding fd_at subscript
  subscript_missing m path e = ground (
    arith,
    map_find-map_set (to_lower icu path) (to_lower icu path) (pos 0) m,
    same_refl (to_lower icu path),
  )

  -- Reading a known path by `operator[]` is reading it by `at`, and leaves the map alone.
  pub subscript_known :
      (m : FdMap) (path : Bytes) (fd : ℤ)
      → map_find (to_lower icu path) m ≡ some fd
      → subscript icu m path ≡ (fd_at icu m path, m)
  unfolding fd_at subscript
  subscript_known m path fd e = ground arith
