-- ===== src/Tree/Fuel.antt =====
-- The fuel of the walks `findInternal`, `eraseInternal` and `addInternal`
-- (src/virtualfiletreeitem.cpp), and the walks along a list of names.
use usvfs_fuse.Base.{ℕ, ◌<◌, Bool, Bytes, length, components, ◌≡◌}
use usvfs_fuse.Tree.Item.{Item, ItemType}
use usvfs_fuse.Tree.Find.{find_internal}
use usvfs_fuse.Tree.Find.Walk.{seek, find_internal-seek}
use usvfs_fuse.Tree.Add.{add_internal}
use usvfs_fuse.Tree.Add.Walk.{lower_name, IsClean, add_names, add_internal-add_names}
use usvfs_fuse.Tree.Erase.{erase_internal}
use usvfs_fuse.Tree.Erase.Walk.{erase_keys, erase_internal-erase_keys}

-- With more fuel than the path has bytes, the walks over the bytes come to an end with what the walks
-- along the list of the path's names give, which are by recursion on that list and have no fuel: that
-- of `find` and that of `erase` on every tree and path, and that of `add` on every tree and path
-- without empty names, where its second path is the first in lower case.
pub enough_fuel :
    (fuel : ℕ) (path : Bytes)
    → length path < fuel
    → ((t : Item) (d : Bool) → find_internal fuel t path d ≡ seek t (components path) d)
      × ((t : Item) (r : Bool) → erase_internal fuel t path r ≡ erase_keys t (components path) r)
      × ((t : Item) (real : Bytes) (k : ItemType) (upd : Bool)
          → IsClean path
          → add_internal fuel t path (lower_name path) real k upd
            ≡ add_names t (components path) real k upd)
enough_fuel fuel path h = (
  λ t d. find_internal-seek fuel t path d h,
  λ t r. erase_internal-erase_keys fuel t path r h,
  λ t real k upd clean. add_internal-add_names fuel t path real k upd h clean,
)
