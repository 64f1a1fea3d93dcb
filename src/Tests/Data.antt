-- ===== src/Tests/Data.antt =====
-- A small file tree, a mount of it, and machines that answer the system calls.
use usvfs_fuse.Base.{
  negsuc, ℕ, pos, false, List, [], ◌∷◌, ◌++◌, Bytes, bytes, map, same, ◌≢◌, less, refl,
}
use usvfs_fuse.Utils.{Icu, lower_byte, upper_byte}
use usvfs_fuse.Tree.Item.{Item, item, Info, nil, entry, ItemType, file, dir}
use usvfs_fuse.Tree.Order.{IsOrdered}
use usvfs_fuse.Tree.Find.{Found}
use usvfs_fuse.Kernel.{Kernel, Call, done}
use usvfs_fuse.Mount.{MountState}

-- ICU on texts that hold ASCII only.
abbrev pub ascii_icu : Icu
ascii_icu = record {
  lower = map lower_byte;
  upper = map upper_byte;
  case_equal = λ s t. same (map lower_byte s) (map lower_byte t);
}

abbrev pub info : Bytes → Bytes → ItemType → Info
info name real k = record { file_name = name; real_path = real; type = k; deleted = false }

abbrev pub item_x : Item
item_x = item (info (bytes "X.txt") (bytes "/mods/S/X.txt") file) nil

abbrev pub item_s : Item
item_s = item (info (bytes "S") (bytes "/mods/S") dir) (entry (bytes "x.txt") item_x nil)

abbrev pub item_a : Item
item_a = item (info (bytes "A") (bytes "/data/A") file) nil

-- "/" with the file "A" and the directory "S", which has the file "X.txt".
abbrev pub tree : Item
tree =
    item (info (bytes "/") (bytes "/data") dir)
      (entry (bytes "a") item_a (entry (bytes "s") item_s nil))

abbrev pub found_root : Found
found_root = record { keys = []; target = tree }

abbrev pub found_a : Found
found_a = record { keys = bytes "a" ∷ []; target = item_a }

abbrev pub found_s : Found
found_s = record { keys = bytes "s" ∷ []; target = item_s }

abbrev pub mounted : Item → MountState
mounted t = record {
  upper_dir = [];
  mountpoint = bytes "/data";
  file_tree = t;
  fd_map = (bytes "/data", pos 7) ∷ [];
  pid_fd = negsuc 0;
}

-- A machine that does every call and keeps the calls.
abbrev pub able : Kernel
able = record { World = List Call; run = λ call calls. (done 5 [], calls ++ (call ∷ [])) }

-- A text with a byte is not empty.
pub byte-ne-nil : (c : ℕ) (s : Bytes) → (c ∷ s) ≢ []
byte-ne-nil c s e = cc

pub tree-IsOrdered : IsOrdered tree
unfolding less
tree-IsOrdered = (((refl, tt), (tt, tt)), ((tt, tt), (((tt, tt), ((tt, tt), tt)), tt)))
