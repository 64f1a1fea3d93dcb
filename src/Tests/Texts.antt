-- ===== src/Tests/Texts.antt =====
-- The theorems on texts, paths and the map of descriptors at concrete inputs.
use usvfs_fuse.Base.{pos, [], ◌∷◌, bytes, ◌≡◌, same}
use usvfs_fuse.Utils.{is_ascii, to_lower, lower_byte}
use usvfs_fuse.FdMap.{FdMap, fd_at, assign}
use usvfs_fuse.FdMap.Laws.{fd_at-assign}
use usvfs_fuse.Tests.Data.{ascii_icu}

abbrev fds : FdMap
fds = (bytes "/data", pos 7) ∷ []

fd_at-assign_example :
    fd_at ascii_icu (assign ascii_icu fds (bytes "/Mods") (pos 9)) (bytes "/MODS") ≡ pos 9
unfolding to_lower is_ascii lower_byte same
fd_at-assign_example = fd_at-assign ascii_icu fds (bytes "/Mods") (bytes "/MODS") (pos 9)
