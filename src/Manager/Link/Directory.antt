-- ===== src/Manager/Link/Directory.antt =====
-- What linking a directory comes to: `usvfsVirtualLinkDirectoryStatic` (src/usvfsmanager.cpp).
use usvfs_fuse.Base.{
  ℕ, pos, true, false, none, some, List, [], ◌∷◌, ◌++◌, Bytes, bytes, ◌≡◌, refl, sym, ap, ◌∙◌, ◌≢◌,
  append_assoc, arith, inl, ◌⊎◌, map, All, components,
}
use usvfs_fuse.Utils.{Icu}
use usvfs_fuse.Tree.Item.{Item, lookup, dir, create}
use usvfs_fuse.Tree.View.{view}
use usvfs_fuse.Tree.Find.{strip_slash}
use usvfs_fuse.Tree.Find.Seen.{keys_of}
use usvfs_fuse.Tree.Add.Walk.{lower_name}
use usvfs_fuse.Tree.Add.Result.{but_last}
use usvfs_fuse.Tree.Merge.Effect.{merged}
use usvfs_fuse.FdMap.{FdMap, assign, fd_at}
use usvfs_fuse.Kernel.{Kernel, done, open_dir, open_flags}
use usvfs_fuse.Mount.{MountState}
use usvfs_fuse.Manager.{UsvfsManager}
use usvfs_fuse.Manager.Link.{
  DirEntry, Disk, Filled, filled, failed, Linked, answered, add_entries, is_recursive, is_skipped,
  link_tree, usvfs_virtual_link_directory_static,
}
use usvfs_fuse.Manager.Link.Stops.{IsElsewhere, loop_stops}
use usvfs_fuse.Utils.Path.{components_cons}
use usvfs_fuse.Manager.Link.Entries.{IsPlain, new_info, type_of}
use usvfs_fuse.Manager.Link.Built.{root_of}

create-root : (source : Bytes) → source ≢ [] → create (bytes "/") source dir ≡ some (root_of source)
unfolding create
create-root [] given = absurd (given refl)
create-root (c ∷ s) given = refl

-- The mount has a descriptor for the path.
abbrev pub HasDescriptor : Icu → MountState → Bytes → Type 0
HasDescriptor icu s path = (n : ℕ) × (fd_at icu s.fd_map path ≡ pos n)

-- The mount has a descriptor for an entry that is a directory and not skipped.
abbrev pub IsOpened :
    (icu : Icu) (os : Kernel) → Disk os.World → UsvfsManager → MountState → DirEntry → Type 0
IsOpened icu os disk m s e =
    (is_skipped icu os disk m e ≡ true) ⊎ (e.directory ≡ false) ⊎ HasDescriptor icu s e.path

-- A new root has no record behind the names of a path.
root_lacks : (source path : Bytes) → view (root_of source) (keys_of path) ≡ none
unfolding view lookup
root_lacks source path = let (n, ns, e) = components_cons (strip_slash path) in rw e refl

All-append : {A : Type 0} (P : A → Type 0) (xs ys : List A) → All P xs → All P ys → All P (xs ++ ys)
All-append P [] ys p q = q
All-append P (x ∷ xs) ys p q = (p.0, All-append P xs ys p.1 q)

-- What a link into a pending mount `s` makes of an entry of the source.
abbrev pub IsLinked :
    (icu : Icu) (os : Kernel)
    → Disk os.World
    → UsvfsManager
    → MountState
    → MountState
    → DirEntry
    → Type 0
IsLinked icu os disk m s s' e =
    (is_skipped icu os disk m e ≡ true)
    ⊎ (view s'.file_tree (keys_of e.relative)
        ≡ merged (view s.file_tree (keys_of e.relative))
            (some (new_info e.relative e.path (type_of e))))

module _ (icu : Icu) (os : Kernel) (disk : Disk os.World) (source destination : Bytes) (flags : ℕ)
    (m : UsvfsManager) (w : os.World) (n : ℕ) (out : Bytes)
    (opened : (os.run (open_dir source open_flags) w).0 ≡ done n out)
    (recursive : is_recursive flags ≡ true) (given : source ≢ []) where
  abbrev w1 : os.World
  w1 = (os.run (open_dir source open_flags) w).1

  abbrev source_fds : FdMap
  source_fds = assign icu [] source (pos n)

  -- The call with the result of the loop over the listing.
  abbrev finished : Filled os.World → Linked os.World
  finished (failed w') = answered false m w'
  finished (filled t fds w') = link_tree icu os disk destination t fds m w'

  link_listing :
      (es : List DirEntry)
      → disk.walk_dir source w1 ≡ some es
      → usvfs_virtual_link_directory_static icu os disk source destination flags m w
        ≡ finished
            (add_entries icu os disk (is_skipped icu os disk m) (root_of source) source_fds es w1)
  unfolding usvfs_virtual_link_directory_static
  link_listing es listed = ground (arith, create-root source given)

  -- A recursive link of a source that has a directory `d` to be skipped with something in it: where
  -- the source is opened, and the walk comes to the directory and, at any later time, to an entry `e`
  -- right in it that is not to be skipped and that `add` can file, the call answers false, and the
  -- manager is as it was. Each entry that comes before `e` is to be skipped, or `add` can file it and
  -- it has another path than the directory.
  pub link_skipped_directory :
      (d e : DirEntry) (first between behind : List DirEntry)
      → disk.walk_dir source w1 ≡ some (first ++ (d ∷ (between ++ (e ∷ behind))))
      → d.directory ≡ true
      → is_skipped icu os disk m d ≡ true
      → is_skipped icu os disk m e ≡ false
      → IsPlain e
      → map lower_name (but_last (components (strip_slash e.relative))) ≡ keys_of d.relative
      → All (IsElsewhere (is_skipped icu os disk m) (keys_of d.relative)) first
      → All (IsElsewhere (is_skipped icu os disk m) (keys_of d.relative)) between
      → (w' : os.World) × (usvfs_virtual_link_directory_static icu os disk source destination flags
            m w
          ≡ answered false m w')
  link_skipped_directory d e first between behind listed is_directory skipped kept plain inside
        elsewhere elsewhere' =
      let (w', h) =
        loop_stops icu os disk (is_skipped icu os disk m) e behind kept plain (keys_of d.relative)
          (first ++ (d ∷ between)) (root_of source) source_fds w1 inside
          (All-append (IsElsewhere (is_skipped icu os disk m) (keys_of d.relative)) first
            (d ∷ between) elsewhere (inl skipped, elsewhere'))
          (root_lacks source d.relative) in
      (
        w',
        link_listing _ listed
            ∙ ap finished (
                ap
                  (λ es.
                    add_entries icu os disk (is_skipped icu os disk m) (root_of source) source_fds
                      es w1)
                  (sym (append_assoc first (d ∷ between) (e ∷ behind)))
                ∙ h),
      )
