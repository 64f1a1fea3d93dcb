-- ===== src/Manager/Opened.antt =====
-- A file that `usvfsVirtualLinkFile` (src/usvfsmanager.cpp) has linked into a pending mount, as
-- `usvfs_open` (src/usvfs.cpp) opens it once the mount is served.
use usvfs_fuse.Base.{
  ℕ, Bool, pos, true, false, some, List, [], ◌∷◌, ◌++◌, Bytes, ◌≡◌, ◌≢◌, refl, sym, ap, ◌∙◌, arith,
  same, same_refl, Bool-cases, Option-cases, inl, inr,
}
use mathlib.Core.Option.{none-ne-some, some-injective}
use usvfs_fuse.Utils.{Icu, to_lower, get_parent_path}
use usvfs_fuse.Utils.Case.{IsAscii}
use usvfs_fuse.Tree.Item.{Item, file}
use usvfs_fuse.Tree.Find.{find, strip_slash}
use usvfs_fuse.Tree.Find.Seen.{keys_of}
use usvfs_fuse.Tree.Add.{AddResult, added, refused, null_entry, crash, add}
use usvfs_fuse.Tree.Add.Walk.{IsClean}
use usvfs_fuse.FdMap.{fd_at, assign}
use usvfs_fuse.FdMap.Laws.{fd_at-assign}
use usvfs_fuse.Kernel.{Kernel, done, open_dir, open_flags, Reply-cases}
use usvfs_fuse.Mount.{MountState, FileInfo}
use usvfs_fuse.Fuse.Io.{usvfs_open}
use usvfs_fuse.Fuse.Entry.Unlink.{at_mount}
use usvfs_fuse.Manager.{UsvfsManager, file_name_in_skip_suffixes}
use usvfs_fuse.Manager.Link.{
  Disk, Linked, answered, aborted, link_into, split_at_mountpoint, usvfs_virtual_link_file,
}
use usvfs_fuse.Manager.Served.{added_source, opened_by, open_call, open_found}

-- A pending mount that takes the place of the one found is found in its stead.
split_replaced :
    (p : Bytes) (ss before behind : List MountState) (s s' : MountState)
    → s'.mountpoint ≡ s.mountpoint
    → split_at_mountpoint p ss ≡ some (before, s, behind)
    → split_at_mountpoint p (before ++ (s' ∷ behind)) ≡ some (before, s', behind)
unfolding split_at_mountpoint
split_replaced p [] before behind s s' e h = absurd (none-ne-some _ h)
split_replaced p (t ∷ ss) [] behind s s' e h = elim (Bool-cases (same t.mountpoint p)) [
  | inl q ↦ ground arith
  | inr q ↦ elim (Option-cases (split_at_mountpoint p ss)) [
    | inl g ↦ ground arith
    | inr (r, g) ↦ ground arith
  ]
]
split_replaced p (t ∷ ss) (b ∷ bs) behind s s' e h = elim (Bool-cases (same t.mountpoint p)) [
  | inl q ↦ ground arith
  | inr q ↦ elim (Option-cases (split_at_mountpoint p ss)) [
    | inl g ↦ ground arith
    | inr ((x, u, y), g) ↦
        let ih = split_replaced p ss bs behind s s' e (ground arith) in ground arith
  ]
]

module _ (icu : Icu) (os : Kernel) where
  open os use {World, run}

  -- The pending mounts of an answer.
  abbrev pending : Linked World → List MountState
  pending (answered b m w) = m.pending_mounts
  pending aborted = []

  abbrev mount_of : List MountState × MountState × List MountState → MountState
  mount_of (before, s, behind) = s

  abbrev is_true : Linked World → Bool
  is_true (answered b m w) = b
  is_true aborted = false

  module _ (disk : Disk World) (source destination : Bytes) where
    abbrev name : Bytes
    name = disk.filename destination

    -- A file that is linked into the pending mount of the directory of its destination: the tree
    -- has the name, and the map the descriptor of the directory of the source.
    linked_parts :
        (m m' : UsvfsManager) (w w' : World) (before behind before' behind' : List MountState)
        (s s' : MountState)
        → file_name_in_skip_suffixes icu (disk.filename source) m.skip_file_suffixes ≡ false
        → split_at_mountpoint (disk.parent_path destination) m.pending_mounts
          ≡ some (before, s, behind)
        → usvfs_virtual_link_file icu os disk source destination m w ≡ answered true m' w'
        → split_at_mountpoint (disk.parent_path destination) m'.pending_mounts
          ≡ some (before', s', behind')
        → (t : Item) × (ks : List Bytes) × (fd : ℕ) × (out : Bytes) × (add icu s.file_tree name
              source file false
            ≡ added t ks)
          × ((run (open_dir (get_parent_path source) open_flags) w).0 ≡ done fd out)
          × (s' ≡ record s {
            file_tree = t;
            fd_map = assign icu s.fd_map (get_parent_path source) (pos fd);
          })
    unfolding usvfs_virtual_link_file link_into
    linked_parts m m' w w' before behind before' behind' s s' kept split h split' =
        go (add icu s.file_tree name source file false) refl
      where
        parent : Bytes
        parent = get_parent_path source

        false_answer :
            is_true (usvfs_virtual_link_file icu os disk source destination m w) ≡ false → ⊥
        false_answer denied = absurd (cc (denied, ap is_true h))

        done_parts :
            (t : Item) (ks : List Bytes) (fd : ℕ) (out : Bytes)
            → add icu s.file_tree name source file false ≡ added t ks
            → (run (open_dir parent open_flags) w).0 ≡ done fd out
            → s' ≡ record s { file_tree = t; fd_map = assign icu s.fd_map parent (pos fd) }
        done_parts t ks fd out e g =
            let s2 : MountState = record s {
              file_tree = t;
              fd_map = assign icu s.fd_map parent (pos fd);
            } in
            let m2 : UsvfsManager = record m { pending_mounts = before ++ (s2 ∷ behind) } in
            let answer : usvfs_virtual_link_file icu os disk source destination m w
                ≡ answered true m2 (run (open_dir parent open_flags) w).1 =
              rw (kept, split, e, g, usvfs_virtual_link_file, link_into) refl in
            let same_pending : m2.pending_mounts ≡ m'.pending_mounts =
              ap pending (sym answer ∙ h) in
            ap mount_of (
              some-injective _ _ (
                sym split'
                ∙ ap (split_at_mountpoint (disk.parent_path destination)) (sym same_pending)
                ∙ split_replaced _ m.pending_mounts before behind s s2 refl split))

        go :
            (r : AddResult)
            → add icu s.file_tree name source file false ≡ r
            → (t : Item) × (ks : List Bytes) × (fd : ℕ) × (out : Bytes) × (add icu s.file_tree name
                  source file false
                ≡ added t ks)
              × ((run (open_dir parent open_flags) w).0 ≡ done fd out)
              × (s' ≡ record s { file_tree = t; fd_map = assign icu s.fd_map parent (pos fd) })
        go (refused k) e =
            absurd (false_answer (rw (kept, split, e, usvfs_virtual_link_file, link_into) refl))
        go null_entry e =
            absurd (false_answer (rw (kept, split, e, usvfs_virtual_link_file, link_into) refl))
        go crash e =
            absurd (false_answer (rw (kept, split, e, usvfs_virtual_link_file, link_into) refl))
        go (added t ks) e = elim (Reply-cases (run (open_dir parent open_flags) w).0) [
          | inl (k, g) ↦
              absurd
                (false_answer (rw (kept, split, e, g, usvfs_virtual_link_file, link_into) refl))
          | inr (fd, out, g) ↦ (t, ks, fd, out, e, g, done_parts t ks fd out e g)
        ]

    -- Let `usvfsVirtualLinkFile` answer true for a source that is not empty and not to be skipped, and
    -- for a destination in the directory of a pending mount, whose name is ASCII and has no empty
    -- names behind one leading slash. Then the directory of the source has been opened, as `fd`. In
    -- every mount with the file tree of the pending mount afterwards and its descriptor for that
    -- directory, `usvfs_open` of any ASCII path without empty names that has the same keys as the
    -- name makes one system call: it opens the last name of the source from `fd`, with the caller's
    -- flags. It ends as this call does: with the new descriptor for the caller, or with its error.
    pub linked_file_opens :
        (m m' : UsvfsManager) (w w' : World) (before behind before' behind' : List MountState)
        (s s' : MountState)
        → source ≢ []
        → IsAscii name
        → IsClean (strip_slash name)
        → file_name_in_skip_suffixes icu (disk.filename source) m.skip_file_suffixes ≡ false
        → split_at_mountpoint (disk.parent_path destination) m.pending_mounts
          ≡ some (before, s, behind)
        → usvfs_virtual_link_file icu os disk source destination m w ≡ answered true m' w'
        → split_at_mountpoint (disk.parent_path destination) m'.pending_mounts
          ≡ some (before', s', behind')
        → (mount : MountState) (path : Bytes) (fi : FileInfo) (v : World)
        → mount.file_tree ≡ s'.file_tree
        → fd_at icu mount.fd_map (get_parent_path source)
          ≡ fd_at icu s'.fd_map (get_parent_path source)
        → IsAscii path
        → IsClean (strip_slash path)
        → keys_of path ≡ keys_of name
        → (fd : ℕ) × (out : Bytes) × ((run (open_dir (get_parent_path source) open_flags) w).0
            ≡ done fd out)
          × (usvfs_open icu os path fi (at_mount mount v)
              ≡ opened_by mount fi (run (open_call source fd fi) v))
    linked_file_opens m m' w w' before behind before' behind' s s' given ascii clean kept split h
          split' mount path fi v same_tree same_fd ascii' clean' keys =
        let (t, ks, fd, out, added_to, opened, e) =
          linked_parts m m' w w' before behind before' behind' s s' kept split h split' in
        let (r, found, real) =
          added_source icu s.file_tree t name path source ks ascii clean given added_to ascii'
            clean' keys in
        let known : fd_at icu mount.fd_map (get_parent_path source) ≡ pos fd =
          same_fd
          ∙ ap (λ (u : MountState). fd_at icu u.fd_map (get_parent_path source)) e
          ∙ fd_at-assign icu s.fd_map (get_parent_path source) (get_parent_path source) (pos fd)
          ∙ rw (same_refl (to_lower icu (get_parent_path source))) refl in
        (
          fd,
          out,
          opened,
          open_found icu os mount path source fi v r fd
              (ap (λ u. find icu u path false) (same_tree ∙ ap (λ (u : MountState). u.file_tree) e)
                ∙ found)
              real known,
        )
