-- ===== src/Fuse/Made/Success.antt =====
-- What `usvfs_create` and `usvfs_mkdir` (src/usvfs.cpp) meet where the machine does what it is asked.
pub mod Create
pub mod Mkdir
use mathlib.Core.Option.{none-ne-some}
use usvfs_fuse.Base.{
  ℕ, ℤ, pos, negsuc, Bool, true, false, not, ◌&&◌, is_minus_one, is_negative, is_empty_bytes,
  Option, none, some, List, [], ◌∷◌, ◌++◌, Bytes, bytes, slash, ◌≡◌, ◌≢◌, refl, sym, ap, ◌∙◌, arith,
  map, components, subst, Option-cases, Bool-cases, inl, inr,
}
use usvfs_fuse.Utils.{Icu, get_parent_path, get_file_name_from_path}
use usvfs_fuse.Utils.Case.{IsAscii}
use usvfs_fuse.Tree.Item.{Item, ItemType, Info, file, dir, real_path, is_deleted, walk}
use usvfs_fuse.Tree.View.{view}
use usvfs_fuse.Tree.Path.{IsAscii-slash}
use usvfs_fuse.Tree.Find.{Found, find}
use usvfs_fuse.Tree.Find.Seen.{keys_of, find_item}
use usvfs_fuse.Tree.Find.Walk.{seek}
use usvfs_fuse.Tree.Names.{clean-ne-root}
use usvfs_fuse.Tree.Add.{AddResult, added, add}
use usvfs_fuse.Tree.Add.Walk.{IsClean, lower_name}
use usvfs_fuse.Tree.Add.Found.{seek-view}
use usvfs_fuse.Tree.Add.Result.{but_last, succeeds, expected, outcome-add, added_of_outcome}
use usvfs_fuse.Kernel.{Kernel, IsPosix, Call, done, done-ne-fail, mkdirat, openat, open_flags}
use usvfs_fuse.FdMap.{fd_at, assign}
use usvfs_fuse.Mount.{MountState, FileInfo, Outcome, returns, sys}
use usvfs_fuse.Fuse.{
  parent_fd, create_parent_dir, opened_parent, real_parent_path, ready, with_item,
}
use usvfs_fuse.Fuse.Safety.Parents.{create_parent_dir-tree}
use usvfs_fuse.Fuse.Parts.{append-ne-nil}
use usvfs_fuse.Fuse.Dir.{make_dir, usvfs_mkdir}
use usvfs_fuse.Fuse.Entry.{create_file, create_in, keeping, usvfs_create}
use usvfs_fuse.Fuse.Entry.Unlink.{at_mount}
use usvfs_fuse.Fuse.Made.{IsFoundIn}
use usvfs_fuse.Fuse.Made.Create.{create_found}
use usvfs_fuse.Fuse.Made.Mkdir.{mkdir_found}
use usvfs_fuse.Fuse.Made.Parent.{parent_seen}

-- The directory of a new item has a descriptor `fd`, with the machine `w'`: it is known; or there is an
-- upper directory, the descriptor of the directory above is known, and the calls that make and open
-- the directory there are answered.
pub data HasDirectory (icu : Icu) (os : Kernel) (m : MountState) (real : Bytes) (mode : ℕ)
    (w : os.World) (fd : ℕ) (w' : os.World) : Type 0 where
  is_known : fd_at icu m.fd_map real ≡ pos fd → w' ≡ w → HasDirectory icu os m real mode w fd w'
  is_made :
      (above n : ℕ) (out out' : Bytes) (v : os.World)
      → is_empty_bytes m.upper_dir ≡ false
      → fd_at icu m.fd_map real ≡ negsuc 0
      → fd_at icu m.fd_map (get_parent_path real) ≡ pos above
      → os.run (mkdirat (pos above) (get_file_name_from_path real) mode) w ≡ (done n out, v)
      → os.run (openat (pos above) (get_file_name_from_path real) open_flags 0) v
        ≡ (done fd out', w')
      → HasDirectory icu os m real mode w fd w'

abbrev pub IsSuccess : {W : Type 0} → Outcome W → Type 0
IsSuccess o = o.status ≡ returns (pos 0)

-- The directory of a path has a record.
abbrev pub HasParent : Bytes → Item → Type 0
HasParent s t = (i : Info) × (view t (map lower_name (but_last (components s))) ≡ some i)

-- A new file or directory is added where its directory has a record, and nothing at the path but
-- perhaps a deleted item.
pub add_succeeds :
    (icu : Icu) (t : Item) (s real : Bytes) (k : ItemType) (i : Info)
    → IsAscii s
    → IsClean s
    → real ≢ []
    → find icu t (slash ∷ s) false ≡ none
    → view t (map lower_name (but_last (components s))) ≡ some i
    → (t' : Item) × (ks : List Bytes) × (add icu t (slash ∷ s) real k false ≡ added t' ks)
add_succeeds icu t s real k i ascii clean given missing there = added_of_outcome _ (
    outcome-add icu t (slash ∷ s) real k false (IsAscii-slash s ascii) clean given
    ∙ rw there (vacant _ refl))
  where
    vacant :
        (old : Option Info)
        → view t (map lower_name (components s)) ≡ old
        → some (expected (some i) old false) ≡ some succeeds
    vacant none e = refl
    vacant (some j) e = elim (Bool-cases j.deleted) [
      | inl h ↦ rw h refl
      | inr h ↦
          let (c, sought, x) = seek-view t (map lower_name (components s)) false j e (rw h refl) in
          absurd (
            none-ne-some _ (
              sym missing
              ∙ find_item icu t (slash ∷ s) false (IsAscii-slash s ascii) (λ e. cc)
                  (clean-ne-root (slash ∷ s) clean)
              ∙ sought))
    ]

module _ (icu : Icu) (os : Kernel) where
  open os use {World, run}

  create_parent_dir_made :
      (m : MountState) (real : Bytes) (mode above n : ℕ) (w v : World) (out : Bytes)
      → fd_at icu m.fd_map (get_parent_path real) ≡ pos above
      → run (mkdirat (pos above) (get_file_name_from_path real) mode) w ≡ (done n out, v)
      → create_parent_dir icu os m real mode w
        ≡ opened_parent icu os m real
            (run (openat (pos above) (get_file_name_from_path real) open_flags 0) v)
  unfolding create_parent_dir
  create_parent_dir_made m real mode above n w v out known makes =
      let name = get_file_name_from_path real in
      let above_fd = fd_at icu m.fd_map (get_parent_path real) in
      let made = subst (λ fd. run (mkdirat fd name mode) w ≡ (done n out, v)) (sym known) makes in
      rw (made, create_parent_dir)
        (ap (λ x. opened_parent icu os m real (run (openat above_fd name open_flags 0) x))
            (ap (λ r. r.1) made)
          ∙ ap (λ fd. opened_parent icu os m real (run (openat fd name open_flags 0) v)) known)

  -- The descriptor of the directory is at hand, and the tree as before.
  pub parent_fd-ready :
      (m : MountState) (real : Bytes) (mode : ℕ) (w : World) (fd : ℕ) (w' : World)
      → HasDirectory icu os m real mode w fd w'
      → (m' : MountState) × (parent_fd icu os m real mode w ≡ ready (pos fd) m' w')
        × (m'.file_tree ≡ m.file_tree)
  unfolding parent_fd opened_parent
  parent_fd-ready m real mode w fd w' (is_known known same_machine) =
      (m, rw (known, parent_fd) (ap (ready (pos fd) m) (sym same_machine)), refl)
  parent_fd-ready m real mode w fd w' (is_made above n out out' v upper unknown known makes opens) =
      (
        record m { fd_map = assign icu m.fd_map real (pos fd) },
        rw
            (
              unknown,
              upper,
              create_parent_dir_made m real mode above n w v out known makes,
              opens,
              parent_fd,
            )
            refl,
        refl,
      )
