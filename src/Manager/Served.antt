-- ===== src/Manager/Served.antt =====
-- An item of a tree that was linked (src/usvfsmanager.cpp), as `usvfs_open` (src/usvfs.cpp) meets it.
use usvfs_fuse.Base.{
  ℕ, pos, neg, true, false, none, some, List, [], Bytes, not, ◌||◌, ◌≡◌, ◌≢◌, refl, sym, ap, ◌∙◌,
  same, components, Option,
}
use usvfs_fuse.Utils.{Icu, to_lower, get_parent_path, get_file_name_from_path}
use usvfs_fuse.Utils.Case.{IsAscii}
use usvfs_fuse.Tree.Item.{Item, Info, real_path, file}
use usvfs_fuse.Tree.View.{view, same_keys_iff}
use usvfs_fuse.Tree.Find.{Found, find, strip_slash}
use usvfs_fuse.Tree.Find.Seen.{keys_of, find_item}
use usvfs_fuse.Tree.Names.{clean-ne-nil, clean-ne-root}
use usvfs_fuse.Tree.Add.{added, add}
use usvfs_fuse.Tree.Add.Walk.{IsClean}
use usvfs_fuse.Tree.Add.Found.{seek-view}
use usvfs_fuse.Tree.Add.Effect.{written, last_name, add-Updates}
use usvfs_fuse.FdMap.{fd_at}
use usvfs_fuse.FdMap.Laws.{fd_at-assign}
use usvfs_fuse.Kernel.{Kernel, Call, Reply, done, fail, openat}
use usvfs_fuse.Mount.{MountState, FileInfo, Outcome, returns, ended}
use usvfs_fuse.Fuse.{with_item, parent_path_of, file_name_of}
use usvfs_fuse.Fuse.Io.{keeping, usvfs_open}
use usvfs_fuse.Fuse.Entry.Unlink.{at_mount}
use usvfs_fuse.Manager.Mounting.{Host, with_upper_dir}

-- The item behind a path after a successful `add` of another path with the same keys.
pub added_source :
    (icu : Icu) (t t' : Item) (name path source : Bytes) (ks : List Bytes)
    → IsAscii name
    → IsClean (strip_slash name)
    → source ≢ []
    → add icu t name source file false ≡ added t' ks
    → IsAscii path
    → IsClean (strip_slash path)
    → keys_of path ≡ keys_of name
    → (r : Found) × (find icu t' path false ≡ some r) × (real_path r.target ≡ source)
added_source icu t t' name path source ks ascii clean given h ascii' clean' same_keys =
    let (keys, up) = add-Updates icu t name source file false t' ks ascii clean given h in
    let shown : view t' ks ≡ some (written (view t ks) last source file) =
      up ks ∙ rw ((same_keys_iff ks ks).1 refl) refl in
    let (c, sought, e) = seek-view t' ks false _ shown (written_live (view t ks) last) in
    (
      record { keys = ks; target = c },
      find_item icu t' path false ascii' (clean-ne-nil path clean') (clean-ne-root path clean')
          ∙ rw (same_keys ∙ sym keys) sought,
      ap (λ (i : Info). i.real_path) e ∙ written_source (view t ks),
    )
  where
    last : Bytes
    last = last_name (components (strip_slash name))

    written_live :
        (o : Option Info) (n : Bytes) → (not (written o n source file).deleted || false) ≡ true
    written_live none n = refl
    written_live (some i) n = refl

    written_source : (o : Option Info) → (written o last source file).real_path ≡ source
    written_source none = refl
    written_source (some i) = refl

-- The call that opens `source` by the descriptor of its directory.
abbrev pub open_call : Bytes → ℕ → FileInfo → Call
open_call source fd fi = openat (pos fd) (get_file_name_from_path source) fi.flags 0

-- An `open` that comes to one system call: its descriptor for the caller, or its error number.
abbrev pub opened_by : {W : Type 0} → MountState → FileInfo → Reply × W → Outcome W
opened_by mount fi r = elim r.0 [
  | fail e ↦ record {
    status = returns (neg e);
    out = [];
    info = some fi;
    context = at_mount mount r.1;
  }
  | done n out ↦ record {
    status = returns (pos 0);
    out = [];
    info = some (record fi { fh = n });
    context = at_mount mount r.1;
  }
]

module _ (icu : Icu) (os : Kernel) where
  open os use {World, run}

  -- What follows the reply to the call.
  abbrev opening : MountState → FileInfo → Reply × World → Outcome World
  opening mount fi r = elim r.0 [
    | fail e ↦ ended (neg e) mount r.1
    | done n out ↦ record (ended (pos 0) mount r.1) { info = some (record fi { fh = n }) }
  ]

  keeping-opening :
      (mount : MountState) (fi : FileInfo) (r : Reply × World)
      → keeping icu os fi (opening mount fi r) ≡ opened_by mount fi r
  unfolding keeping
  keeping-opening mount fi (fail e, v) = refl
  keeping-opening mount fi (done n out, v) = refl

  pub open_found :
      (mount : MountState) (path source : Bytes) (fi : FileInfo) (v : World) (r : Found) (fd : ℕ)
      → find icu mount.file_tree path false ≡ some r
      → real_path r.target ≡ source
      → fd_at icu mount.fd_map (get_parent_path source) ≡ pos fd
      → usvfs_open icu os path fi (at_mount mount v)
        ≡ opened_by mount fi (run (open_call source fd fi) v)
  unfolding usvfs_open
  open_found mount path source fi v r fd found real known =
      let calls : openat (fd_at icu mount.fd_map (parent_path_of r.target)) (file_name_of r.target)
            fi.flags 0
          ≡ open_call source fd fi =
        rw (real, known) refl in
      rw (found, usvfs_open, with_item)
        (ap (λ call. keeping icu os fi (opening mount fi (run call v))) calls
          ∙ keeping-opening mount fi (run (open_call source fd fi) v))

  -- The upper directory that `mountInternal` gives to a mount changes neither its tree nor its
  -- descriptors of other directories.
  pub with_upper_dir-served :
      (host : Host World) (upper path : Bytes) (fd : ℕ) (s : MountState)
      → same (to_lower icu upper) (to_lower icu path) ≡ false
      → ((with_upper_dir icu os host upper fd s).file_tree ≡ s.file_tree)
        × (fd_at icu (with_upper_dir icu os host upper fd s).fd_map path ≡ fd_at icu s.fd_map path)
  with_upper_dir-served host upper path fd s apart =
      (refl, fd_at-assign icu s.fd_map upper path (pos fd) ∙ rw apart refl)
