-- ===== src/Fuse/Made.antt =====
-- `usvfs_create` and `usvfs_mkdir` (src/usvfs.cpp), and what `find` answers afterwards.
pub mod Create
pub mod Mkdir
pub mod Parent
pub mod Success
use mathlib.Core.Option.{none-ne-some, some-injective}
use usvfs_fuse.Base.{
  ℕ, ◌<◌, zero, suc, ℤ, pos, neg, negsuc, Bool, true, false, not, ◌&&◌, ◌||◌, is_negative,
  is_minus_one, Option, none, some, if◌then◌else◌, List, [], ◌∷◌, Bytes, ◌++◌, bytes, slash,
  is_empty_bytes, components, enoent, eexist, eio, ◌≡◌, refl, sym, ap, ◌∙◌, ◌≢◌, inl, inr, subst,
  Option-cases, Bool-cases, arith,
}
use usvfs_fuse.Utils.{Icu, get_parent_path, get_file_name_from_path}
use usvfs_fuse.Utils.Case.{IsAscii}
use usvfs_fuse.Tree.Item.{Item, ItemType, Info, info_of, file, dir, real_path, is_deleted, modify}
use usvfs_fuse.Tree.View.{view, same_keys, same_keys_iff}
use usvfs_fuse.Tree.Find.{Found, find, strip_slash}
use usvfs_fuse.Tree.Find.Seen.{keys_of, find_item}
use usvfs_fuse.Tree.Add.{AddResult, added, refused, null_entry, crash, add}
use usvfs_fuse.Tree.Add.Walk.{IsClean}
use usvfs_fuse.Tree.Add.Effect.{written, last_name, Updates, add-Updates}
use usvfs_fuse.Tree.Add.Result.{fails, expected, outcome as outcome_of_add, outcome-add}
use usvfs_fuse.Tree.Add.Found.{seek-view}
use usvfs_fuse.Tree.Modify.{modify-Updates}
use usvfs_fuse.FdMap.{fd_at, assign}
use usvfs_fuse.Kernel.{Kernel, IsPosix, Call, done, fail, mkdirat, openat, open_flags, Reply-cases}
use usvfs_fuse.Mount.{
  MountState, FileInfo, Context, Outcome, Status, returns, broken, outcome, ended, with_state, sys,
}
use usvfs_fuse.Fuse.{
  with_item, parent_fd, ParentFd, ready, stopped, real_parent_path, create_parent_dir,
}
use usvfs_fuse.Tree.Names.{clean-ne-nil, clean-ne-root}
use usvfs_fuse.Fuse.Safety.Lookup.{item_found}
use usvfs_fuse.Fuse.Parts.{
  children-revived, revived_live, placed, created, in_parent, append-ne-nil,
}
use usvfs_fuse.Fuse.Dir.{revived, make_dir, usvfs_mkdir}
use usvfs_fuse.Fuse.Entry.{create_file, create_in, keeping, usvfs_create}

abbrev pub IsFoundIn : Icu → Bytes → Option MountState → Type 0
IsFoundIn icu path none = ⊥
IsFoundIn icu path (some m) = (r : Found) × (find icu m.file_tree path false ≡ some r)

-- Where the handler answers 0, the path is found afterwards.
pub record Makes {W : Type 0} (icu : Icu) (path : Bytes) (o : Outcome W) : Type 0 where
  pub found : o.status ≡ returns (pos 0) → IsFoundIn icu path o.context.mount

pub seen_found :
    (icu : Icu) (t : Item) (path : Bytes) (i : Info)
    → IsAscii path
    → IsClean (strip_slash path)
    → view t (keys_of path) ≡ some i
    → i.deleted ≡ false
    → (r : Found) × (find icu t path false ≡ some r)
seen_found icu t path i ascii clean shown live =
    let (c, sought, e) = seek-view t (keys_of path) false i shown (ground arith) in
    (
      record { keys = keys_of path; target = c },
      find_item icu t path false ascii (clean-ne-nil path clean) (clean-ne-root path clean)
          ∙ sought,
    )

written_live :
    (o : Option Info) (n real : Bytes) (k : ItemType) → (written o n real k).deleted ≡ false
written_live none n real k = refl
written_live (some i) n real k = refl

added_found :
    (icu : Icu) (t t' : Item) (path real : Bytes) (k : ItemType) (ks : List Bytes)
    → IsAscii path
    → IsClean (strip_slash path)
    → real ≢ []
    → add icu t path real k false ≡ added t' ks
    → (r : Found) × (find icu t' path false ≡ some r)
added_found icu t t' path real k ks ascii clean given h =
    let (keys, up) = add-Updates icu t path real k false t' ks ascii clean given h in
    let last = last_name (components (strip_slash path)) in
    let shown : view t' ks ≡ some (written (view t ks) last real k) =
      up ks ∙ rw ((same_keys_iff ks ks).1 refl) refl in
    seen_found icu t' path (written (view t ks) last real k) ascii clean
      (ap (view t') (sym keys) ∙ shown) (written_live (view t ks) last real k)

refusal-ne-zero : (o p : Option Info) (upd : Bool) (e : ℕ) → fails e ≡ expected o p upd → e ≢ 0
refusal-ne-zero none p upd e h z = cc
refusal-ne-zero (some i) none upd e h z = cc
refusal-ne-zero (some i) (some j) upd e h z = ground arith

-- The errno of a refused `add` is ENOENT or EEXIST.
pub refused-ne-zero :
    (icu : Icu) (t : Item) (path real : Bytes) (k : ItemType) (e : ℕ)
    → IsAscii path
    → IsClean (strip_slash path)
    → real ≢ []
    → add icu t path real k false ≡ refused e
    → e ≢ 0
refused-ne-zero icu t path real k e ascii clean given h = refusal-ne-zero _ _ false e (
    some-injective _ _
      (ap outcome_of_add (sym h) ∙ outcome-add icu t path real k false ascii clean given))

module _ {W : Type 0} (icu : Icu) (path : Bytes) where
  pub failed-Makes :
      (code : ℤ) (m : MountState) (w : W) → code ≢ pos 0 → Makes icu path (ended code m w)
  failed-Makes code m w bad = record { found = λ h. absurd (bad cc) }

  broken-Makes : (m : MountState) (w : W) → Makes icu path (outcome broken m w)
  broken-Makes m w = record { found = λ h. absurd (cc) }

  pub if-Makes :
      (b : Bool) {x y : Outcome W}
      → Makes icu path x
      → Makes icu path y
      → Makes icu path (if b then x else y)
  if-Makes true p q = p
  if-Makes false p q = q

  pub filled-Makes :
      (o : Outcome W) (out : Bytes) (info : Option FileInfo)
      → Makes icu path o
      → Makes icu path (record o { out = out; info = info })
  filled-Makes o out info makes = record { found = makes.found }

  pub with_state-Makes :
      (c : Context W) (k : MountState → W → Outcome W)
      → ((m : MountState) (w : W) → Makes icu path (k m w))
      → Makes icu path (with_state c k)
  with_state-Makes c k makes = elim (Option-cases c.mount) [
    | inl h ↦ rw (h, with_state) (record { found = λ h. absurd (cc) })
    | inr (m, h) ↦ rw (h, with_state) (makes m c.world)
  ]

  -- A new item, or one that was there already.
  pub placed-Makes :
      (m : MountState) (w : W) (real : Bytes) (k : ItemType) (code : ℕ → ℤ) (r : AddResult)
      → IsAscii path
      → IsClean (strip_slash path)
      → real ≢ []
      → add icu m.file_tree path real k false ≡ r
      → ((e : ℕ) → r ≡ refused e → code e ≢ pos 0)
      → Makes icu path (placed m w code r)
  placed-Makes m w real k code (added t ks) ascii clean given h bad = record {
    found = λ _. added_found icu m.file_tree t path real k ks ascii clean given h;
  }
  placed-Makes m w real k code (refused e) ascii clean given h bad =
      failed-Makes (code e) m w (bad e refl)
  placed-Makes m w real k code null_entry ascii clean given h bad = broken-Makes m w
  placed-Makes m w real k code crash ascii clean given h bad = broken-Makes m w

module _ (icu : Icu) (os : Kernel) (posix : IsPosix os) (path : Bytes) where
  open os use {World, run}

  neg-ne-zero : (e : ℕ) → 0 < e → neg e ≢ pos 0
  neg-ne-zero zero h = absurd (omega arith)
  neg-ne-zero (suc e) h = λ h. cc

  pub sys-Makes :
      (call : Call) (m : MountState) (w : World) (k : ℕ → Bytes → World → Outcome World)
      → ((n : ℕ) (out : Bytes) (w' : World) → Makes icu path (k n out w'))
      → Makes icu path (sys os call m w k)
  sys-Makes call m w k makes = elim (Reply-cases (run call w).0) [
    | inl (e, h) ↦
        rw (h, sys) (failed-Makes icu path _ m _ (neg-ne-zero e (posix.errno_pos call w e h)))
    | inr (n, out, h) ↦ rw (h, sys) (makes n out _)
  ]

  pub with_item-Makes :
      (m : MountState) (w : World) (at : Bytes) (k : Found → Outcome World)
      → ((r : Found) → Makes icu path (k r))
      → Makes icu path (with_item icu os m w at k)
  with_item-Makes m w at k makes = elim (Option-cases (find icu m.file_tree at false)) [
    | inl h ↦ rw (h, with_item) (failed-Makes icu path (neg enoent) m w (λ h. cc))
    | inr (r, h) ↦ rw (h, with_item) (makes r)
  ]

  abbrev IsNoSuccess : ParentFd World → Type 0
  IsNoSuccess (ready fd m w) = Unit
  IsNoSuccess (stopped code m w) = code ≢ pos 0

  negative-ne-zero : (z : ℤ) → is_negative z ≡ true → z ≢ pos 0
  negative-ne-zero (pos n) h e = cc
  negative-ne-zero (negsuc n) h e = cc

  parent_fd-IsNoSuccess :
      (m : MountState) (real : Bytes) (mode : ℕ) (w : World)
      → IsNoSuccess (parent_fd icu os m real mode w)
  unfolding parent_fd
  parent_fd-IsNoSuccess m real mode w =
      elim (Bool-cases
        (is_minus_one (fd_at icu m.fd_map real) && not (is_empty_bytes m.upper_dir))) [
          | inr e ↦ rw (e, parent_fd) tt
          | inl e ↦ elim (Bool-cases (is_negative (create_parent_dir icu os m real mode w).0)) [
            | inl h ↦ rw (e, h, parent_fd) (negative-ne-zero _ h)
            | inr h ↦ rw (e, h, parent_fd) tt
          ]
        ]

  pub parent-Makes :
      (m : MountState) (real : Bytes) (mode : ℕ) (w : World)
      → (k : ℤ → MountState → World → Outcome World)
      → ((fd : ℤ) (m' : MountState) (w' : World) → Makes icu path (k fd m' w'))
      → Makes icu path (in_parent (parent_fd icu os m real mode w) k)
  parent-Makes m real mode w k makes =
      go (parent_fd icu os m real mode w) (parent_fd-IsNoSuccess m real mode w)
    where
      go : (p : ParentFd World) → IsNoSuccess p → Makes icu path (in_parent p k)
      go (ready fd m' w') h = makes fd m' w'
      go (stopped code m' w') h = failed-Makes icu path code m' w' h
