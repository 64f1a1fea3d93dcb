-- ===== src/Manager/Link/Entries.antt =====
-- The tree that is made from the listing of a directory (src/usvfsmanager.cpp).
use mathlib.Core.Option.{none-ne-some, some-injective}
use usvfs_fuse.Base.{
  ℕ, pos, Bool, true, false, Option, none, some, List, [], ◌∷◌, if◌then◌else◌, Bytes, ◌≡◌, refl,
  sym, ap, ◌∙◌, subst, ◌≢◌, arith, Bool-cases, inl, inr, ◌⊎◌, map, eexist,
}
use usvfs_fuse.Utils.{Icu}
use usvfs_fuse.Utils.Case.{IsAscii}
use usvfs_fuse.Tree.Item.{Item, ItemType, file, dir, Info}
use usvfs_fuse.Tree.View.{view, same_keys, same_keys_iff}
use usvfs_fuse.Tree.Find.{strip_slash}
use usvfs_fuse.Tree.Find.Seen.{keys_of}
use usvfs_fuse.Tree.Add.{AddResult, added, refused, null_entry, crash, add}
use usvfs_fuse.Tree.Add.Walk.{IsClean, lower_name}
use usvfs_fuse.Tree.Add.Effect.{written, Updates, last_name, add-Updates}
use usvfs_fuse.Tree.Add.Result.{outcome, succeeds, fails, expected, but_last, outcome-add}
use usvfs_fuse.Base.{components, All}
use usvfs_fuse.FdMap.{FdMap, assign}
use usvfs_fuse.Kernel.{Kernel, Reply, done, fail, open_dir, open_flags, Reply-cases}
use usvfs_fuse.Manager.Link.{DirEntry, Disk, Filled, filled, failed, add_entries}

-- No record of the tree is marked as deleted.
abbrev pub IsAlive : Item → Type 0
IsAlive t = (js : List Bytes) (i : Info) → view t js ≡ some i → i.deleted ≡ false

-- The names of a path, and the record that `add` makes of a new item.
abbrev pub new_info : Bytes → Bytes → ItemType → Info
new_info path real k = written none (last_name (components (strip_slash path))) real k

succeeds-ne-fails : (e : ℕ) → succeeds ≢ fails e
succeeds-ne-fails e h = cc

expected_fresh :
    (p o : Option Info)
    → ((i : Info) → o ≡ some i → i.deleted ≡ false)
    → expected p o false ≡ succeeds
    → o ≡ none
expected_fresh none o live h = absurd (cc)
expected_fresh (some p) none live h = refl
expected_fresh (some p) (some i) live h =
    absurd (succeeds-ne-fails eexist (sym h ∙ rw (live i refl) refl))

module _ (icu : Icu) (t t' : Item) (path real : Bytes) (k : ItemType) (ks : List Bytes)
    (alive : IsAlive t) (ascii : IsAscii path) (clean : IsClean (strip_slash path))
    (given : real ≢ []) (adds : add icu t path real k false ≡ added t' ks) where
  -- An `add` that is not to update an item has made one.
  add_fresh : view t (keys_of path) ≡ none
  add_fresh =
      expected_fresh (view t (map lower_name (but_last (components (strip_slash path)))))
        (view t (keys_of path)) (alive (keys_of path))
        (some-injective _ _
          (sym (outcome-add icu t path real k false ascii clean given) ∙ ap outcome adds))

  fresh-Updates : Updates t (keys_of path) (new_info path real k) t'
  fresh-Updates js =
      let (keys, up) = add-Updates icu t path real k false t' ks ascii clean given adds in
      subst
        (λ ls. view t' js ≡ (
          if same_keys ls js
          then some (written (view t ls) (last_name (components (strip_slash path))) real k)
          else view t js))
        keys (up js)
      ∙ rw add_fresh refl

  fresh_keeps : (js : List Bytes) (i : Info) → view t js ≡ some i → view t' js ≡ some i
  fresh_keeps js i there = elim (Bool-cases (same_keys (keys_of path) js)) [
    | inl e ↦ absurd (
        none-ne-some i
          (sym add_fresh ∙ ap (view t) ((same_keys_iff (keys_of path) js).0 e) ∙ there))
    | inr e ↦ fresh-Updates js ∙ rw e there
  ]

  fresh_at : view t' (keys_of path) ≡ some (new_info path real k)
  fresh_at =
      fresh-Updates (keys_of path) ∙ rw ((same_keys_iff (keys_of path) (keys_of path)).1 refl) refl

  pub fresh-IsAlive : IsAlive t'
  fresh-IsAlive js i there = elim (Bool-cases (same_keys (keys_of path) js)) [
    | inl e ↦
        ap (λ o. o.deleted)
          (some-injective i (new_info path real k)
            (sym there ∙ sym (ap (view t') ((same_keys_iff (keys_of path) js).0 e)) ∙ fresh_at))
    | inr e ↦ alive js i (sym (rw e refl) ∙ sym (fresh-Updates js) ∙ there)
  ]

filled-ne-failed : {W : Type 0} (t : Item) (fds : FdMap) (w w' : W) → filled t fds w ≢ failed w'
filled-ne-failed t fds w w' h = cc

pub filled-tree :
    {W : Type 0} (t t' : Item) (fds fds' : FdMap) (w w' : W)
    → filled t fds w ≡ filled t' fds' w'
    → t ≡ t'
filled-tree t t' fds fds' w w' h = cc

pub filled-fds :
    {W : Type 0} (t t' : Item) (fds fds' : FdMap) (w w' : W)
    → filled t fds w ≡ filled t' fds' w'
    → fds ≡ fds'
filled-fds t t' fds fds' w w' h = cc

-- An entry that `add` can file by its names.
abbrev pub IsPlain : DirEntry → Type 0
IsPlain e = IsAscii e.relative × IsClean (strip_slash e.relative) × (e.path ≢ [])

abbrev pub type_of : DirEntry → ItemType
type_of e = if e.directory then dir else file

module _ (icu : Icu) (os : Kernel) (disk : Disk os.World) (skip : DirEntry → Bool) where
  module _ (t : Item) (fds : FdMap) (e : DirEntry) (es : List DirEntry) (w : os.World)
      (kept : skip e ≡ false) where
    abbrev loop : Filled os.World
    loop = add_entries icu os disk skip t fds (e ∷ es) w

    abbrev reply : Reply × os.World
    reply = os.run (open_dir e.path open_flags) w

    abbrev result : AddResult
    result = add icu t e.relative e.path (type_of e) false

    pub loop_file :
        (u : Item) (ks : List Bytes)
        → result ≡ added u ks
        → e.directory ≡ false
        → loop ≡ add_entries icu os disk skip u fds es w
    unfolding add_entries
    loop_file u ks adds is_file = ground arith

    pub loop_directory :
        (u : Item) (ks : List Bytes) (n : ℕ) (out : Bytes)
        → result ≡ added u ks
        → e.directory ≡ true
        → reply.0 ≡ done n out
        → loop ≡ add_entries icu os disk skip u (assign icu fds e.path (pos n)) es reply.1
    unfolding add_entries
    loop_directory u ks n out adds is_directory opened = ground arith

    pub loop_closed :
        (u : Item) (ks : List Bytes) (k : ℕ)
        → result ≡ added u ks
        → e.directory ≡ true
        → reply.0 ≡ fail k
        → loop ≡ failed reply.1
    unfolding add_entries
    loop_closed u ks k adds is_directory refuses = ground arith

    pub loop_refused : (k : ℕ) → result ≡ refused k → loop ≡ failed w
    unfolding add_entries
    loop_refused k h = ground arith

    pub loop_null : result ≡ null_entry → loop ≡ failed w
    unfolding add_entries
    loop_null h = ground arith

    pub loop_crash : result ≡ crash → loop ≡ failed w
    unfolding add_entries
    loop_crash h = ground arith

    -- A directory has its descriptor in the map from now on.
    abbrev pub Grown : FdMap → Type 0
    Grown fds2 =
        ((e.directory ≡ false) × (fds2 ≡ fds))
        ⊎ ((e.directory ≡ true) × (n : ℕ) × (fds2 ≡ assign icu fds e.path (pos n)))

    -- The step of the loop over an entry that is not skipped, where the loop ends well.
    pub loop_step :
        (t' : Item) (fds' : FdMap) (w' : os.World)
        → loop ≡ filled t' fds' w'
        → (u : Item) × (ks : List Bytes) × (fds2 : FdMap) × (w2 : os.World) × (result ≡ added u ks)
          × (add_entries icu os disk skip u fds2 es w2 ≡ filled t' fds' w')
          × Grown fds2
    loop_step t' fds' w' h = go result refl
      where
        go :
            (r : AddResult)
            → result ≡ r
            → (u : Item) × (ks : List Bytes) × (fds2 : FdMap) × (w2 : os.World) × (result
                ≡ added u ks)
              × (add_entries icu os disk skip u fds2 es w2 ≡ filled t' fds' w')
              × Grown fds2
        go (refused k) r = absurd (filled-ne-failed t' fds' w' w (sym h ∙ loop_refused k r))
        go null_entry r = absurd (filled-ne-failed t' fds' w' w (sym h ∙ loop_null r))
        go crash r = absurd (filled-ne-failed t' fds' w' w (sym h ∙ loop_crash r))
        go (added u ks) r = elim (Bool-cases e.directory) [
          | inr is_file ↦
              (u, ks, fds, w, r, sym (loop_file u ks r is_file) ∙ h, inl (is_file, refl))
          | inl is_directory ↦ elim (Reply-cases reply.0) [
            | inl (k, refuses) ↦
                absurd (
                  filled-ne-failed t' fds' w' _ (sym h ∙ loop_closed u ks k r is_directory refuses))
            | inr (n, out, opened) ↦ (
              u,
              ks,
              _,
              _,
              r,
              sym (loop_directory u ks n out r is_directory opened) ∙ h,
              inr (is_directory, n, refl),
            )
          ]
        ]

  -- Records that are there stay.
  add_entries_keeps :
      (t t' : Item) (fds fds' : FdMap) (es : List DirEntry) (w w' : os.World)
      → IsAlive t
      → All IsPlain es
      → add_entries icu os disk skip t fds es w ≡ filled t' fds' w'
      → (js : List Bytes) (i : Info) → view t js ≡ some i
      → view t' js ≡ some i
  unfolding add_entries
  add_entries_keeps t t' fds fds' [] w w' alive plain h js i there =
      ap (λ u. view u js) (sym (filled-tree t t' fds fds' w w' h)) ∙ there
  add_entries_keeps t t' fds fds' (e ∷ es) w w' alive (p, plain) h js i there =
      elim (Bool-cases (skip e)) [
        | inl skipped ↦
            add_entries_keeps t t' fds fds' es w w' alive plain (sym (rw skipped refl) ∙ h) js i
              there
        | inr kept ↦
            let (u, ks, fds2, w2, adds, rest, grown) = loop_step t fds e es w kept t' fds' w' h in
            add_entries_keeps u t' fds2 fds' es w2 w'
              (fresh-IsAlive icu t u e.relative e.path (type_of e) ks alive p.0 p.1 p.2 adds) plain
              rest js i
              (fresh_keeps icu t u e.relative e.path (type_of e) ks alive p.0 p.1 p.2 adds js i
                there)
      ]

  -- Where the loop over a listing ends well, on a tree without deleted records and entries that are
  -- plain: each entry is skipped, or its record stands behind the names of its path, with its real
  -- path and its type; and records that were there before stay as they were.
  pub add_entries_files :
      (t t' : Item) (fds fds' : FdMap) (es : List DirEntry) (w w' : os.World)
      → IsAlive t
      → All IsPlain es
      → add_entries icu os disk skip t fds es w ≡ filled t' fds' w'
      → All
          (λ e.
            (skip e ≡ true)
            ⊎ (view t' (keys_of e.relative) ≡ some (new_info e.relative e.path (type_of e))))
          es
        × ((js : List Bytes) (i : Info) → view t js ≡ some i → view t' js ≡ some i)
  unfolding add_entries
  add_entries_files t t' fds fds' [] w w' alive plain h =
      (tt, add_entries_keeps t t' fds fds' [] w w' alive plain h)
  add_entries_files t t' fds fds' (e ∷ es) w w' alive plain h = elim (Bool-cases (skip e)) [
    | inl skipped ↦ (
      (
        inl skipped,
        (add_entries_files t t' fds fds' es w w' alive plain.1 (sym (rw skipped refl) ∙ h)).0,
      ),
      add_entries_keeps t t' fds fds' (e ∷ es) w w' alive plain h,
    )
    | inr kept ↦
        let p = plain.0 in
        let (u, ks, fds2, w2, adds, rest, grown) = loop_step t fds e es w kept t' fds' w' h in
        let alive' =
          fresh-IsAlive icu t u e.relative e.path (type_of e) ks alive p.0 p.1 p.2 adds in
        (
          (
            inr (
                add_entries_keeps u t' fds2 fds' es w2 w' alive' plain.1 rest _ _
                  (fresh_at icu t u e.relative e.path (type_of e) ks alive p.0 p.1 p.2 adds)),
            (add_entries_files u t' fds2 fds' es w2 w' alive' plain.1 rest).0,
          ),
          add_entries_keeps t t' fds fds' (e ∷ es) w w' alive plain h,
        )
  ]
