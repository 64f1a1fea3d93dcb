-- ===== src/Manager/Link/Stops.antt =====
-- A walk that comes to an entry whose directory was left out (src/usvfsmanager.cpp).
use mathlib.Core.Bool.{true≢false}
use usvfs_fuse.Base.{
  pos, Bool, true, false, none, List, [], ◌∷◌, ◌++◌, Bytes, ◌≡◌, ◌≢◌, refl, sym, ap, ◌∙◌, ◌⊎◌, inl,
  inr, All, map, components, enoent, Bool-cases,
}
use usvfs_fuse.Utils.{Icu}
use usvfs_fuse.Tree.Item.{Item}
use usvfs_fuse.Tree.View.{view, same_keys, same_keys_iff}
use usvfs_fuse.Tree.Find.{strip_slash}
use usvfs_fuse.Tree.Find.Seen.{keys_of}
use usvfs_fuse.Tree.Add.{AddResult, added, refused, null_entry, crash, add}
use usvfs_fuse.Tree.Add.Walk.{lower_name}
use usvfs_fuse.Tree.Add.Effect.{add-Updates}
use usvfs_fuse.Tree.Add.Result.{but_last, outcome-add, refused_of_outcome}
use usvfs_fuse.FdMap.{FdMap, assign}
use usvfs_fuse.Kernel.{Kernel, Reply-cases, open_dir, open_flags}
use usvfs_fuse.Manager.Link.{DirEntry, Disk, failed, add_entries}
use usvfs_fuse.Manager.Link.Entries.{
  IsPlain, type_of, loop_file, loop_directory, loop_closed, loop_refused, loop_null, loop_crash,
}

-- The entry is to be skipped, or `add` can file it, and not under these names.
abbrev pub IsElsewhere : (DirEntry → Bool) → List Bytes → DirEntry → Type 0
IsElsewhere skip ks e = (skip e ≡ true) ⊎ (IsPlain e × (keys_of e.relative ≢ ks))

module _ (icu : Icu) (os : Kernel) (disk : Disk os.World) (skip : DirEntry → Bool) (e : DirEntry)
    (behind : List DirEntry) (kept : skip e ≡ false) (plain : IsPlain e) where
  still_lacks :
      (t u : Item) (x : DirEntry) (ks ls : List Bytes)
      → IsPlain x
      → keys_of x.relative ≢ ks
      → add icu t x.relative x.path (type_of x) false ≡ added u ls
      → view t ks ≡ none
      → view u ks ≡ none
  still_lacks t u x ks ls p other adds lacks =
      let (keys, up) =
        add-Updates icu t x.relative x.path (type_of x) false u ls p.0 p.1 p.2 adds in
      up ks ∙ elim (Bool-cases (same_keys ls ks)) [
        | inl h ↦ absurd (other (sym keys ∙ (same_keys_iff ls ks).0 h))
        | inr h ↦ rw h lacks
      ]

  -- The step over an entry that is not to be skipped, where the loop stops on every tree that still
  -- has no record behind the names.
  step_stops :
      (x : DirEntry) (es : List DirEntry) (ks : List Bytes) (t : Item) (fds : FdMap) (w : os.World)
      (r : AddResult)
      → add icu t x.relative x.path (type_of x) false ≡ r
      → skip x ≡ false
      → IsPlain x
      → keys_of x.relative ≢ ks
      → view t ks ≡ none
      → ((u : Item) (fds2 : FdMap) (v : os.World)
          → view u ks ≡ none
          → (w' : os.World) × (add_entries icu os disk skip u fds2 es v ≡ failed w'))
      → (w' : os.World) × (add_entries icu os disk skip t fds (x ∷ es) w ≡ failed w')
  step_stops x es ks t fds w (refused k) r stays p other lacks again =
      (w, loop_refused icu os disk skip t fds x es w stays k r)
  step_stops x es ks t fds w null_entry r stays p other lacks again =
      (w, loop_null icu os disk skip t fds x es w stays r)
  step_stops x es ks t fds w crash r stays p other lacks again =
      (w, loop_crash icu os disk skip t fds x es w stays r)
  step_stops x es ks t fds w (added u ls) r stays p other lacks again =
      let lacks' = still_lacks t u x ks ls p other r lacks in
      elim (Bool-cases x.directory) [
        | inr is_file ↦
            let (w', h) = again u fds w lacks' in
            (w', loop_file icu os disk skip t fds x es w stays u ls r is_file ∙ h)
        | inl is_directory ↦ elim (Reply-cases (os.run (open_dir x.path open_flags) w).0) [
          | inl (k, refuses) ↦
              (_, loop_closed icu os disk skip t fds x es w stays u ls k r is_directory refuses)
          | inr (n, out, opened) ↦
              let (w', h) =
                again u (assign icu fds x.path (pos n)) (os.run (open_dir x.path open_flags) w).1
                  lacks' in
              (
                w',
                loop_directory icu os disk skip t fds x es w stays u ls n out r is_directory opened
                    ∙ h,
              )
        ]
      ]

  -- Where the directory of `e` has no record, and no entry that comes before `e` makes one, the loop
  -- stops with a failure at `e` at the latest.
  pub loop_stops :
      (ks : List Bytes) (before : List DirEntry) (t : Item) (fds : FdMap) (w : os.World)
      → map lower_name (but_last (components (strip_slash e.relative))) ≡ ks
      → All (IsElsewhere skip ks) before
      → view t ks ≡ none
      → (w' : os.World) × (add_entries icu os disk skip t fds (before ++ (e ∷ behind)) w
          ≡ failed w')
  unfolding add_entries
  loop_stops ks [] t fds w inside elsewhere lacks = (
    w,
    loop_refused icu os disk skip t fds e behind w kept enoent (
        refused_of_outcome _ enoent (
          outcome-add icu t e.relative e.path (type_of e) false plain.0 plain.1 plain.2
          ∙ rw (ap (view t) inside ∙ lacks) refl)),
  )
  loop_stops ks (x ∷ before) t fds w inside (now, elsewhere) lacks = elim (Bool-cases (skip x)) [
    | inl skipped ↦
        let (w', h) = loop_stops ks before t fds w inside elsewhere lacks in (w', rw skipped h)
    | inr stays ↦ elim now [
      | inl skipped ↦ absurd (true≢false (sym skipped ∙ stays))
      | inr (p, other) ↦
          step_stops x (before ++ (e ∷ behind)) ks t fds w
            (add icu t x.relative x.path (type_of x) false) refl stays p other lacks
            (λ u fds2 v still. loop_stops ks before u fds2 v inside elsewhere still)
    ]
  ]
