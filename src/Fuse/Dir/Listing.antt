-- ===== src/Fuse/Dir/Listing.antt =====
-- What `usvfs_readdir` lists, and when it fails.
use mathlib.Core.Option.{none-ne-some, some-injective}
use mathlib.Core.Bool.{true≢false}
use usvfs_fuse.Base.{
  ℕ, neg, Bool, true, false, some, if◌then◌else◌, List, [], ◌∷◌, Bytes, ◌++◌, ◌≡◌, refl, sym, ap,
  ◌∙◌, arith, subst, Bool-cases, inl, inr, is_negative, is_negative-neg, append_assoc, append-nil,
  same, bytes,
}
use usvfs_fuse.Utils.{Icu}
use usvfs_fuse.Tree.Item.{Item, Entries, nil, entry, lookup, file_name, children}
use usvfs_fuse.Tree.Find.{Found, find}
use usvfs_fuse.FdMap.{fd_at}
use usvfs_fuse.Kernel.{Kernel, Call, done, fail, fstatat, IsPosix, Reply-cases, done-ne-fail}
use usvfs_fuse.Mount.{MountState}
use usvfs_fuse.Fuse.{parent_path_of, file_name_of}
use usvfs_fuse.Fuse.Dir.{list_children, usvfs_readdir}

-- The names of all children, deleted ones too, in the order of their keys.
unfoldable pub child_names : Entries → List Bytes
child_names nil = []
child_names (entry k c es) = file_name c ∷ child_names es

-- A filler whose buffer is never full.
abbrev pub roomy : Bool → List Bytes → Bytes → Bool
roomy plus names n = false

module _ (icu : Icu) (os : Kernel) (posix : IsPosix os) (m : MountState) where
  abbrev pub stat_call : Item → Call
  stat_call c = fstatat (fd_at icu m.fd_map (parent_path_of c)) (file_name_of c) 0

  list_children_failed :
      (k : Bytes) (c : Item) (es : Entries) (names : List Bytes) (w : os.World) (e : ℕ)
      → (os.run (stat_call c) w).0 ≡ fail e
      → list_children icu os (roomy false) m (entry k c es) names w
        ≡ (neg e, names, (os.run (stat_call c) w).1)
  unfolding list_children
  list_children_failed k c es names w e h = ground arith

  list_children_goes_on :
      (k : Bytes) (c : Item) (es : Entries) (names : List Bytes) (w : os.World) (n : ℕ)
      (out : Bytes)
      → (os.run (stat_call c) w).0 ≡ done n out
      → list_children icu os (roomy false) m (entry k c es) names w
        ≡ list_children icu os
            (roomy false)
            m
            es
            (names ++ (file_name c ∷ []))
            (os.run (stat_call c) w).1
  unfolding list_children
  list_children_goes_on k c es names w n out h = ground arith

  -- Where the loop returns 0, the names of all children were added.
  list_children_all :
      (es : Entries) (names : List Bytes) (w : os.World)
      → is_negative (list_children icu os (roomy false) m es names w).0 ≡ false
      → (list_children icu os (roomy false) m es names w).1 ≡ names ++ child_names es
  unfolding list_children child_names
  list_children_all nil names w h = sym (append-nil names)
  list_children_all (entry k c es) names w h = elim (Reply-cases (os.run (stat_call c) w).0) [
    | inl (e, failed) ↦ absurd (
        true≢false (
          sym (is_negative-neg e (posix.errno_pos (stat_call c) w e failed))
          ∙ ap (λ r. is_negative r.0) (sym (list_children_failed k c es names w e failed))
          ∙ h))
    | inr (n, out, worked) ↦
        let next = list_children_goes_on k c es names w n out worked in
        ap (λ r. r.1) next
        ∙ list_children_all es (names ++ (file_name c ∷ [])) (os.run (stat_call c) w).1
            (ap (λ r. is_negative r.0) (sym next) ∙ h)
        ∙ append_assoc names (file_name c ∷ []) (child_names es)
  ]

  list_children_stops :
      (es : Entries) (k : Bytes) (c : Item)
      → lookup k es ≡ some c
      → ((w : os.World) → (e : ℕ) × ((os.run (stat_call c) w).0 ≡ fail e))
      → (names : List Bytes) (w : os.World)
      → is_negative (list_children icu os (roomy false) m es names w).0 ≡ true
  unfolding lookup
  list_children_stops nil k c h unread names w = absurd (none-ne-some _ h)
  list_children_stops (entry j d es) k c h unread names w =
      elim (Reply-cases (os.run (stat_call d) w).0) [
        | inl (e, failed) ↦
            ap (λ r. is_negative r.0) (list_children_failed j d es names w e failed)
            ∙ is_negative-neg e (posix.errno_pos (stat_call d) w e failed)
        | inr (n, out, worked) ↦
            ap (λ r. is_negative r.0) (list_children_goes_on j d es names w n out worked)
            ∙ elim (Bool-cases (same j k)) [
              | inl here ↦
                  let is_child = subst (λ b. (if b then some d else lookup k es) ≡ some c) here h in
                  let (e, failed) = unread w in
                  absurd (
                    done-ne-fail n e out (
                      sym worked
                      ∙ ap (λ x. (os.run (stat_call x) w).0) (some-injective d c is_child)
                      ∙ failed))
              | inr there ↦
                  list_children_stops es k c
                    (subst (λ b. (if b then some d else lookup k es) ≡ some c) there h) unread _ _
            ]
      ]

  -- `.` and `..`
  abbrev dots : List Bytes
  dots = bytes "." ∷ bytes ".." ∷ []

  readdir_found :
      (path : Bytes) (flags : ℕ) (w : os.World) (r : Found)
      → find icu m.file_tree path false ≡ some r
      → usvfs_readdir icu os path roomy flags (record { mount = some m; world = w })
        ≡ list_children icu os (roomy false) m (children r.target) dots w
  unfolding usvfs_readdir
  readdir_found path flags w r found = rw (found, usvfs_readdir) refl

  -- Where `usvfs_readdir` finds the path and succeeds, with a caller whose buffer does not fill,
  -- the caller has the two dots and then the names of all children in the order of their keys:
  -- deleted children are listed with the others.
  pub readdir_all :
      (path : Bytes) (flags : ℕ) (w : os.World) (r : Found)
      → find icu m.file_tree path false ≡ some r
      → is_negative (usvfs_readdir icu os path roomy flags (record { mount = some m; world = w })).0
        ≡ false
      → (usvfs_readdir icu os path roomy flags (record { mount = some m; world = w })).1
        ≡ bytes "." ∷ bytes ".." ∷ child_names (children r.target)
  unfolding usvfs_readdir
  readdir_all path flags w r found h =
      let listed = readdir_found path flags w r found in
      ap (λ x. x.1) listed
      ∙ list_children_all (children r.target) dots w (ap (λ x. is_negative x.0) (sym listed) ∙ h)

  -- A found directory with a child whose status cannot be read, in any state of the machine, is not
  -- listed: with a caller whose buffer does not fill the call returns a negative number.
  pub readdir_fails :
      (path : Bytes) (flags : ℕ) (w : os.World) (r : Found) (k : Bytes) (c : Item)
      → find icu m.file_tree path false ≡ some r
      → lookup k (children r.target) ≡ some c
      → ((w : os.World) → (e : ℕ) × ((os.run (stat_call c) w).0 ≡ fail e))
      → is_negative (usvfs_readdir icu os path roomy flags (record { mount = some m; world = w })).0
        ≡ true
  unfolding usvfs_readdir
  readdir_fails path flags w r k c found child unread =
      ap (λ x. is_negative x.0) (readdir_found path flags w r found)
      ∙ list_children_stops (children r.target) k c child unread dots w
