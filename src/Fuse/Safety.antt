-- ===== src/Fuse/Safety.antt =====
-- When a handler of src/usvfs.cpp keeps the mount sound: rules for the parts that handlers are made
-- of.
pub mod Lookup
pub mod Reads
pub mod Parents
pub mod Mkdir
pub mod Changes
pub mod Entries
pub mod Requests
use usvfs_fuse.Base.{
  ℕ, ℤ, Bool, true, false, Option, none, some, if◌then◌else◌, Bytes, bytes, ◌≡◌, refl, sym, ap, ◌∙◌,
  ◌≢◌, ◌⊎◌, inl, inr, subst, Option-cases, Bool-cases,
}
use usvfs_fuse.Utils.{Icu}
use usvfs_fuse.Utils.Case.{IsAscii}
use usvfs_fuse.Tree.Item.{Item}
use usvfs_fuse.Tree.Find.{Found, find, strip_slash}
use usvfs_fuse.Tree.Add.Walk.{IsClean}
use usvfs_fuse.Tree.Sound.{IsSound}
use usvfs_fuse.Kernel.{Kernel, Call, Reply, done, fail, Reply-cases}
use usvfs_fuse.Mount.{
  MountState, FileInfo, Context, Outcome, Status, returns, broken, outcome, ended, with_state, sys,
}
use usvfs_fuse.Fuse.{
  with_item, parent_fd, ParentFd, ready, stopped, create_parent_dir, opened_parent,
}

-- A path as libfuse passes it: "/", or an ASCII one with no empty name.
abbrev pub IsPath : Bytes → Type 0
IsPath path = (path ≡ bytes "/") ⊎ (IsAscii path × IsClean (strip_slash path))

abbrev pub IsSoundMount : Option MountState → Type 0
IsSoundMount none = Unit
IsSoundMount (some m) = IsSound m.file_tree

-- The handler has ended as it should, and has left a sound mount.
pub record IsSafe {W : Type 0} (o : Outcome W) : Type 0 where
  pub not_broken : o.status ≢ broken
  pub sound : IsSoundMount o.context.mount

pub returns-ne-broken : (code : ℤ) → returns code ≢ broken
returns-ne-broken code h = cc

module _ {W : Type 0} where
  pub answered-IsSafe :
      {out : Bytes} {info : Option FileInfo} {c : Context W} (code : ℤ)
      → IsSoundMount c.mount
      → IsSafe (record { status = returns code; out = out; info = info; context = c })
  answered-IsSafe code sound = record { not_broken = returns-ne-broken code; sound = sound }

  -- What a handler puts into the caller's structures changes nothing of that.
  pub filled-IsSafe :
      (o : Outcome W) (out : Bytes) (info : Option FileInfo)
      → IsSafe o
      → IsSafe (record o { out = out; info = info })
  filled-IsSafe o out info safe = record { not_broken = safe.not_broken; sound = safe.sound }

  pub ended-IsSafe :
      (code : ℤ) (m : MountState) (w : W) → IsSound m.file_tree → IsSafe (ended code m w)
  ended-IsSafe code m w sound = answered-IsSafe code sound

  pub if-IsSafe : (b : Bool) {x y : Outcome W} → IsSafe x → IsSafe y → IsSafe (if b then x else y)
  if-IsSafe true p q = p
  if-IsSafe false p q = q

  pub with_state-IsSafe :
      (c : Context W) (k : MountState → W → Outcome W)
      → IsSoundMount c.mount
      → ((m : MountState) (w : W) → IsSound m.file_tree → IsSafe (k m w))
      → IsSafe (with_state c k)
  with_state-IsSafe c k sound safe = go c.mount refl
    where
      go : (o : Option MountState) → c.mount ≡ o → IsSafe (with_state c k)
      go none h = rw (h, with_state) (answered-IsSafe _ sound)
      go (some m) h = rw (h, with_state) (safe m c.world (subst IsSoundMount h sound))

pub mount_cases :
    {W : Type 0} (c : Context W)
    → IsSoundMount c.mount
    → (c.mount ≡ none) ⊎ ((m : MountState) × (c.mount ≡ some m) × IsSound m.file_tree)
mount_cases c sound = elim (Option-cases c.mount) [
  | inl h ↦ inl h
  | inr (m, h) ↦ inr (m, h, subst IsSoundMount h sound)
]

module _ (os : Kernel) where
  pub sys-IsSafe :
      (call : Call) (m : MountState) (w : os.World) (k : ℕ → Bytes → os.World → Outcome os.World)
      → IsSound m.file_tree
      → ((n : ℕ) (out : Bytes) (w' : os.World) → IsSafe (k n out w'))
      → IsSafe (sys os call m w k)
  sys-IsSafe call m w k sound safe = elim (Reply-cases (os.run call w).0) [
    | inl (e, h) ↦ rw (h, sys) (answered-IsSafe _ sound)
    | inr (n, out, h) ↦ rw (h, sys) (safe n out _)
  ]

module _ (icu : Icu) (os : Kernel) where
  pub with_item-IsSafe :
      (m : MountState) (w : os.World) (path : Bytes) (k : Found → Outcome os.World)
      → IsSound m.file_tree
      → ((r : Found) → find icu m.file_tree path false ≡ some r → IsSafe (k r))
      → IsSafe (with_item icu os m w path k)
  with_item-IsSafe m w path k sound safe = elim (Option-cases (find icu m.file_tree path false)) [
    | inl h ↦ rw (h, with_item) (answered-IsSafe _ sound)
    | inr (r, h) ↦ rw (h, with_item) (safe r h)
  ]
