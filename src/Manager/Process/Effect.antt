-- ===== src/Manager/Process/Effect.antt =====
-- What `usvfsCreateProcessHooked` (src/usvfsmanager.cpp) does before it starts a program, and the name
-- that it takes from the arguments of wine.
use usvfs_fuse.Base.{
  ℕ, zero, suc, ◌-◌, ◌^◌, ◌<◌, ◌==◌, negsuc, true, false, not, ◌&&◌, is_minus_one, Option, none,
  some, List, [], ◌∷◌, ◌++◌, Bytes, length, take, ltb, ◌≡◌, refl, ap, ◌∙◌, ◌⊎◌, inl, inr, arith,
  Bool-cases, Option-cases,
}
use usvfs_fuse.Utils.{Icu}
use usvfs_fuse.Kernel.{Kernel}
use usvfs_fuse.Manager.{UsvfsManager}
use usvfs_fuse.Manager.Mounting.{Host, mount_internal}
use usvfs_fuse.Manager.Mounting.Effect.{mountpoints, mount_internal_made}
use usvfs_fuse.Manager.Process.{
  Processes, answers, contains, find_space, one_less, process_name, no_mounts, spawn,
  usvfs_create_process_hooked,
}

module _ (icu : Icu) (os : Kernel) (host : Host os.World) (processes : Processes os.World) where
  -- Of an executable that is not blacklisted, where there are no mounts yet or there is a namespace
  -- for them: the pending mounts are mounted first, and afterwards none is pending. Either one of them
  -- has failed: then the answer is -1 and the machine is as the mounting has left it, so that nothing
  -- is started. Or each of them is mounted, behind those from before, and the answer and the machine
  -- are those of starting the program on the manager and the machine with these mounts.
  pub create_process_mounts :
      (file arg work_dir : Bytes) (env : Option (List Bytes)) (m : UsvfsManager) (w : os.World)
      → contains file m.executable_blacklist ≡ false
      → (not (no_mounts m) && is_minus_one m.ns_pid_fd) ≡ false
      → let r = usvfs_create_process_hooked icu os host processes file arg work_dir env m w in
        (r.1.pending_mounts ≡ [])
        × ((((mount_internal icu os host m w).0 ≡ false)
              × (r.0 ≡ answers (negsuc 0))
              × (r.2 ≡ (mount_internal icu os host m w).2))
            ⊎ ((mountpoints r.1.mounts ≡ mountpoints m.mounts ++ mountpoints m.pending_mounts)
                × ((r.0, r.2)
                    ≡ spawn icu processes r.1 file arg work_dir env
                        (mount_internal icu os host m w).2)))
  unfolding usvfs_create_process_hooked
  create_process_mounts file arg work_dir env m w listed checked =
      let (pending, all) = mount_internal_made icu os host m w in
      elim all [
        | inl (mounted, are) ↦
            rw (listed, checked, mounted, usvfs_create_process_hooked) (pending, inr (are, refl))
        | inr fails ↦
            rw (listed, checked, fails, usvfs_create_process_hooked)
              (pending, inl (refl, refl, refl))
      ]

find_space-first :
    (s rest : Bytes) → find_space s ≡ none → find_space (s ++ 32 ∷ rest) ≡ some (length s)
unfolding find_space
find_space-first [] rest h = refl
find_space-first (c ∷ s) rest h = elim (Bool-cases (c == 32)) [
  | inl e ↦ ground arith
  | inr e ↦ elim (Option-cases (find_space s)) [
    | inl n ↦ ground (arith, find_space-first s rest n)
    | inr (p, n) ↦ ground arith
  ]
]

take-append : (n : ℕ) (s t : Bytes) → n < length s → take n (s ++ t) ≡ take n s
take-append zero s t h = refl
take-append (suc n) [] t h = absurd (omega arith)
take-append (suc n) (c ∷ s) t h = ap (◌∷◌ c) (take-append n s t (omega arith))

-- From the arguments of wine, a program that is named without spaces and followed by a space, the
-- name is taken without its last byte. (The name has at least one byte, and less than 2^64.)
pub process_name_of_wine :
    (name rest : Bytes)
    → find_space name ≡ none
    → 0 < length name
    → length name < 2 ^ 64
    → process_name true (name ++ 32 ∷ rest) ≡ some (take (length name - 1) name)
unfolding process_name
process_name_of_wine name rest h full small =
    rw (find_space-first name rest h, not_behind (length (name ++ 32 ∷ rest)), process_name)
      (ap some (
        ap (λ n. take n (name ++ 32 ∷ rest)) less
        ∙ take-append (length name - 1) name (32 ∷ rest) (omega arith)))
  where
    not_behind : (n : ℕ) → ltb n 0 ≡ false
    not_behind n = ground arith

    less : one_less (length name) ≡ length name - 1
    less = omega arith
