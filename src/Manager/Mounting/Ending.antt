-- ===== src/Manager/Mounting/Ending.antt =====
-- `unmount` (src/usvfsmanager.cpp) of mounts in processes of their own, and what becomes of these.
use usvfs_fuse.Base.{
  ℕ, ℤ, Bool, true, false, List, [], ◌∷◌, All, ◌≡◌, ◌⊎◌, refl, sym, ap, ◌∙◌, subst, arith,
  Bool-cases, inl, inr, is_minus_one, if◌then◌else◌,
}
use usvfs_fuse.Mount.{MountState}
use usvfs_fuse.Manager.{UsvfsManager}
use usvfs_fuse.Manager.Mounting.{Host, any_process_running, is_positive, unmount_all, unmount}

-- Processes that have ended, by the descriptors that name them. One that was waited for has ended,
-- an ended one cannot be signalled any more, and stays ended.
pub record Reaps {W : Type 0} (host : Host W) (IsEnded : ℤ → W → Type 0) : Type 0 where
  pub waited :
      (fd : ℤ) (w : W) → (host.wait_exit fd w).0 ≡ true → IsEnded fd (host.wait_exit fd w).1
  pub refuses : (fd : ℤ) (w : W) → IsEnded fd w → (host.send_interrupt fd w).0 ≡ false
  pub past_signal : (fd by : ℤ) (w : W) → IsEnded fd w → IsEnded fd (host.send_interrupt by w).1
  pub past_wait : (fd by : ℤ) (w : W) → IsEnded fd w → IsEnded fd (host.wait_exit by w).1
  pub past_process :
      (fd : ℤ) (pid : ℕ) (w : W) → IsEnded fd w → IsEnded fd (host.wait_process pid w).1

module _ {W : Type 0} (host : Host W) where
  -- The loop stops at the mount, or ends its process and goes on.
  unmount_step :
      (s : MountState) (ss : List MountState) (w : W)
      → let sent = host.send_interrupt s.pid_fd w in
        let waited = host.wait_exit s.pid_fd sent.1 in
        ((unmount_all host true (s ∷ ss) w).0 ≡ false)
        ⊎ ((waited.0 ≡ true)
            × (unmount_all host true (s ∷ ss) w ≡ unmount_all host true ss waited.1))
  unfolding unmount_all
  unmount_step s ss w =
      let sent = host.send_interrupt s.pid_fd w in
      elim (Bool-cases (is_minus_one s.pid_fd)) [
        | inl e ↦ inl (rw (e, unmount_all) refl)
        | inr e ↦ elim (Bool-cases sent.0) [
          | inr f ↦ inl (rw (e, f, unmount_all) refl)
          | inl f ↦ elim (Bool-cases (host.wait_exit s.pid_fd sent.1).0) [
            | inr g ↦ inl (rw (e, f, g, unmount_all) refl)
            | inl g ↦ inr (g, rw (e, f, g, unmount_all) refl)
          ]
        ]
      ]

  -- The loop goes on behind a mount whose process it has ended.
  pub unmount_first :
      (s : MountState) (ss : List MountState) (w : W)
      → is_minus_one s.pid_fd ≡ false
      → (host.send_interrupt s.pid_fd w).0 ≡ true
      → (host.wait_exit s.pid_fd (host.send_interrupt s.pid_fd w).1).0 ≡ true
      → unmount_all host true (s ∷ ss) w
        ≡ unmount_all host true ss (host.wait_exit s.pid_fd (host.send_interrupt s.pid_fd w).1).1
  unfolding unmount_all
  unmount_first s ss w e f g = rw (e, f, g, unmount_all) refl

  -- `unmount` of the mounts `ss`, which have processes of their own.
  abbrev pub ending : List MountState → UsvfsManager → W → Bool × UsvfsManager × W
  ending [] m w = (true, m, w)
  ending (s ∷ ss) m w =
      let running = any_process_running host m.spawned_processes w in
      let ended = unmount_all host true (s ∷ ss) running.1 in
      if running.0
      then (false, m, running.1)
      else if ended.0
      then (true, record m { mounts = [] }, ended.1)
      else (false, m, ended.1)

  pub unmount-ending :
      (m : UsvfsManager) (w : W) (ss : List MountState)
      → m.use_mount_namespace ≡ true
      → m.mounts ≡ ss
      → unmount host m w ≡ ending ss m w
  unfolding unmount
  unmount-ending m w [] space h = ground arith
  unmount-ending m w (s ∷ ss) space h = ground arith

  -- The outcomes of the unmounting: it gets through, or is refused and goes on from a machine where
  -- what had ended has still ended.
  pub ending-cases :
      (m : UsvfsManager) (w : W) (s : MountState) (ss : List MountState)
      → let running = any_process_running host m.spawned_processes w in
        let ended = unmount_all host true (s ∷ ss) running.1 in
        ((ended.0 ≡ true) × (ending (s ∷ ss) m w ≡ (true, record m { mounts = [] }, ended.1)))
        ⊎ ((w' : W) × (ending (s ∷ ss) m w ≡ (false, m, w'))
            × (((running.0 ≡ true) × (w' ≡ running.1)) ⊎ ((w' ≡ ended.1) × (ended.0 ≡ false))))
  ending-cases m w s ss =
      let running = any_process_running host m.spawned_processes w in
      let ended = unmount_all host true (s ∷ ss) running.1 in
      elim (Bool-cases running.0) [
        | inl e ↦ inr (running.1, rw e refl, inl (e, refl))
        | inr e ↦ elim (Bool-cases ended.0) [
          | inl f ↦ inl (f, rw (e, f) refl)
          | inr f ↦ inr (ended.1, rw (e, f) refl, inr (refl, f))
        ]
      ]

-- All mounts are ended, with their processes, or the manager is as it was.
abbrev pub IsEnding :
    {W : Type 0}
    → (ℤ → W → Type 0)
    → List MountState
    → UsvfsManager
    → Bool × UsvfsManager × W
    → Type 0
IsEnding IsEnded ss m r =
    ((r.0 ≡ true) × (r.1 ≡ record m { mounts = [] }) × All (λ s. IsEnded s.pid_fd r.2) ss)
    ⊎ ((r.0 ≡ false) × (r.1 ≡ m))

module _ {W : Type 0} (host : Host W) (IsEnded : ℤ → W → Type 0) (reaps : Reaps host IsEnded) where
  pub any_process_running-IsEnded :
      (fd : ℤ) (pids : List ℕ) (w : W)
      → IsEnded fd w
      → IsEnded fd (any_process_running host pids w).1
  unfolding any_process_running
  any_process_running-IsEnded fd [] w h = h
  any_process_running-IsEnded fd (pid ∷ pids) w h =
      let later = reaps.past_process fd pid w h in
      elim (Bool-cases (is_positive (host.wait_process pid w).0)) [
        | inl e ↦ rw (e, any_process_running) later
        | inr e ↦ rw (e, any_process_running) (any_process_running-IsEnded fd pids _ later)
      ]

  pub unmount_all-IsEnded :
      (fd : ℤ) (ss : List MountState) (w : W)
      → IsEnded fd w
      → IsEnded fd (unmount_all host true ss w).1
  unfolding unmount_all
  unmount_all-IsEnded fd [] w h = h
  unmount_all-IsEnded fd (s ∷ ss) w h = elim (Bool-cases (is_minus_one s.pid_fd)) [
    | inl e ↦ rw (e, unmount_all) h
    | inr e ↦
        let sent = host.send_interrupt s.pid_fd w in
        let later = reaps.past_signal fd s.pid_fd w h in
        elim (Bool-cases sent.0) [
          | inr f ↦ rw (e, f, unmount_all) later
          | inl f ↦
              let last = reaps.past_wait fd s.pid_fd sent.1 later in
              elim (Bool-cases (host.wait_exit s.pid_fd sent.1).0) [
                | inr g ↦ rw (e, f, g, unmount_all) last
                | inl g ↦ rw (e, f, g, unmount_all) (unmount_all-IsEnded fd ss _ last)
              ]
        ]
  ]

  -- Where the loop gets through, the processes of all mounts have ended.
  unmount_all_ended :
      (ss : List MountState) (w : W)
      → (unmount_all host true ss w).0 ≡ true
      → All (λ s. IsEnded s.pid_fd (unmount_all host true ss w).1) ss
  unmount_all_ended [] w h = tt
  unmount_all_ended (s ∷ ss) w h = elim (unmount_step host s ss w) [
    | inl e ↦ absurd (cc)
    | inr (g, e) ↦
        subst (λ r. All (λ t. IsEnded t.pid_fd r.1) (s ∷ ss)) (sym e)
          (
            unmount_all-IsEnded s.pid_fd ss _ (reaps.waited s.pid_fd _ g),
            unmount_all_ended ss _ (sym (ap (λ r. r.0) e) ∙ h),
          )
  ]

  -- A loop whose first process has ended before stops there.
  pub unmount_all_blocked :
      (s : MountState) (ss : List MountState) (w : W)
      → IsEnded s.pid_fd w
      → (unmount_all host true (s ∷ ss) w).0 ≡ false
  unfolding unmount_all
  unmount_all_blocked s ss w h = elim (Bool-cases (is_minus_one s.pid_fd)) [
    | inl e ↦ rw (e, unmount_all) refl
    | inr e ↦ rw (e, reaps.refuses s.pid_fd w h, unmount_all) refl
  ]

  ending-IsEnding :
      (m : UsvfsManager) (w : W) (ss : List MountState)
      → m.mounts ≡ ss
      → IsEnding IsEnded ss m (ending host ss m w)
  ending-IsEnding m w [] h = inl (refl, ap (λ ss. record m { mounts = ss }) h, tt)
  ending-IsEnding m w (s ∷ ss) h = elim (ending-cases host m w s ss) [
    | inl (f, e) ↦
        subst (IsEnding IsEnded (s ∷ ss) m) (sym e)
          (inl (refl, refl, unmount_all_ended (s ∷ ss) _ f))
    | inr (w', e, later) ↦ subst (IsEnding IsEnded (s ∷ ss) m) (sym e) (inr (refl, refl))
  ]

  -- With mounts in processes of their own, and on a machine where a process that was waited for has
  -- ended and stays ended (`Reaps`): `unmount` answers true, and then no mounts are left, nothing else
  -- of the manager has changed and the processes of all its mounts have ended; or it answers false
  -- and leaves the manager as it was.
  pub unmount_ends :
      (m : UsvfsManager) (w : W)
      → m.use_mount_namespace ≡ true
      → IsEnding IsEnded m.mounts m (unmount host m w)
  unmount_ends m w space =
      subst (IsEnding IsEnded m.mounts m) (sym (unmount-ending host m w m.mounts space refl))
        (ending-IsEnding m w m.mounts refl)
