-- ===== src/Manager/Mounting/Stuck.antt =====
-- Repeated calls of `unmount` (src/usvfsmanager.cpp).
use usvfs_fuse.Base.{
  ℕ, zero, suc, ℤ, Bool, true, false, List, ◌∷◌, ◌≡◌, refl, sym, ap, ◌∙◌, subst, inl, inr,
  is_minus_one,
}
use usvfs_fuse.Mount.{MountState}
use usvfs_fuse.Manager.{UsvfsManager}
use usvfs_fuse.Manager.Mounting.{Host, any_process_running, unmount_all, unmount}
use usvfs_fuse.Manager.Mounting.Ending.{
  Reaps, any_process_running-IsEnded, unmount_all-IsEnded, unmount_all_blocked, unmount_first,
  unmount-ending, ending-cases, ending,
}

module _ {W : Type 0} (host : Host W) where
  -- Calls of `unmount` one after the other: the last one's answer.
  pub unmounted_again : ℕ → UsvfsManager → W → Bool × UsvfsManager × W
  unmounted_again zero m w = unmount host m w
  unmounted_again (suc n) m w = let r = unmount host m w in unmounted_again n r.1 r.2

  -- The signal to the process of the first mount, `s`, where no program runs.
  abbrev pub signalled : UsvfsManager → MountState → W → Bool × W
  signalled m s w = host.send_interrupt s.pid_fd (any_process_running host m.spawned_processes w).1

module _ {W : Type 0} (host : Host W) (IsEnded : ℤ → W → Type 0) (reaps : Reaps host IsEnded) where
  -- Once the process of the first mount has ended, `unmount` is refused.
  ended_refuses :
      (m : UsvfsManager) (s : MountState) (ss : List MountState) (w : W)
      → m.use_mount_namespace ≡ true
      → m.mounts ≡ s ∷ ss
      → IsEnded s.pid_fd w
      → ((unmount host m w).0 ≡ false)
        × ((unmount host m w).1 ≡ m)
        × IsEnded s.pid_fd (unmount host m w).2
  ended_refuses m s ss w space h gone =
      let running = any_process_running host m.spawned_processes w in
      let earlier =
        any_process_running-IsEnded host IsEnded reaps s.pid_fd m.spawned_processes w gone in
      elim (ending-cases host m w s ss) [
        | inl (f, e) ↦
            absurd (cc (f, unmount_all_blocked host IsEnded reaps s ss running.1 earlier))
        | inr (w', e, later) ↦ rw (unmount-ending host m w (s ∷ ss) space h ∙ e) (
          refl,
          refl,
          elim later [
            | inl (x, q) ↦ subst (IsEnded s.pid_fd) (sym q) earlier
            | inr (q, f) ↦
                subst (IsEnded s.pid_fd) (sym q)
                  (unmount_all-IsEnded host IsEnded reaps s.pid_fd (s ∷ ss) _ earlier)
          ],
        )
      ]

  stays_refused :
      (n : ℕ) (m : UsvfsManager) (s : MountState) (ss : List MountState) (w : W)
      → m.use_mount_namespace ≡ true
      → m.mounts ≡ s ∷ ss
      → IsEnded s.pid_fd w
      → ((unmounted_again host n m w).0 ≡ false) × ((unmounted_again host n m w).1 ≡ m)
  unfolding unmounted_again
  stays_refused zero m s ss w space h gone =
      let (no_success, same_manager, later) = ended_refuses m s ss w space h gone in
      (no_success, same_manager)
  stays_refused (suc n) m s ss w space h gone =
      let (no_success, same_manager, later) = ended_refuses m s ss w space h gone in
      rw (same_manager, unmounted_again) (stays_refused n m s ss (unmount host m w).2 space h later)

  -- On a machine where a process that was waited for has ended, stays ended and cannot be signalled any
  -- more (`Reaps`), with mounts in processes of their own and no program running: let a call of
  -- `unmount` signal the process of the first mount and wait for it, both with success, and yet answer
  -- false, since it fails at a later mount. Then every further call answers false, however many are
  -- made, and the manager keeps all the mounts.
  pub unmount_stuck :
      (n : ℕ) (m : UsvfsManager) (s : MountState) (ss : List MountState) (w : W)
      → m.use_mount_namespace ≡ true
      → m.mounts ≡ s ∷ ss
      → (any_process_running host m.spawned_processes w).0 ≡ false
      → is_minus_one s.pid_fd ≡ false
      → (signalled host m s w).0 ≡ true
      → (host.wait_exit s.pid_fd (signalled host m s w).1).0 ≡ true
      → (unmount host m w).0 ≡ false
      → ((unmounted_again host n m (unmount host m w).2).0 ≡ false)
        × ((unmounted_again host n m (unmount host m w).2).1 ≡ m)
  unmount_stuck n m s ss w space h idle has_process sent waited refused =
      stays_refused n m s ss (unmount host m w).2 space h (elim (ending-cases host m w s ss) [
        | inl (f, e) ↦ absurd (cc (e, opened, refused))
        | inr (w', e, later) ↦
            subst (IsEnded s.pid_fd) (sym (ap (λ r. r.2) (opened ∙ e))) (elim later [
              | inl (busy, q) ↦ absurd (cc)
              | inr (q, f) ↦ subst (IsEnded s.pid_fd) (sym q) ended_first
            ])
      ])
    where
      running : Bool × W
      running = any_process_running host m.spawned_processes w

      opened : unmount host m w ≡ ending host (s ∷ ss) m w
      opened = unmount-ending host m w (s ∷ ss) space h

      ended_first : IsEnded s.pid_fd (unmount_all host true (s ∷ ss) running.1).1
      ended_first =
          rw (unmount_first host s ss running.1 has_process sent waited)
            (unmount_all-IsEnded host IsEnded reaps s.pid_fd ss _ (reaps.waited s.pid_fd _ waited))
