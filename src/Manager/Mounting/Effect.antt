-- ===== src/Manager/Mounting/Effect.antt =====
-- Which mounts there are after `mountInternal` (src/usvfsmanager.cpp).
use usvfs_fuse.Base.{
  ℕ, Bool, true, false, List, [], ◌∷◌, ◌++◌, map, Bytes, ◌≡◌, refl, sym, ap, ◌∙◌, ◌⊎◌, inl, inr,
  Bool-cases, subst, if_true, if_false, append_assoc, append-nil, is_empty_bytes, is_minus_one,
  ◌||◌,
}
use usvfs_fuse.Utils.{Icu}
use usvfs_fuse.Kernel.{Kernel, done, fail, Reply-cases, open_dir, open_flags}
use usvfs_fuse.Mount.{MountState}
use usvfs_fuse.Manager.{UsvfsManager}
use usvfs_fuse.Manager.Mounting.{
  Host, child_runs, mount_process, run_fuse, mount_one, mount_all, mount_pending, with_upper_dir,
  mount_internal,
}

abbrev pub mountpoints : List MountState → List Bytes
mountpoints ss = map (λ s. s.mountpoint) ss

-- The host refuses to mount a state. In a process of its own: its stack cannot be mapped, or it cannot
-- be made, or it has ended with an error. In a thread: one of the two calls of libfuse fails.
abbrev pub Refuses : {W : Type 0} → Host W → UsvfsManager → MountState → W → Type 0
Refuses host m s w =
    let mapped = host.map_stack w in
    let cloned = host.clone (is_minus_one m.ns_pid_fd) s mapped.1 in
    let made = host.fuse_new s w in
    ((m.use_mount_namespace ≡ true)
      × ((mapped.0 ≡ false)
          ⊎ ((is_minus_one cloned.1 || is_minus_one cloned.0) ≡ true)
          ⊎ ((child_runs host cloned.1 cloned.2).0 ≡ false)))
    ⊎ ((m.use_mount_namespace ≡ false)
        × ((made.0 ≡ false) ⊎ ((host.fuse_mount s made.1).0 ≡ false)))

-- What the mounting of one state comes to: a mount more, at its mountpoint; or the manager as it was.
abbrev OneMounted :
    {W : Type 0} → Type 0 → UsvfsManager → MountState → Bool × UsvfsManager × W → Type 0
OneMounted refused m s r =
    (r.1.pending_mounts ≡ m.pending_mounts)
    × (((r.0 ≡ true) × (mountpoints r.1.mounts ≡ mountpoints m.mounts ++ (s.mountpoint ∷ [])))
        ⊎ ((r.0 ≡ false) × (mountpoints r.1.mounts ≡ mountpoints m.mounts) × refused))

-- The mounting of the states has stopped at the first that the host refuses: those before it are
-- mounted, and it is refused by the machine that they have left.
pub record Stopped {W : Type 0} (host : Host W) (prepare : MountState → MountState)
    (m : UsvfsManager) (ss : List MountState) (w : W) (r : Bool × UsvfsManager × W) : Type 0 where
  pub before : List MountState
  pub refused : MountState
  pub behind : List MountState
  pub parts : ss ≡ before ++ (refused ∷ behind)
  pub manager : UsvfsManager
  pub machine : W
  pub reached : mount_all host prepare before m w ≡ (true, manager, machine)
  pub refusal : Refuses host manager (prepare refused) machine
  pub answer : r.0 ≡ false
  pub are : mountpoints r.1.mounts ≡ mountpoints m.mounts ++ mountpoints before

-- Of the list of states, all are mounted, or those before the first that is refused.
abbrev pub AllMounted :
    {W : Type 0}
    → Host W
    → (MountState → MountState)
    → UsvfsManager
    → List MountState
    → W
    → Bool × UsvfsManager × W
    → Type 0
AllMounted host prepare m ss w r =
    ((r.0 ≡ true) × (mountpoints r.1.mounts ≡ mountpoints m.mounts ++ mountpoints ss))
    ⊎ Stopped host prepare m ss w r

mountpoints-snoc :
    (ss : List MountState) (s : MountState)
    → mountpoints (ss ++ (s ∷ [])) ≡ mountpoints ss ++ (s.mountpoint ∷ [])
mountpoints-snoc [] s = refl
mountpoints-snoc (t ∷ ss) s = ap (◌∷◌ t.mountpoint) (mountpoints-snoc ss s)

module _ {W : Type 0} (host : Host W) where
  run_fuse-OneMounted :
      (m : UsvfsManager) (s : MountState) (w : W)
      → OneMounted
          (((host.fuse_new s w).0 ≡ false) ⊎ ((host.fuse_mount s (host.fuse_new s w).1).0 ≡ false))
          m
          s
          (run_fuse host m s w)
  unfolding run_fuse
  run_fuse-OneMounted m s w = elim (Bool-cases (host.fuse_new s w).0) [
    | inr e ↦ rw (e, run_fuse) (refl, inr (refl, refl, inl refl))
    | inl e ↦ elim (Bool-cases (host.fuse_mount s (host.fuse_new s w).1).0) [
      | inr f ↦ rw (e, f, run_fuse) (refl, inr (refl, refl, inr refl))
      | inl f ↦ rw (e, f, run_fuse) (refl, inl (refl, mountpoints-snoc m.mounts s))
    ]
  ]

  mount_process-OneMounted :
      (m : UsvfsManager) (s : MountState) (w : W)
      → let mapped = host.map_stack w in
        let cloned = host.clone (is_minus_one m.ns_pid_fd) s mapped.1 in
        OneMounted
          ((mapped.0 ≡ false)
            ⊎ ((is_minus_one cloned.1 || is_minus_one cloned.0) ≡ true)
            ⊎ ((child_runs host cloned.1 cloned.2).0 ≡ false))
          m
          s
          (mount_process host m s w)
  unfolding mount_process
  mount_process-OneMounted m s w =
      let mapped = host.map_stack w in
      let cloned = host.clone (is_minus_one m.ns_pid_fd) s mapped.1 in
      elim (Bool-cases mapped.0) [
        | inr e ↦ rw (e, mount_process) (refl, inr (refl, refl, inl refl))
        | inl e ↦ elim (Bool-cases (is_minus_one cloned.1 || is_minus_one cloned.0)) [
          | inl f ↦ rw (e, f, mount_process) (refl, inr (refl, refl, inr (inl refl)))
          | inr f ↦ elim (Bool-cases (child_runs host cloned.1 cloned.2).0) [
            | inr g ↦ rw (e, f, g, mount_process) (refl, inr (refl, refl, inr (inr refl)))
            | inl g ↦
                rw (e, f, g, mount_process)
                  (refl, inl (refl, mountpoints-snoc m.mounts (record s { pid_fd = cloned.1 })))
          ]
        ]
      ]

  mount_one-OneMounted :
      (m : UsvfsManager) (s : MountState) (w : W)
      → OneMounted (Refuses host m s w) m s (mount_one host m s w)
  unfolding mount_one
  mount_one-OneMounted m s w = elim (Bool-cases m.use_mount_namespace) [
    | inl e ↦
        subst (OneMounted (Refuses host m s w) m s) (sym (if_true m.use_mount_namespace _ _ e)) (
          with_refusal (mount_process host m s w) (λ why. inl (e, why))
            (mount_process-OneMounted m s w))
    | inr e ↦
        subst (OneMounted (Refuses host m s w) m s) (sym (if_false m.use_mount_namespace _ _ e))
          (with_refusal (run_fuse host m s w) (λ why. inr (e, why)) (run_fuse-OneMounted m s w))
  ]
    where
      with_refusal :
          {A B : Type 0} (r : Bool × UsvfsManager × W)
          → (A → B)
          → OneMounted A m s r
          → OneMounted B m s r
      with_refusal r f (pending, inl made) = (pending, inl made)
      with_refusal r f (pending, inr (stops, are, why)) = (pending, inr (stops, are, f why))

  mount_all_stops :
      (prepare : MountState → MountState) (s : MountState) (ss : List MountState) (m : UsvfsManager)
      (w : W)
      → (mount_one host m (prepare s) w).0 ≡ false
      → mount_all host prepare (s ∷ ss) m w
        ≡ (false, (mount_one host m (prepare s) w).1, (mount_one host m (prepare s) w).2)
  unfolding mount_all
  mount_all_stops prepare s ss m w h = rw (h, mount_all) refl

  mount_all_goes_on :
      (prepare : MountState → MountState) (s : MountState) (ss : List MountState) (m : UsvfsManager)
      (w : W)
      → (mount_one host m (prepare s) w).0 ≡ true
      → mount_all host prepare (s ∷ ss) m w
        ≡ mount_all host prepare ss
            (mount_one host m (prepare s) w).1
            (mount_one host m (prepare s) w).2
  unfolding mount_all
  mount_all_goes_on prepare s ss m w h = rw (h, mount_all) refl

  mount_all-AllMounted :
      (prepare : MountState → MountState) (ss : List MountState) (m : UsvfsManager) (w : W)
      → ((s : MountState) → (prepare s).mountpoint ≡ s.mountpoint)
      → ((mount_all host prepare ss m w).1.pending_mounts ≡ m.pending_mounts)
        × AllMounted host prepare m ss w (mount_all host prepare ss m w)
  unfolding mount_all
  mount_all-AllMounted prepare [] m w keeps = (refl, inl (refl, sym (append-nil _)))
  mount_all-AllMounted prepare (s ∷ ss) m w keeps =
      let (pending, one) = mount_one-OneMounted m (prepare s) w in
      elim one [
        | inr (stopped, same_mounts, why) ↦
            let stops = mount_all_stops prepare s ss m w stopped in
            (
              ap (λ r. r.1.pending_mounts) stops ∙ pending,
              inr (record {
                before = [];
                refused = s;
                behind = ss;
                parts = refl;
                manager = m;
                machine = w;
                reached = refl;
                refusal = why;
                answer = ap (λ r. r.0) stops;
                are = ap (λ r. mountpoints r.1.mounts) stops ∙ same_mounts ∙ sym (append-nil _);
              }),
            )
        | inl (mounted, more) ↦
            let goes_on = mount_all_goes_on prepare s ss m w mounted in
            let m' = (mount_one host m (prepare s) w).1 in
            let (still_pending, rest) =
              mount_all-AllMounted prepare ss m' (mount_one host m (prepare s) w).2 keeps in
            let joined : (ps : List Bytes)
                → mountpoints m'.mounts ++ ps ≡ mountpoints m.mounts ++ (s.mountpoint ∷ ps) =
              λ ps.
                ap (λ l. l ++ ps) more
                ∙ append_assoc (mountpoints m.mounts) ((prepare s).mountpoint ∷ []) ps
                ∙ ap (λ p. mountpoints m.mounts ++ (p ∷ ps)) (keeps s) in
            (
              ap (λ r. r.1.pending_mounts) goes_on ∙ still_pending ∙ pending,
              elim rest [
                | inl (all, are) ↦ inl (
                  ap (λ r. r.0) goes_on ∙ all,
                  ap (λ r. mountpoints r.1.mounts) goes_on ∙ are ∙ joined _,
                )
                | inr stop ↦ inr (record {
                  before = s ∷ stop.before;
                  refused = stop.refused;
                  behind = stop.behind;
                  parts = ap (◌∷◌ s) stop.parts;
                  manager = stop.manager;
                  machine = stop.machine;
                  reached = mount_all_goes_on prepare s stop.before m w mounted ∙ stop.reached;
                  refusal = stop.refusal;
                  answer = ap (λ r. r.0) goes_on ∙ stop.answer;
                  are = ap (λ r. mountpoints r.1.mounts) goes_on ∙ stop.are ∙ joined _;
                })
              ],
            )
      ]

-- What the mounting of the pending states `ss` comes to. With no upper directory, or with one that can
-- be opened, they are mounted one after the other, with that directory; where it cannot be opened, none
-- of them is. The directory is not opened where nothing is pending.
pub data PendingMounted (icu : Icu) (os : Kernel) (host : Host os.World) (m : UsvfsManager)
    (ss : List MountState) (w : os.World) (r : Bool × UsvfsManager × os.World) : Type 0 where
  nothing_pending : ss ≡ [] → r ≡ (true, m, w) → PendingMounted icu os host m ss w r
  without_upper :
      is_empty_bytes m.upper_dir ≡ true
      → AllMounted host (λ t. t) (record m { pending_mounts = [] }) ss w r
      → PendingMounted icu os host m ss w r
  with_upper :
      (fd : ℕ) (out : Bytes)
      → is_empty_bytes m.upper_dir ≡ false
      → (os.run (open_dir m.upper_dir open_flags) w).0 ≡ done fd out
      → AllMounted host
          (with_upper_dir icu os host m.upper_dir fd)
          (record m { pending_mounts = [] })
          ss
          (os.run (open_dir m.upper_dir open_flags) w).1
          r
      → PendingMounted icu os host m ss w r
  upper_refused :
      (e : ℕ)
      → is_empty_bytes m.upper_dir ≡ false
      → (os.run (open_dir m.upper_dir open_flags) w).0 ≡ fail e
      → r.0 ≡ false
      → mountpoints r.1.mounts ≡ mountpoints m.mounts
      → PendingMounted icu os host m ss w r

module _ (icu : Icu) (os : Kernel) (host : Host os.World) where
  mount_pending-PendingMounted :
      (m : UsvfsManager) (ss : List MountState) (w : os.World)
      → m.pending_mounts ≡ ss
      → ((mount_pending icu os host m ss w).1.pending_mounts ≡ [])
        × PendingMounted icu os host m ss w (mount_pending icu os host m ss w)
  unfolding mount_pending
  mount_pending-PendingMounted m [] w e = (e, nothing_pending refl refl)
  mount_pending-PendingMounted m (s ∷ ss) w e =
      let taken = record m { pending_mounts = [] } in
      let r = os.run (open_dir m.upper_dir open_flags) w in
      elim (Bool-cases (is_empty_bytes m.upper_dir)) [
        | inl no_upper ↦
            let (pending, all) = mount_all-AllMounted host (λ t. t) (s ∷ ss) taken w (λ t. refl) in
            rw (no_upper, mount_pending) (pending, without_upper no_upper all)
        | inr upper ↦ elim (Reply-cases r.0) [
          | inl (k, refuses) ↦
              rw (upper, refuses, mount_pending) (refl, upper_refused k upper refuses refl refl)
          | inr (fd, out, opened) ↦
              let (pending, all) =
                mount_all-AllMounted host (with_upper_dir icu os host m.upper_dir fd) (s ∷ ss) taken
                  r.1 (λ t. refl) in
              rw (upper, opened, mount_pending) (pending, with_upper fd out upper opened all)
        ]
      ]

  pub mount_internal_effect :
      (m : UsvfsManager) (w : os.World)
      → ((mount_internal icu os host m w).1.pending_mounts ≡ [])
        × PendingMounted icu os host m m.pending_mounts w (mount_internal icu os host m w)
  unfolding mount_internal
  mount_internal_effect m w = mount_pending-PendingMounted m m.pending_mounts w refl

  -- In short: the pending mounts are made, or the answer is false.
  pub mount_internal_made :
      (m : UsvfsManager) (w : os.World)
      → ((mount_internal icu os host m w).1.pending_mounts ≡ [])
        × ((((mount_internal icu os host m w).0 ≡ true)
              × (mountpoints (mount_internal icu os host m w).1.mounts
                  ≡ mountpoints m.mounts ++ mountpoints m.pending_mounts))
            ⊎ ((mount_internal icu os host m w).0 ≡ false))
  mount_internal_made m w =
      let (pending, effect) = mount_internal_effect m w in (pending, made effect)
    where
      of_all :
          {prepare : MountState → MountState} {n : UsvfsManager} {v : os.World}
          {r : Bool × UsvfsManager × os.World}
          → AllMounted host prepare n m.pending_mounts v r
          → ((r.0 ≡ true)
              × (mountpoints r.1.mounts ≡ mountpoints n.mounts ++ mountpoints m.pending_mounts))
            ⊎ (r.0 ≡ false)
      of_all (inl all) = inl all
      of_all (inr stop) = inr stop.answer

      made :
          {r : Bool × UsvfsManager × os.World}
          → PendingMounted icu os host m m.pending_mounts w r
          → ((r.0 ≡ true)
              × (mountpoints r.1.mounts ≡ mountpoints m.mounts ++ mountpoints m.pending_mounts))
            ⊎ (r.0 ≡ false)
      made (nothing_pending none_there e) = inl (
        ap (λ r. r.0) e,
        ap (λ r. mountpoints r.1.mounts) e
            ∙ sym (ap (λ ss. mountpoints m.mounts ++ mountpoints ss) none_there ∙ append-nil _),
      )
      made (without_upper no_upper all) = of_all all
      made (with_upper fd out upper opened all) = of_all all
      made (upper_refused e upper refuses stops are) = inr stops
