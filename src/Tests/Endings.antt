-- ===== src/Tests/Endings.antt =====
-- The theorems on `unmount`, at mounts of which one cannot be ended, and on the report of `run_fuse`.
use usvfs_fuse.Base.{
  ℕ, ℤ, pos, negsuc, Bool, true, false, not, ◌&&◌, ◌||◌, ◌==◌, List, [], ◌∷◌, ◌≡◌, refl,
  if◌then◌else◌, arith,
}
use usvfs_fuse.Mount.{MountState}
use usvfs_fuse.Manager.{UsvfsManager}
use usvfs_fuse.Manager.Mounting.{Host, any_process_running, unmount_all, unmount}
use usvfs_fuse.Manager.Mounting.Ending.{Reaps, IsEnding, unmount_ends}
use usvfs_fuse.Manager.Mounting.Stuck.{unmounted_again, unmount_stuck}
use usvfs_fuse.Manager.Report.{
  ended, answered, Turn, worker_turn, waiter_turn, wake_up, unmount_turn, is_answered, worker_step,
  waiter_step, step, run, start,
}
use usvfs_fuse.Manager.Report.Race.{report_raced}
use usvfs_fuse.Manager.Report.Safety.{
  IsRightAnswer, works_locked, waits_locked, hands, report_safe, fair, report_arrives,
}
use usvfs_fuse.Manager.Report.Failure.{is_ended, report_late}
use usvfs_fuse.Tests.Data.{tree, mounted}
use usvfs_fuse.Tests.Links.{manager}

abbrev same_fd : ℤ → ℤ → Bool
same_fd (pos m) (pos n) = m == n
same_fd (pos m) (negsuc n) = false
same_fd (negsuc m) (pos n) = false
same_fd (negsuc m) (negsuc n) = m == n

same_fd_refl : (fd : ℤ) → same_fd fd fd ≡ true
same_fd_refl (pos n) = ground arith
same_fd_refl (negsuc n) = ground arith

abbrev has : ℤ → List ℤ → Bool
has fd [] = false
has fd (other ∷ fds) = let rest = has fd fds in if same_fd fd other then true else rest

-- A machine that keeps the descriptors of the processes that were waited for. It signals no process
-- twice, and never the one of descriptor 7.
abbrev reaper : Host (List ℤ)
reaper = record {
  map_stack = λ w. (true, w);
  clone = λ new s w. (pos 4, pos 9, w);
  poll = λ fd w. (pos 0, w);
  errno = λ w. 0;
  wait_now = λ fd w. (true, 0, w);
  fuse_new = λ s w. (true, w);
  fuse_mount = λ s w. (true, w);
  send_interrupt = λ fd w. (not (has fd w) && not (same_fd fd (pos 7)), w);
  wait_exit = λ fd w. (true, fd ∷ w);
  fuse_unmount = λ s w. w;
  wait_process = λ pid w. (pos 0, w);
}

abbrev IsReaped : ℤ → List ℤ → Type 0
IsReaped fd w = has fd w ≡ true

reaper-Reaps : Reaps reaper IsReaped
reaper-Reaps = record {
  waited = λ fd w h. rw (same_fd_refl fd) refl;
  refuses = λ fd w h. rw h refl;
  past_signal = λ fd by w h. h;
  past_wait = λ fd by w h. ground arith;
  past_process = λ fd pid w h. h;
}

abbrev in_process : ℕ → MountState
in_process fd = record (mounted tree) { pid_fd = pos fd }

abbrev two_mounts : UsvfsManager
two_mounts = record (manager []) {
  use_mount_namespace = true;
  mounts = in_process 6 ∷ in_process 7 ∷ [];
}

unmount_ends_example : IsEnding IsReaped two_mounts.mounts two_mounts (unmount reaper two_mounts [])
unmount_ends_example = unmount_ends reaper IsReaped reaper-Reaps two_mounts [] refl

not_unmounted : (unmount reaper two_mounts []).0 ≡ false
unfolding unmount unmount_all any_process_running
not_unmounted = refl

unmount_stuck_example :
    ((unmounted_again reaper 2 two_mounts (unmount reaper two_mounts []).2).0 ≡ false)
    × ((unmounted_again reaper 2 two_mounts (unmount reaper two_mounts []).2).1 ≡ two_mounts)
unfolding any_process_running
unmount_stuck_example =
    unmount_stuck reaper IsReaped reaper-Reaps 2 two_mounts (in_process 6) (in_process 7 ∷ []) []
      refl refl refl refl refl refl not_unmounted

abbrev some_turns : List Turn
some_turns = waiter_turn ∷ worker_turn ∷ waiter_turn ∷ wake_up ∷ worker_turn ∷ waiter_turn ∷ []

report_safe_example :
    let r = run true some_turns start in
    ((works_locked r.worker && waits_locked r.waiter) ≡ false)
    × (r.is_locked ≡ (works_locked r.worker || waits_locked r.waiter))
    × (r.is_faulty ≡ false)
    × (r.is_freed ≡ false)
    × (r.is_handed ≡ hands r.worker)
    × IsRightAnswer r.waiter r.status
report_safe_example = report_safe some_turns (refl, (refl, (refl, (refl, (refl, (refl, tt))))))

-- The waiter finds the status set, and has its answer before `run_fuse` notifies.
abbrev early : List Turn
early = worker_turn ∷ worker_turn ∷ worker_turn ∷ waiter_turn ∷ waiter_turn ∷ waiter_turn ∷ []

answered_early : is_answered (run true early start).waiter ≡ true
unfolding run step worker_step waiter_step
answered_early = refl

not_in_loop : is_ended (run true early start).worker ≡ false
unfolding run step worker_step waiter_step
not_in_loop = refl

report_raced_example :
    (run true (unmount_turn ∷ worker_turn ∷ worker_turn ∷ []) (run true early start)).is_faulty
    ≡ true
report_raced_example =
    report_raced early (worker_turn ∷ []) (refl, (refl, (refl, (refl, (refl, (refl, tt))))))
      answered_early not_in_loop

report_arrives_example : (run true fair (run true some_turns start)).waiter ≡ answered true
report_arrives_example = report_arrives some_turns

-- The waiter is notified, and `run_fuse` returns before it has the lock.
abbrev hurried : List Turn
hurried =
    waiter_turn ∷ waiter_turn ∷ worker_turn ∷ worker_turn ∷ worker_turn ∷ worker_turn ∷ worker_turn
    ∷ []

abbrev rest : List Turn
rest = waiter_turn ∷ waiter_turn ∷ waiter_turn ∷ []

returned : (run false hurried start).worker ≡ ended
unfolding run step worker_step waiter_step
returned = refl

not_yet_answered : is_answered (run false hurried start).waiter ≡ false
unfolding run step worker_step waiter_step
not_yet_answered = refl

answered_then : is_answered (run false rest (run false hurried start)).waiter ≡ true
unfolding run step worker_step waiter_step
answered_then = refl

report_late_example : (run false rest (run false hurried start)).is_faulty ≡ true
report_late_example = report_late hurried rest returned not_yet_answered answered_then
