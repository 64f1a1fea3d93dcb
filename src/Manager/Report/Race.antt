-- ===== src/Manager/Report/Race.antt =====
-- An `unmount` before `run_fuse` is in its loop (src/usvfsmanager.cpp).
use usvfs_fuse.Base.{true, false, List, [], ◌∷◌, ◌≡◌, arith}
use usvfs_fuse.Manager.Report.{
  Report, Turn, worker_turn, waiter_turn, wake_up, unmount_turn, is_answered, worker_step,
  waiter_step, unmount_step, step, run, start,
}
use usvfs_fuse.Manager.Report.Failure.{is_ended}
use usvfs_fuse.Manager.Report.Safety.{IsUndisturbed, IsGood, start-IsGood, run-IsGood}

step-is_faulty : (t : Turn) (r : Report) → r.is_faulty ≡ true → (step true t r).is_faulty ≡ true
unfolding step worker_step waiter_step unmount_step
step-is_faulty worker_turn r h = ground arith
step-is_faulty waiter_turn r h = ground arith
step-is_faulty wake_up r h = ground arith
step-is_faulty unmount_turn r h = ground arith

run-is_faulty :
    (ts : List Turn) (r : Report) → r.is_faulty ≡ true → (run true ts r).is_faulty ≡ true
unfolding run
run-is_faulty [] r h = h
run-is_faulty (t ∷ ts) r h = run-is_faulty ts (step true t r) (step-is_faulty t r h)

raced :
    (r : Report)
    → IsGood r
    → is_answered r.waiter ≡ true
    → is_ended r.worker ≡ false
    → (step true worker_turn (step true unmount_turn r)).is_faulty ≡ true
unfolding step worker_step unmount_step
raced r g answer running = ground (arith, g.together, g.handed)

-- Where a mount succeeds and `mountInternal` has its answer, an `unmount` that comes before `run_fuse`
-- has notified and is in its loop destroys the state that `run_fuse` goes on with: after its next step,
-- and whatever comes then, the state has been used after it was destroyed.
pub report_raced :
    (ts us : List Turn)
    → IsUndisturbed ts
    → is_answered (run true ts start).waiter ≡ true
    → is_ended (run true ts start).worker ≡ false
    → (run true (unmount_turn ∷ worker_turn ∷ us) (run true ts start)).is_faulty ≡ true
unfolding run
report_raced ts us alone answer running =
    run-is_faulty us _
      (raced (run true ts start) (run-IsGood ts start alone start-IsGood) answer running)
