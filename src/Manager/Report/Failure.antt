-- ===== src/Manager/Report/Failure.antt =====
-- The report of a mount that fails (src/usvfsmanager.cpp).
use usvfs_fuse.Base.{Bool, true, false, not, ◌||◌, List, [], ◌∷◌, ◌≡◌, refl, arith}
use usvfs_fuse.Manager.Report.{
  Worker, ended, Report, Turn, worker_turn, waiter_turn, wake_up, unmount_turn, is_answered,
  unmount_step, worker_step, waiter_step, step, run, start,
}

abbrev pub is_ended : Worker → Bool
is_ended ended = true
is_ended _ = false

-- The state is not handed over, and is destroyed where `run_fuse` is past its return.
record IsOwned (r : Report) : Type 0 where
  kept : r.is_handed ≡ false
  destroyed : r.is_freed ≡ is_ended r.worker

step-IsOwned : (t : Turn) (r : Report) → IsOwned r → IsOwned (step false t r)
unfolding step worker_step waiter_step unmount_step
step-IsOwned worker_turn r h = ground arith
step-IsOwned waiter_turn r h = ground arith
step-IsOwned wake_up r h = ground arith
step-IsOwned unmount_turn r h = ground arith

run-IsOwned : (ts : List Turn) (r : Report) → IsOwned r → IsOwned (run false ts r)
unfolding run
run-IsOwned [] r h = h
run-IsOwned (t ∷ ts) r h = run-IsOwned ts (step false t r) (step-IsOwned t r h)

-- The state is destroyed, and an answer was got from it.
record IsLate (r : Report) : Type 0 where
  past : r.worker ≡ ended
  destroyed : r.is_freed ≡ true
  used : (not (is_answered r.waiter) || r.is_faulty) ≡ true

step-IsLate : (t : Turn) (r : Report) → IsLate r → IsLate (step false t r)
unfolding step worker_step waiter_step unmount_step
step-IsLate worker_turn r h = ground arith
step-IsLate waiter_turn r h = ground arith
step-IsLate wake_up r h = ground arith
step-IsLate unmount_turn r h = ground arith

run-IsLate : (ts : List Turn) (r : Report) → IsLate r → IsLate (run false ts r)
unfolding run
run-IsLate [] r h = h
run-IsLate (t ∷ ts) r h = run-IsLate ts (step false t r) (step-IsLate t r h)

-- Where the mount fails, and `run_fuse` returns before `mountInternal` is past the wait, every
-- interleaving from there on in which `mountInternal` gets past the wait uses the state after it was
-- destroyed.
pub report_late :
    (ts us : List Turn)
    → (run false ts start).worker ≡ ended
    → is_answered (run false ts start).waiter ≡ false
    → is_answered (run false us (run false ts start)).waiter ≡ true
    → (run false us (run false ts start)).is_faulty ≡ true
report_late ts us past waiting answer =
    let freed = run-IsOwned ts start (record { kept = refl; destroyed = refl }) in
    let late =
      run-IsLate us (run false ts start)
        (record { past = past; destroyed = ground arith; used = ground arith }) in
    ground arith
